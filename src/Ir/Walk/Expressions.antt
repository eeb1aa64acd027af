-- ===== src/Ir/Walk/Expressions.antt =====
-- Which expressions the default walk of tinymachine-ir/src/walk.rs shows to `visit_expr`.
use mathlib.Core.List.{append_assoc, append-nil}
use tinymachine.Common.{◌≡◌, refl, sym, ◌∙◌, ap, Option, none, some, List, [], ◌∷◌, ◌++◌}
use tinymachine.Ir.Types.{
  IrConstant, IrExpr, IrExprs, no_exprs, expr_cons, IrWithItem, IrStmt, IrStmts, no_stmts,
  stmt_cons, IrExceptHandlers, no_handlers, handler_cons, IrProgram,
}
use tinymachine.Ir.Visits.{Visit}
use tinymachine.Ir.Walk.{
  visit_constant, walk_expr, walk_exprs, walk_option, walk_items, walk_stmt, walk_stmts,
  walk_handlers, walk_program,
}

-- a visitor with a `visit_expr` only
abbrev pub note_expr : Visit → List IrExpr → List IrExpr
note_expr (Visit.expr e) noted = noted ++ e ∷ []
note_expr v noted = noted

-- An expression before the expressions in it, at any depth and from left to right; the keyword arguments of a
-- call are left out.
mutual
  pub within : IrExpr → List IrExpr
  within (IrExpr.bool_op op values) = IrExpr.bool_op op values ∷ within_all values
  within (IrExpr.bin_op left op right) = IrExpr.bin_op left op right ∷ within left ++ within right
  within (IrExpr.unary_op op operand) = IrExpr.unary_op op operand ∷ within operand
  within (IrExpr.attribute value attr) = IrExpr.attribute value attr ∷ within value
  within (IrExpr.subscript value slice) =
      IrExpr.subscript value slice ∷ within value ++ within slice
  within (IrExpr.starred value) = IrExpr.starred value ∷ within value
  within (IrExpr.list elts) = IrExpr.list elts ∷ within_all elts
  within (IrExpr.tuple elts) = IrExpr.tuple elts ∷ within_all elts
  within (IrExpr.set elts) = IrExpr.set elts ∷ within_all elts
  within (IrExpr.dict keys values) = IrExpr.dict keys values ∷ within_all keys ++ within_all values
  within (IrExpr.call func args keywords) =
      IrExpr.call func args keywords ∷ within func ++ within_all args
  within (IrExpr.if_exp test body orelse) =
      IrExpr.if_exp test body orelse ∷ within test ++ (within body ++ within orelse)
  within (IrExpr.lambda args body) = IrExpr.lambda args body ∷ within body
  within (IrExpr.compare left ops comparators) =
      IrExpr.compare left ops comparators ∷ within left ++ within_all comparators
  within e = e ∷ []

  pub within_all : IrExprs → List IrExpr
  within_all no_exprs = []
  within_all (expr_cons e es) = within e ++ within_all es

within_option : Option IrExpr → List IrExpr
within_option none = []
within_option (some e) = within e

within_items : List IrWithItem → List IrExpr
within_items [] = []
within_items (item ∷ items) =
    within item.context_expr ++ (within_option item.optional_vars ++ within_items items)

-- the expressions of the statements of a body, at any depth and in the order of the text
mutual
  in_stmt : IrStmt → List IrExpr
  in_stmt (IrStmt.expr e) = within e
  in_stmt (IrStmt.assign targets value) = within_all targets ++ within value
  in_stmt (IrStmt.aug_assign target op value) = within target ++ within value
  in_stmt (IrStmt.function_def f body) = in_stmts body
  in_stmt (IrStmt.return value) = within_option value
  in_stmt (IrStmt.delete targets) = within_all targets
  in_stmt (IrStmt.for_loop target iter body) = within target ++ (within iter ++ in_stmts body)
  in_stmt (IrStmt.while_loop test body) = within test ++ in_stmts body
  in_stmt (IrStmt.if_else test body orelse) = within test ++ (in_stmts body ++ in_stmts orelse)
  in_stmt (IrStmt.with_items items body) = within_items items ++ in_stmts body
  in_stmt (IrStmt.try body handlers orelse finalbody) =
      in_stmts body ++ (in_handlers handlers ++ (in_stmts orelse ++ in_stmts finalbody))
  in_stmt (IrStmt.raise exc) = within_option exc
  in_stmt (IrStmt.class_def c body) = in_stmts body
  in_stmt (IrStmt.assert test msg) = within test ++ within_option msg
  in_stmt stmt = []

  pub in_stmts : IrStmts → List IrExpr
  in_stmts no_stmts = []
  in_stmts (stmt_cons stmt stmts) = in_stmt stmt ++ in_stmts stmts

  in_handlers : IrExceptHandlers → List IrExpr
  in_handlers no_handlers = []
  in_handlers (handler_cons type_name bound body handlers) =
      within_option type_name ++ (in_stmts body ++ in_handlers handlers)

-- joins what two parts of a walk noted
joined :
    (l ys zs : List IrExpr) {noted : List IrExpr}
    → noted ≡ (l ++ ys) ++ zs
    → noted ≡ l ++ (ys ++ zs)
joined l ys zs h = h ∙ append_assoc l ys zs

nothing_noted : (kept noted : List IrExpr) → noted ≡ kept → noted ≡ kept ++ []
nothing_noted kept noted h = h ∙ sym (append-nil kept)

enter : (e : IrExpr) (kept noted : List IrExpr) → noted ≡ kept → noted ++ e ∷ [] ≡ kept ++ e ∷ []
enter e kept noted h = ap (λ shown. shown ++ e ∷ []) h

visit_constant-note_expr :
    (c : IrConstant) (noted : List IrExpr) → visit_constant note_expr c noted ≡ noted
unfolding visit_constant
visit_constant-note_expr (IrConstant.str x) noted = refl
visit_constant-note_expr (IrConstant.int n) noted = refl
visit_constant-note_expr IrConstant.none_value noted = refl
visit_constant-note_expr (IrConstant.bool b) noted = refl
visit_constant-note_expr (IrConstant.float f) noted = refl
visit_constant-note_expr IrConstant.ellipsis noted = refl

mutual
  unfolding walk_expr walk_exprs within within_all

  walk_expr-within :
      (e : IrExpr) (kept noted : List IrExpr)
      → noted ≡ kept
      → walk_expr note_expr e noted ≡ kept ++ within e
  walk_expr-within (IrExpr.bool_op op values) kept noted h =
      joined kept (IrExpr.bool_op op values ∷ []) _
        (walk_exprs-within values _ _ (enter _ kept noted h))
  walk_expr-within (IrExpr.bin_op left op right) kept noted h =
      joined kept (IrExpr.bin_op left op right ∷ []) _ (
        joined _ (within left) _
          (walk_expr-within right _ _ (walk_expr-within left _ _ (enter _ kept noted h))))
  walk_expr-within (IrExpr.unary_op op operand) kept noted h =
      joined kept (IrExpr.unary_op op operand ∷ []) _
        (walk_expr-within operand _ _ (enter _ kept noted h))
  walk_expr-within (IrExpr.constant c) kept noted h =
      visit_constant-note_expr c _ ∙ enter _ kept noted h
  walk_expr-within (IrExpr.attribute value attr) kept noted h =
      joined kept (IrExpr.attribute value attr ∷ []) _
        (walk_expr-within value _ _ (enter _ kept noted h))
  walk_expr-within (IrExpr.subscript value slice) kept noted h =
      joined kept (IrExpr.subscript value slice ∷ []) _ (
        joined _ (within value) _
          (walk_expr-within slice _ _ (walk_expr-within value _ _ (enter _ kept noted h))))
  walk_expr-within (IrExpr.starred value) kept noted h =
      joined kept (IrExpr.starred value ∷ []) _ (walk_expr-within value _ _ (enter _ kept noted h))
  walk_expr-within (IrExpr.name id) kept noted h = enter _ kept noted h
  walk_expr-within (IrExpr.list elts) kept noted h =
      joined kept (IrExpr.list elts ∷ []) _ (walk_exprs-within elts _ _ (enter _ kept noted h))
  walk_expr-within (IrExpr.tuple elts) kept noted h =
      joined kept (IrExpr.tuple elts ∷ []) _ (walk_exprs-within elts _ _ (enter _ kept noted h))
  walk_expr-within (IrExpr.set elts) kept noted h =
      joined kept (IrExpr.set elts ∷ []) _ (walk_exprs-within elts _ _ (enter _ kept noted h))
  walk_expr-within (IrExpr.dict keys values) kept noted h =
      joined kept (IrExpr.dict keys values ∷ []) _ (
        joined _ (within_all keys) _
          (walk_exprs-within values _ _ (walk_exprs-within keys _ _ (enter _ kept noted h))))
  walk_expr-within (IrExpr.call func args keywords) kept noted h =
      joined kept (IrExpr.call func args keywords ∷ []) _ (
        joined _ (within func) _
          (walk_exprs-within args _ _ (walk_expr-within func _ _ (enter _ kept noted h))))
  walk_expr-within (IrExpr.if_exp test body orelse) kept noted h =
      joined kept (IrExpr.if_exp test body orelse ∷ []) _ (
        joined _ (within test) _ (
          joined _ (within body) _ (
            walk_expr-within orelse _ _
              (walk_expr-within body _ _ (walk_expr-within test _ _ (enter _ kept noted h))))))
  walk_expr-within (IrExpr.lambda args body) kept noted h =
      joined kept (IrExpr.lambda args body ∷ []) _
        (walk_expr-within body _ _ (enter _ kept noted h))
  walk_expr-within (IrExpr.compare left ops comparators) kept noted h =
      joined kept (IrExpr.compare left ops comparators ∷ []) _ (
        joined _ (within left) _
          (walk_exprs-within comparators _ _ (walk_expr-within left _ _ (enter _ kept noted h))))

  walk_exprs-within :
      (es : IrExprs) (kept noted : List IrExpr)
      → noted ≡ kept
      → walk_exprs note_expr es noted ≡ kept ++ within_all es
  walk_exprs-within no_exprs kept noted h = nothing_noted kept noted h
  walk_exprs-within (expr_cons e es) kept noted h =
      joined kept (within e) _ (walk_exprs-within es _ _ (walk_expr-within e kept noted h))

walk_option-within :
    (value : Option IrExpr) (kept noted : List IrExpr)
    → noted ≡ kept
    → walk_option note_expr value noted ≡ kept ++ within_option value
unfolding walk_option within_option
walk_option-within none kept noted h = nothing_noted kept noted h
walk_option-within (some e) kept noted h = walk_expr-within e kept noted h

walk_items-within :
    (items : List IrWithItem) (kept noted : List IrExpr)
    → noted ≡ kept
    → walk_items note_expr items noted ≡ kept ++ within_items items
unfolding walk_items within_items
walk_items-within [] kept noted h = nothing_noted kept noted h
walk_items-within (item ∷ items) kept noted h = joined kept (within item.context_expr) _ (
    joined _ (within_option item.optional_vars) _ (
      walk_items-within items _ _ (
        walk_option-within item.optional_vars _ _
          (walk_expr-within item.context_expr kept noted h))))

mutual
  unfolding walk_stmt walk_stmts walk_handlers in_stmt in_stmts in_handlers

  walk_stmt-in_stmt :
      (stmt : IrStmt) (kept noted : List IrExpr)
      → noted ≡ kept
      → walk_stmt note_expr stmt noted ≡ kept ++ in_stmt stmt
  walk_stmt-in_stmt (IrStmt.import m alias) kept noted h = nothing_noted kept noted h
  walk_stmt-in_stmt (IrStmt.import_from m symbol alias) kept noted h = nothing_noted kept noted h
  walk_stmt-in_stmt (IrStmt.expr e) kept noted h = walk_expr-within e _ _ h
  walk_stmt-in_stmt (IrStmt.assign targets value) kept noted h =
      joined kept (within_all targets) _
        (walk_expr-within value _ _ (walk_exprs-within targets _ _ h))
  walk_stmt-in_stmt (IrStmt.aug_assign target op value) kept noted h =
      joined kept (within target) _ (walk_expr-within value _ _ (walk_expr-within target _ _ h))
  walk_stmt-in_stmt (IrStmt.function_def f body) kept noted h = walk_stmts-in_stmts body _ _ h
  walk_stmt-in_stmt (IrStmt.return value) kept noted h = walk_option-within value _ _ h
  walk_stmt-in_stmt (IrStmt.delete targets) kept noted h = walk_exprs-within targets _ _ h
  walk_stmt-in_stmt (IrStmt.for_loop target iter body) kept noted h =
      joined kept (within target) _ (
        joined _ (within iter) _ (
          walk_stmts-in_stmts body _ _ (walk_expr-within iter _ _ (walk_expr-within target _ _ h))))
  walk_stmt-in_stmt (IrStmt.while_loop test body) kept noted h =
      joined kept (within test) _ (walk_stmts-in_stmts body _ _ (walk_expr-within test _ _ h))
  walk_stmt-in_stmt (IrStmt.if_else test body orelse) kept noted h = joined kept (within test) _ (
      joined _ (in_stmts body) _ (
        walk_stmts-in_stmts orelse _ _
          (walk_stmts-in_stmts body _ _ (walk_expr-within test _ _ h))))
  walk_stmt-in_stmt (IrStmt.with_items items body) kept noted h =
      joined kept (within_items items) _
        (walk_stmts-in_stmts body _ _ (walk_items-within items _ _ h))
  walk_stmt-in_stmt (IrStmt.try body handlers orelse finalbody) kept noted h =
      joined kept (in_stmts body) _ (
        joined _ (in_handlers handlers) _ (
          joined _ (in_stmts orelse) _ (
            walk_stmts-in_stmts finalbody _ _ (
              walk_stmts-in_stmts orelse _ _
                (walk_handlers-in_handlers handlers _ _ (walk_stmts-in_stmts body _ _ h))))))
  walk_stmt-in_stmt (IrStmt.raise exc) kept noted h = walk_option-within exc _ _ h
  walk_stmt-in_stmt (IrStmt.class_def c body) kept noted h = walk_stmts-in_stmts body _ _ h
  walk_stmt-in_stmt (IrStmt.assert test msg) kept noted h =
      joined kept (within test) _ (walk_option-within msg _ _ (walk_expr-within test _ _ h))
  walk_stmt-in_stmt IrStmt.break kept noted h = nothing_noted kept noted h
  walk_stmt-in_stmt IrStmt.continue kept noted h = nothing_noted kept noted h
  walk_stmt-in_stmt IrStmt.pass kept noted h = nothing_noted kept noted h

  walk_stmts-in_stmts :
      (stmts : IrStmts) (kept noted : List IrExpr)
      → noted ≡ kept
      → walk_stmts note_expr stmts noted ≡ kept ++ in_stmts stmts
  walk_stmts-in_stmts no_stmts kept noted h = nothing_noted kept noted h
  walk_stmts-in_stmts (stmt_cons stmt stmts) kept noted h =
      joined kept (in_stmt stmt) _
        (walk_stmts-in_stmts stmts _ _ (walk_stmt-in_stmt stmt kept noted h))

  walk_handlers-in_handlers :
      (handlers : IrExceptHandlers) (kept noted : List IrExpr)
      → noted ≡ kept
      → walk_handlers note_expr handlers noted ≡ kept ++ in_handlers handlers
  walk_handlers-in_handlers no_handlers kept noted h = nothing_noted kept noted h
  walk_handlers-in_handlers (handler_cons type_name _ body handlers) kept noted h =
      joined kept (within_option type_name) _ (
        joined _ (in_stmts body) _ (
          walk_handlers-in_handlers handlers _ _
            (walk_stmts-in_stmts body _ _ (walk_option-within type_name _ _ h))))

-- The walk shows `visit_expr` every expression of the program but those in the keyword arguments of calls, at any
-- depth and each of them once, in the order of the text: an expression comes before those in it, the keys of
-- a dict before its values, the test of a conditional expression first.
pub walk_program-in_stmts :
    (program : IrProgram) → walk_program note_expr program [] ≡ in_stmts program.body
unfolding walk_program
walk_program-in_stmts program = walk_stmts-in_stmts program.body [] [] refl
