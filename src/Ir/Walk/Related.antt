-- ===== src/Ir/Walk/Related.antt =====
-- Two visitors that keep a relation between their states on every visit keep it over the default
-- walk of tinymachine-ir/src/walk.rs.
use tinymachine.Common.{◌≡◌, refl, Option, none, some, List, [], ◌∷◌}
use tinymachine.Ir.Types.{
  IrConstant, IrExpr, IrExprs, no_exprs, expr_cons, IrWithItem, IrStmt, IrStmts, no_stmts,
  stmt_cons, IrExceptHandlers, no_handlers, handler_cons,
}
use tinymachine.Ir.Visits.{Visit}
use tinymachine.Ir.Walk.{
  visit_constant, walk_expr, walk_exprs, walk_option, walk_items, walk_stmt, walk_stmts,
  walk_handlers,
}

-- the statement that a visit of `visit_stmt` shows
abbrev pub stmt_of : Visit → Option IrStmt
stmt_of (Visit.stmt stmt) = some stmt
stmt_of v = none

module _ {S T : Type 0} (visit : Visit → S → S) (other : Visit → T → T) (R : S → T → Type 0)
    (related : (v : Visit) (s : S) (t : T)
      → stmt_of v ≡ none
      → R s t
      → R (visit v s) (other v t)) where
  step : (v : Visit) {s : S} {t : T} → stmt_of v ≡ none → R s t → R (visit v s) (other v t)
  step v {s} {t} not_stmt h = related v s t not_stmt h

  visit_constant-related :
      (c : IrConstant) {s : S} {t : T}
      → R s t
      → R (visit_constant visit c s) (visit_constant other c t)
  unfolding visit_constant
  visit_constant-related (IrConstant.str x) h = step _ refl (step _ refl h)
  visit_constant-related (IrConstant.int n) h = step _ refl (step _ refl h)
  visit_constant-related IrConstant.none_value h = step _ refl h
  visit_constant-related (IrConstant.bool b) h = step _ refl h
  visit_constant-related (IrConstant.float f) h = step _ refl h
  visit_constant-related IrConstant.ellipsis h = step _ refl h

  mutual
    unfolding walk_expr walk_exprs

    pub walk_expr-related :
        (e : IrExpr) {s : S} {t : T} → R s t → R (walk_expr visit e s) (walk_expr other e t)
    walk_expr-related (IrExpr.bool_op op values) h = walk_exprs-related values (step _ refl h)
    walk_expr-related (IrExpr.bin_op left op right) h =
        walk_expr-related right (walk_expr-related left (step _ refl (step _ refl h)))
    walk_expr-related (IrExpr.unary_op op operand) h =
        walk_expr-related operand (step _ refl (step _ refl h))
    walk_expr-related (IrExpr.constant c) h = visit_constant-related c (step _ refl h)
    walk_expr-related (IrExpr.attribute value attr) h =
        walk_expr-related value (step _ refl (step _ refl h))
    walk_expr-related (IrExpr.subscript value slice) h =
        walk_expr-related slice (walk_expr-related value (step _ refl (step _ refl h)))
    walk_expr-related (IrExpr.starred value) h = walk_expr-related value (step _ refl h)
    walk_expr-related (IrExpr.name id) h = step _ refl (step _ refl h)
    walk_expr-related (IrExpr.list elts) h = walk_exprs-related elts (step _ refl h)
    walk_expr-related (IrExpr.tuple elts) h = walk_exprs-related elts (step _ refl h)
    walk_expr-related (IrExpr.set elts) h = walk_exprs-related elts (step _ refl h)
    walk_expr-related (IrExpr.dict keys values) h =
        walk_exprs-related values (walk_exprs-related keys (step _ refl h))
    walk_expr-related (IrExpr.call func args _) h =
        walk_exprs-related args (walk_expr-related func (step _ refl (step _ refl h)))
    walk_expr-related (IrExpr.if_exp test body orelse) h =
        walk_expr-related orelse (walk_expr-related body (walk_expr-related test (step _ refl h)))
    walk_expr-related (IrExpr.lambda args body) h = walk_expr-related body (step _ refl h)
    walk_expr-related (IrExpr.compare left ops comparators) h =
        walk_exprs-related comparators (walk_expr-related left (step _ refl h))

    pub walk_exprs-related :
        (es : IrExprs) {s : S} {t : T} → R s t → R (walk_exprs visit es s) (walk_exprs other es t)
    walk_exprs-related no_exprs h = h
    walk_exprs-related (expr_cons e es) h = walk_exprs-related es (walk_expr-related e h)

  pub walk_option-related :
      (value : Option IrExpr) {s : S} {t : T}
      → R s t
      → R (walk_option visit value s) (walk_option other value t)
  unfolding walk_option
  walk_option-related none h = h
  walk_option-related (some e) h = walk_expr-related e h

  pub walk_items-related :
      (items : List IrWithItem) {s : S} {t : T}
      → R s t
      → R (walk_items visit items s) (walk_items other items t)
  unfolding walk_items
  walk_items-related [] h = h
  walk_items-related (item ∷ items) h =
      walk_items-related items
        (walk_option-related item.optional_vars (walk_expr-related item.context_expr h))

  module _
      (related_stmt : (stmt : IrStmt) (s : S) (t : T)
        → R s t
        → R (visit (Visit.stmt stmt) s) (other (Visit.stmt stmt) t)) where
    enter :
        (stmt : IrStmt) {s : S} {t : T}
        → R s t
        → R (visit (Visit.stmt stmt) s) (other (Visit.stmt stmt) t)
    enter stmt {s} {t} h = related_stmt stmt s t h

    mutual
      unfolding walk_stmt walk_stmts walk_handlers

      pub walk_stmt-related :
          (stmt : IrStmt) {s : S} {t : T}
          → R s t
          → R (walk_stmt visit stmt s) (walk_stmt other stmt t)
      walk_stmt-related (IrStmt.import m alias) h = step _ refl (enter _ h)
      walk_stmt-related (IrStmt.import_from m symbol alias) h = step _ refl (enter _ h)
      walk_stmt-related (IrStmt.expr e) h = walk_expr-related e (step _ refl (enter _ h))
      walk_stmt-related (IrStmt.assign targets value) h =
          walk_expr-related value (walk_exprs-related targets (step _ refl (enter _ h)))
      walk_stmt-related (IrStmt.aug_assign target op value) h =
          walk_expr-related value (walk_expr-related target (enter _ h))
      walk_stmt-related (IrStmt.function_def f body) h =
          walk_stmts-related body (step _ refl (enter _ h))
      walk_stmt-related (IrStmt.return value) h =
          walk_option-related value (step _ refl (enter _ h))
      walk_stmt-related (IrStmt.delete targets) h =
          walk_exprs-related targets (step _ refl (enter _ h))
      walk_stmt-related (IrStmt.for_loop target iter body) h =
          walk_stmts-related body
            (walk_expr-related iter (walk_expr-related target (step _ refl (enter _ h))))
      walk_stmt-related (IrStmt.while_loop test body) h =
          walk_stmts-related body (walk_expr-related test (step _ refl (enter _ h)))
      walk_stmt-related (IrStmt.if_else test body orelse) h =
          walk_stmts-related orelse (walk_stmts-related body (walk_expr-related test (enter _ h)))
      walk_stmt-related (IrStmt.with_items items body) h =
          walk_stmts-related body (walk_items-related items (enter _ h))
      walk_stmt-related (IrStmt.try body handlers orelse finalbody) h =
          walk_stmts-related finalbody (
            walk_stmts-related orelse
              (walk_handlers-related handlers (walk_stmts-related body (enter _ h))))
      walk_stmt-related (IrStmt.raise exc) h = walk_option-related exc (step _ refl (enter _ h))
      walk_stmt-related (IrStmt.class_def c body) h =
          walk_stmts-related body (step _ refl (enter _ h))
      walk_stmt-related (IrStmt.assert test msg) h =
          walk_option-related msg (walk_expr-related test (step _ refl (enter _ h)))
      walk_stmt-related IrStmt.break h = step _ refl (enter _ h)
      walk_stmt-related IrStmt.continue h = step _ refl (enter _ h)
      walk_stmt-related IrStmt.pass h = step _ refl (enter _ h)

      pub walk_stmts-related :
          (stmts : IrStmts) {s : S} {t : T}
          → R s t
          → R (walk_stmts visit stmts s) (walk_stmts other stmts t)
      walk_stmts-related no_stmts h = h
      walk_stmts-related (stmt_cons stmt stmts) h =
          walk_stmts-related stmts (walk_stmt-related stmt h)

      walk_handlers-related :
          (handlers : IrExceptHandlers) {s : S} {t : T}
          → R s t
          → R (walk_handlers visit handlers s) (walk_handlers other handlers t)
      walk_handlers-related no_handlers h = h
      walk_handlers-related (handler_cons type_name _ body handlers) h =
          walk_handlers-related handlers (walk_stmts-related body (walk_option-related type_name h))
