-- ===== src/Ir/Walk/Coverage.antt =====
-- Which statements the default walk of tinymachine-ir/src/walk.rs shows to `visit_stmt`, and which
-- operator it shows to `visit_binop`.
use mathlib.Core.List.{append_assoc, append-nil}
use tinymachine.Common.{◌≡◌, refl, sym, ◌∙◌, ap, Option, none, some, List, [], ◌∷◌, ◌++◌}
use tinymachine.Ir.Types.{
  IrExpr, IrExprs, IrWithItem, IrStmt, IrStmts, no_stmts, stmt_cons, IrExceptHandlers, no_handlers,
  handler_cons, IrProgram,
}
use tinymachine.Ir.Visits.{Visit}
use tinymachine.Ir.Walk.{
  walk_expr, walk_exprs, walk_option, walk_items, walk_stmt, walk_stmts, walk_handlers,
  walk_program,
}
use tinymachine.Ir.Walk.Related.{
  stmt_of, walk_expr-related, walk_exprs-related, walk_option-related, walk_items-related,
}

abbrev note : Option IrStmt → List IrStmt → List IrStmt
note none noted = noted
note (some stmt) noted = noted ++ stmt ∷ []

-- a visitor with a `visit_stmt` only
abbrev pub note_stmt : Visit → List IrStmt → List IrStmt
note_stmt v noted = note (stmt_of v) noted

-- every statement of a body before those nested in it, at any depth and in the order of the text
unfoldable mutual
  pub preorder_stmt : IrStmt → List IrStmt
  preorder_stmt (IrStmt.function_def f body) = IrStmt.function_def f body ∷ preorder body
  preorder_stmt (IrStmt.for_loop target iter body) =
      IrStmt.for_loop target iter body ∷ preorder body
  preorder_stmt (IrStmt.while_loop test body) = IrStmt.while_loop test body ∷ preorder body
  preorder_stmt (IrStmt.if_else test body orelse) =
      IrStmt.if_else test body orelse ∷ preorder body ++ preorder orelse
  preorder_stmt (IrStmt.with_items items body) = IrStmt.with_items items body ∷ preorder body
  preorder_stmt (IrStmt.try body handlers orelse finalbody) =
      IrStmt.try body handlers orelse finalbody ∷ preorder body
      ++ (preorder_handlers handlers ++ (preorder orelse ++ preorder finalbody))
  preorder_stmt (IrStmt.class_def c body) = IrStmt.class_def c body ∷ preorder body
  preorder_stmt stmt = stmt ∷ []

  pub preorder : IrStmts → List IrStmt
  preorder no_stmts = []
  preorder (stmt_cons stmt stmts) = preorder_stmt stmt ++ preorder stmts

  pub preorder_handlers : IrExceptHandlers → List IrStmt
  preorder_handlers no_handlers = []
  preorder_handlers (handler_cons type_name bound body handlers) =
      preorder body ++ preorder_handlers handlers

-- joins what two parts of a walk noted
joined :
    (l ys zs : List IrStmt) {noted : List IrStmt}
    → noted ≡ (l ++ ys) ++ zs
    → noted ≡ l ++ (ys ++ zs)
joined l ys zs h = h ∙ append_assoc l ys zs

module _ (kept : List IrStmt) where
  noted_none :
      (v : Visit) (noted other : List IrStmt)
      → stmt_of v ≡ none
      → noted ≡ kept
      → note_stmt v noted ≡ kept
  noted_none v noted _ none_shown h = ap (λ shown. note shown noted) none_shown ∙ h

  of_expr : (e : IrExpr) {noted : List IrStmt} → noted ≡ kept → walk_expr note_stmt e noted ≡ kept
  of_expr e {noted} h =
      walk_expr-related note_stmt note_stmt (λ l _. l ≡ kept) noted_none e {s = noted} {t = noted} h

  of_exprs :
      (es : IrExprs) {noted : List IrStmt} → noted ≡ kept → walk_exprs note_stmt es noted ≡ kept
  of_exprs es {noted} h =
      walk_exprs-related note_stmt note_stmt (λ l _. l ≡ kept) noted_none es {s = noted} {t = noted}
        h

  of_option :
      (value : Option IrExpr) {noted : List IrStmt}
      → noted ≡ kept
      → walk_option note_stmt value noted ≡ kept
  of_option value {noted} h =
      walk_option-related note_stmt note_stmt (λ l _. l ≡ kept) noted_none value {s = noted}
        {t = noted} h

  of_items :
      (items : List IrWithItem) {noted : List IrStmt}
      → noted ≡ kept
      → walk_items note_stmt items noted ≡ kept
  of_items items {noted} h =
      walk_items-related note_stmt note_stmt (λ l _. l ≡ kept) noted_none items {s = noted}
        {t = noted} h

enter :
    (stmt : IrStmt) (kept noted : List IrStmt)
    → noted ≡ kept
    → noted ++ stmt ∷ [] ≡ kept ++ stmt ∷ []
enter stmt kept noted h = ap (λ shown. shown ++ stmt ∷ []) h

mutual
  unfolding walk_stmt walk_stmts walk_handlers preorder_stmt preorder preorder_handlers

  walk_stmt-preorder :
      (stmt : IrStmt) (kept noted : List IrStmt)
      → noted ≡ kept
      → walk_stmt note_stmt stmt noted ≡ kept ++ preorder_stmt stmt
  walk_stmt-preorder (IrStmt.import m alias) kept noted h = enter _ kept noted h
  walk_stmt-preorder (IrStmt.import_from m symbol alias) kept noted h = enter _ kept noted h
  walk_stmt-preorder (IrStmt.expr e) kept noted h = of_expr _ e (enter _ kept noted h)
  walk_stmt-preorder (IrStmt.assign targets value) kept noted h =
      of_expr _ value (of_exprs _ targets (enter _ kept noted h))
  walk_stmt-preorder (IrStmt.aug_assign target op value) kept noted h =
      of_expr _ value (of_expr _ target (enter _ kept noted h))
  walk_stmt-preorder (IrStmt.function_def f body) kept noted h =
      joined kept (IrStmt.function_def f body ∷ []) (preorder body)
        (walk_stmts-preorder body _ _ (enter _ kept noted h))
  walk_stmt-preorder (IrStmt.return value) kept noted h = of_option _ value (enter _ kept noted h)
  walk_stmt-preorder (IrStmt.delete targets) kept noted h =
      of_exprs _ targets (enter _ kept noted h)
  walk_stmt-preorder (IrStmt.for_loop target iter body) kept noted h =
      joined kept (IrStmt.for_loop target iter body ∷ []) (preorder body)
        (walk_stmts-preorder body _ _ (of_expr _ iter (of_expr _ target (enter _ kept noted h))))
  walk_stmt-preorder (IrStmt.while_loop test body) kept noted h =
      joined kept (IrStmt.while_loop test body ∷ []) (preorder body)
        (walk_stmts-preorder body _ _ (of_expr _ test (enter _ kept noted h)))
  walk_stmt-preorder (IrStmt.if_else test body orelse) kept noted h =
      joined kept (IrStmt.if_else test body orelse ∷ []) _ (
        joined _ (preorder body) (preorder orelse) (
          walk_stmts-preorder orelse _ _
            (walk_stmts-preorder body _ _ (of_expr _ test (enter _ kept noted h)))))
  walk_stmt-preorder (IrStmt.with_items items body) kept noted h =
      joined kept (IrStmt.with_items items body ∷ []) (preorder body)
        (walk_stmts-preorder body _ _ (of_items _ items (enter _ kept noted h)))
  walk_stmt-preorder (IrStmt.try body handlers orelse finalbody) kept noted h =
      joined kept (IrStmt.try body handlers orelse finalbody ∷ []) _ (
        joined _ (preorder body) _ (
          joined _ (preorder_handlers handlers) _ (
            joined _ (preorder orelse) (preorder finalbody) (
              walk_stmts-preorder finalbody _ _ (
                walk_stmts-preorder orelse _ _ (
                  walk_handlers-preorder handlers _ _
                    (walk_stmts-preorder body _ _ (enter _ kept noted h))))))))
  walk_stmt-preorder (IrStmt.raise exc) kept noted h = of_option _ exc (enter _ kept noted h)
  walk_stmt-preorder (IrStmt.class_def c body) kept noted h =
      joined kept (IrStmt.class_def c body ∷ []) (preorder body)
        (walk_stmts-preorder body _ _ (enter _ kept noted h))
  walk_stmt-preorder (IrStmt.assert test msg) kept noted h =
      of_option _ msg (of_expr _ test (enter _ kept noted h))
  walk_stmt-preorder IrStmt.break kept noted h = enter _ kept noted h
  walk_stmt-preorder IrStmt.continue kept noted h = enter _ kept noted h
  walk_stmt-preorder IrStmt.pass kept noted h = enter _ kept noted h

  walk_stmts-preorder :
      (stmts : IrStmts) (kept noted : List IrStmt)
      → noted ≡ kept
      → walk_stmts note_stmt stmts noted ≡ kept ++ preorder stmts
  walk_stmts-preorder no_stmts kept noted h = h ∙ sym (append-nil kept)
  walk_stmts-preorder (stmt_cons stmt stmts) kept noted h =
      joined kept (preorder_stmt stmt) (preorder stmts)
        (walk_stmts-preorder stmts _ _ (walk_stmt-preorder stmt kept noted h))

  walk_handlers-preorder :
      (handlers : IrExceptHandlers) (kept noted : List IrStmt)
      → noted ≡ kept
      → walk_handlers note_stmt handlers noted ≡ kept ++ preorder_handlers handlers
  walk_handlers-preorder no_handlers kept noted h = h ∙ sym (append-nil kept)
  walk_handlers-preorder (handler_cons type_name _ body handlers) kept noted h =
      joined kept (preorder body) (preorder_handlers handlers) (
        walk_handlers-preorder handlers _ _
          (walk_stmts-preorder body _ _ (of_option _ type_name h)))

-- The walk shows `visit_stmt` every statement of the program, at any depth and each of them once, in
-- the order of the text: a compound statement comes before those of its bodies.
pub walk_program-preorder :
    (program : IrProgram) → walk_program note_stmt program [] ≡ preorder program.body
unfolding walk_program
walk_program-preorder program = walk_stmts-preorder program.body [] [] refl
