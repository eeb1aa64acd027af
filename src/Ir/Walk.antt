-- ===== src/Ir/Walk.antt =====
-- The default walk of `IrVisitor` in tinymachine-ir/src/walk.rs. A visitor is its state and what each
-- `visit_*` method does to it.
mod Related
pub mod Replay
pub mod Expressions
pub mod Coverage
use tinymachine.Common.{Option, none, some, List, [], ◌∷◌}
use tinymachine.Ir.Types.{
  IrConstant, IrOperator, IrExpr, IrExprs, no_exprs, expr_cons, IrWithItem, IrStmt, IrStmts,
  no_stmts, stmt_cons, IrExceptHandlers, no_handlers, handler_cons, IrProgram,
}
use tinymachine.Ir.Visits.{Visit}

module _ {S : Type 0} (visit : Visit → S → S) where
  visit_constant : IrConstant → S → S
  visit_constant (IrConstant.str t) s =
      visit (Visit.str t) (visit (Visit.constant (IrConstant.str t)) s)
  visit_constant (IrConstant.int n) s =
      visit (Visit.int n) (visit (Visit.constant (IrConstant.int n)) s)
  visit_constant c s = visit (Visit.constant c) s

  unfoldable mutual
    unfolding visit_constant

    pub walk_expr : IrExpr → S → S
    walk_expr (IrExpr.bool_op op values) s =
        walk_exprs values (visit (Visit.expr (IrExpr.bool_op op values)) s)
    walk_expr (IrExpr.bin_op left op right) s = walk_expr right (
        walk_expr left (
          visit (Visit.bin_op left IrOperator.add right)
            (visit (Visit.expr (IrExpr.bin_op left op right)) s)))
    walk_expr (IrExpr.unary_op op operand) s =
        walk_expr operand
          (visit (Visit.unary_op op operand) (visit (Visit.expr (IrExpr.unary_op op operand)) s))
    walk_expr (IrExpr.constant c) s = visit_constant c (visit (Visit.expr (IrExpr.constant c)) s)
    walk_expr (IrExpr.attribute value attr) s =
        walk_expr value
          (visit (Visit.attribute value attr) (visit (Visit.expr (IrExpr.attribute value attr)) s))
    walk_expr (IrExpr.subscript value slice) s = walk_expr slice (
        walk_expr value (
          visit (Visit.subscript value slice)
            (visit (Visit.expr (IrExpr.subscript value slice)) s)))
    walk_expr (IrExpr.starred value) s =
        walk_expr value (visit (Visit.expr (IrExpr.starred value)) s)
    walk_expr (IrExpr.name id) s = visit (Visit.name id) (visit (Visit.expr (IrExpr.name id)) s)
    walk_expr (IrExpr.list elts) s = walk_exprs elts (visit (Visit.expr (IrExpr.list elts)) s)
    walk_expr (IrExpr.tuple elts) s = walk_exprs elts (visit (Visit.expr (IrExpr.tuple elts)) s)
    walk_expr (IrExpr.set elts) s = walk_exprs elts (visit (Visit.expr (IrExpr.set elts)) s)
    walk_expr (IrExpr.dict keys values) s =
        walk_exprs values (walk_exprs keys (visit (Visit.expr (IrExpr.dict keys values)) s))
    walk_expr (IrExpr.call func args keywords) s = walk_exprs args (
        walk_expr func
          (visit (Visit.call func args) (visit (Visit.expr (IrExpr.call func args keywords)) s)))
    walk_expr (IrExpr.if_exp test body orelse) s =
        walk_expr orelse
          (walk_expr body (walk_expr test (visit (Visit.expr (IrExpr.if_exp test body orelse)) s)))
    walk_expr (IrExpr.lambda args body) s =
        walk_expr body (visit (Visit.expr (IrExpr.lambda args body)) s)
    walk_expr (IrExpr.compare left ops comparators) s =
        walk_exprs comparators
          (walk_expr left (visit (Visit.expr (IrExpr.compare left ops comparators)) s))

    pub walk_exprs : IrExprs → S → S
    walk_exprs no_exprs s = s
    walk_exprs (expr_cons e es) s = walk_exprs es (walk_expr e s)

  unfoldable pub walk_option : Option IrExpr → S → S
  walk_option none s = s
  walk_option (some e) s = walk_expr e s

  unfoldable pub walk_items : List IrWithItem → S → S
  unfolding walk_option
  walk_items [] s = s
  walk_items (item ∷ items) s =
      walk_items items (walk_option item.optional_vars (walk_expr item.context_expr s))

  unfoldable mutual
    unfolding walk_expr walk_exprs walk_option walk_items

    pub walk_stmt : IrStmt → S → S
    walk_stmt (IrStmt.import m alias) s =
        visit (Visit.import m alias) (visit (Visit.stmt (IrStmt.import m alias)) s)
    walk_stmt (IrStmt.import_from m symbol alias) s =
        visit (Visit.import_from m symbol alias)
          (visit (Visit.stmt (IrStmt.import_from m symbol alias)) s)
    walk_stmt (IrStmt.expr e) s =
        walk_expr e (visit (Visit.expr_stmt e) (visit (Visit.stmt (IrStmt.expr e)) s))
    walk_stmt (IrStmt.assign targets value) s = walk_expr value (
        walk_exprs targets
          (visit (Visit.assign targets value) (visit (Visit.stmt (IrStmt.assign targets value)) s)))
    walk_stmt (IrStmt.aug_assign target op value) s =
        walk_expr value
          (walk_expr target (visit (Visit.stmt (IrStmt.aug_assign target op value)) s))
    walk_stmt (IrStmt.function_def f body) s =
        walk_stmts body
          (visit (Visit.function_def f) (visit (Visit.stmt (IrStmt.function_def f body)) s))
    walk_stmt (IrStmt.return value) s =
        walk_option value (visit (Visit.return value) (visit (Visit.stmt (IrStmt.return value)) s))
    walk_stmt (IrStmt.delete targets) s =
        walk_exprs targets
          (visit (Visit.delete targets) (visit (Visit.stmt (IrStmt.delete targets)) s))
    walk_stmt (IrStmt.for_loop target iter body) s = walk_stmts body (
        walk_expr iter (
          walk_expr target (
            visit (Visit.for_loop target iter)
              (visit (Visit.stmt (IrStmt.for_loop target iter body)) s))))
    walk_stmt (IrStmt.while_loop test body) s = walk_stmts body (
        walk_expr test
          (visit (Visit.while_loop test) (visit (Visit.stmt (IrStmt.while_loop test body)) s)))
    walk_stmt (IrStmt.if_else test body orelse) s =
        walk_stmts orelse (
          walk_stmts body (walk_expr test (visit (Visit.stmt (IrStmt.if_else test body orelse)) s)))
    walk_stmt (IrStmt.with_items items body) s =
        walk_stmts body (walk_items items (visit (Visit.stmt (IrStmt.with_items items body)) s))
    walk_stmt (IrStmt.try body handlers orelse finalbody) s = walk_stmts finalbody (
        walk_stmts orelse (
          walk_handlers handlers
            (walk_stmts body (visit (Visit.stmt (IrStmt.try body handlers orelse finalbody)) s))))
    walk_stmt (IrStmt.raise exc) s =
        walk_option exc (visit (Visit.raise exc) (visit (Visit.stmt (IrStmt.raise exc)) s))
    walk_stmt (IrStmt.class_def c body) s =
        walk_stmts body (visit (Visit.class_def c) (visit (Visit.stmt (IrStmt.class_def c body)) s))
    walk_stmt (IrStmt.assert test msg) s = walk_option msg (
        walk_expr test
          (visit (Visit.assert test msg) (visit (Visit.stmt (IrStmt.assert test msg)) s)))
    walk_stmt IrStmt.break s = visit Visit.break (visit (Visit.stmt IrStmt.break) s)
    walk_stmt IrStmt.continue s = visit Visit.continue (visit (Visit.stmt IrStmt.continue) s)
    walk_stmt IrStmt.pass s = visit Visit.pass (visit (Visit.stmt IrStmt.pass) s)

    pub walk_stmts : IrStmts → S → S
    walk_stmts no_stmts s = s
    walk_stmts (stmt_cons stmt stmts) s = walk_stmts stmts (walk_stmt stmt s)

    pub walk_handlers : IrExceptHandlers → S → S
    walk_handlers no_handlers s = s
    walk_handlers (handler_cons type_name bound body handlers) s =
        walk_handlers handlers (walk_stmts body (walk_option type_name s))

  unfoldable pub walk_program : IrProgram → S → S
  unfolding walk_stmts
  walk_program program s = walk_stmts program.body s
