-- ===== src/Ir/Tests.antt =====
-- The theorems about the program representation at work on a short program.
use tinymachine.Common.{◌≡◌, none, some, [], ◌∷◌, codes}
use tinymachine.Ir.Types.{
  IrExpr, IrCmpOp, expr_cons, no_exprs, keyword_cons, no_keywords, IrStmt, no_stmts, stmt_cons,
  no_handlers, handler_cons, IrProgram,
}
use tinymachine.Ir.Walk.{walk_program}
use tinymachine.Ir.Walk.Coverage.{note_stmt, preorder, walk_program-preorder}
use tinymachine.Ir.Walk.Expressions.{note_expr, in_stmts, walk_program-in_stmts}

-- `import os`, then a `try` with a loop in its body and a handler that passes
abbrev program : IrProgram
program = record {
  body = stmt_cons (IrStmt.import (codes "os") none) (
      stmt_cons
        (IrStmt.try
          (stmt_cons (IrStmt.while_loop (IrExpr.name (codes "x")) (stmt_cons IrStmt.break no_stmts))
            no_stmts)
          (handler_cons none (some (codes "e")) (stmt_cons IrStmt.pass no_stmts) no_handlers)
          no_stmts no_stmts)
        no_stmts);
}

walk_program-preorder_example : walk_program note_stmt program [] ≡ preorder program.body
walk_program-preorder_example = walk_program-preorder program

-- `print(x < y, end=z)`, whose keyword argument is not walked
abbrev printing : IrProgram
printing = record {
  body =
      stmt_cons
        (IrStmt.expr (
          IrExpr.call (IrExpr.name (codes "print"))
            (expr_cons
              (IrExpr.compare (IrExpr.name (codes "x")) (IrCmpOp.lt ∷ [])
                (expr_cons (IrExpr.name (codes "y")) no_exprs))
              no_exprs)
            (keyword_cons (some (codes "end")) (IrExpr.name (codes "z")) no_keywords)))
        no_stmts;
}

walk_program-in_stmts_example : walk_program note_expr printing [] ≡ in_stmts printing.body
walk_program-in_stmts_example = walk_program-in_stmts printing
