-- ===== src/Ir/Visits.antt =====
-- The `visit_*` methods of `IrVisitor` in tinymachine-ir/src/walk.rs, one constructor for each, with
-- the arguments that the walk hands over.
use tinymachine.Common.{Option, Text}
use tinymachine.Ir.Types.{ℤ, IrConstant, IrOperator, IrUnaryOp, IrExpr, IrExprs, IrStmt}

pub data Visit : Type 0 where
  stmt : IrStmt → Visit
  import : (module_name : Text) (alias : Option Text) → Visit
  import_from : (module_name symbol : Text) (alias : Option Text) → Visit
  expr_stmt : IrExpr → Visit
  assign : (targets : IrExprs) (value : IrExpr) → Visit
  function_def class_def : (name : Text) → Visit
  return raise : Option IrExpr → Visit
  delete : (targets : IrExprs) → Visit
  for_loop : (target iter : IrExpr) → Visit
  while_loop : (test : IrExpr) → Visit
  assert : (test : IrExpr) (msg : Option IrExpr) → Visit
  break continue pass : Visit
  expr : IrExpr → Visit
  constant : IrConstant → Visit
  str : Text → Visit
  int : ℤ → Visit
  call : (func : IrExpr) (args : IrExprs) → Visit
  attribute : (value : IrExpr) (attr : Text) → Visit
  subscript : (value slice : IrExpr) → Visit
  name : Text → Visit
  bin_op : (left : IrExpr) (op : IrOperator) (right : IrExpr) → Visit
  unary_op : (op : IrUnaryOp) (operand : IrExpr) → Visit
