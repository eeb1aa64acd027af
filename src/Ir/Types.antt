-- ===== src/Ir/Types.antt =====
-- tinymachine-ir/src/types.rs. An `f64` is its bit pattern, and a `Vec` of nodes inside
-- its own type is a list type of the block.
use tinymachine.Common.{ℕ, Bool, Option, List, Text}

-- `negsuc n` is -(n + 1).
pub data ℤ : Type 0 where
  pos negsuc : ℕ → ℤ

pub data IrConstant : Type 0 where
  none_value : IrConstant
  bool : Bool → IrConstant
  str : Text → IrConstant
  int : ℤ → IrConstant
  float : ℕ → IrConstant
  ellipsis : IrConstant

pub data IrOperator : Type 0 where
  add sub mult div floor_div mod_op pow l_shift r_shift bit_or bit_xor bit_and mat_mult : IrOperator

pub data IrBoolOp : Type 0 where
  and or : IrBoolOp

pub data IrUnaryOp : Type 0 where
  not u_sub u_add invert : IrUnaryOp

pub data IrCmpOp : Type 0 where
  eq not_eq lt lt_e gt gt_e is is_not in_op not_in : IrCmpOp

mutual
  pub data IrExpr : Type 0 where
    bool_op : IrBoolOp → IrExprs → IrExpr
    bin_op : IrExpr → IrOperator → IrExpr → IrExpr
    unary_op : IrUnaryOp → IrExpr → IrExpr
    constant : IrConstant → IrExpr
    attribute : (value : IrExpr) (attr : Text) → IrExpr
    subscript : (value slice : IrExpr) → IrExpr
    starred : IrExpr → IrExpr
    name : Text → IrExpr
    list tuple set : IrExprs → IrExpr
    dict : (keys values : IrExprs) → IrExpr
    call : (func : IrExpr) (args : IrExprs) (keywords : IrKeywords) → IrExpr
    if_exp : (test body orelse : IrExpr) → IrExpr
    lambda : (args : List Text) (body : IrExpr) → IrExpr
    compare : (left : IrExpr) (ops : List IrCmpOp) (comparators : IrExprs) → IrExpr

  pub data IrExprs : Type 0 where
    no_exprs : IrExprs
    expr_cons : IrExpr → IrExprs → IrExprs

  -- `arg: None` is the unpacking of `**kwargs`
  pub data IrKeywords : Type 0 where
    no_keywords : IrKeywords
    keyword_cons : (arg : Option Text) (value : IrExpr) → IrKeywords → IrKeywords

pub record IrWithItem : Type 0 where
  pub context_expr : IrExpr
  pub optional_vars : Option IrExpr

mutual
  pub data IrStmt : Type 0 where
    import : (module_name : Text) (alias : Option Text) → IrStmt
    import_from : (module_name symbol : Text) (alias : Option Text) → IrStmt
    expr : IrExpr → IrStmt
    assign : (targets : IrExprs) (value : IrExpr) → IrStmt
    aug_assign : (target : IrExpr) (op : IrOperator) (value : IrExpr) → IrStmt
    function_def : (name : Text) (body : IrStmts) → IrStmt
    return : (value : Option IrExpr) → IrStmt
    delete : (targets : IrExprs) → IrStmt
    for_loop : (target iter : IrExpr) (body : IrStmts) → IrStmt
    while_loop : (test : IrExpr) (body : IrStmts) → IrStmt
    if_else : (test : IrExpr) (body orelse : IrStmts) → IrStmt
    with_items : (items : List IrWithItem) (body : IrStmts) → IrStmt
    try : (body : IrStmts) (handlers : IrExceptHandlers) (orelse finalbody : IrStmts) → IrStmt
    raise : (exc : Option IrExpr) → IrStmt
    class_def : (name : Text) (body : IrStmts) → IrStmt
    assert : (test : IrExpr) (msg : Option IrExpr) → IrStmt
    break continue pass : IrStmt

  pub data IrStmts : Type 0 where
    no_stmts : IrStmts
    stmt_cons : IrStmt → IrStmts → IrStmts

  pub data IrExceptHandlers : Type 0 where
    no_handlers : IrExceptHandlers
    handler_cons :
        (type_name : Option IrExpr) (bound : Option Text) (body : IrStmts)
        → IrExceptHandlers
        → IrExceptHandlers

pub record IrProgram : Type 0 where
  pub body : IrStmts

abbrev pub empty : IrProgram
empty = record { body = no_stmts }
