-- ===== src/Ir/Build.antt =====
-- The helpers of tinymachine-ir/src/types.rs that build and read common expressions.
use tinymachine.Common.{◌≡◌, refl, Option, none, some, List, [], ◌∷◌, ◌++◌, ◌∙◌, sym, ap, Text}
use mathlib.Core.List.{append_assoc, append-nil}
use tinymachine.Ir.Types.{ℤ, IrConstant, IrExpr, IrExprs, no_keywords, name, attribute, constant}

unfoldable pub call : Text → IrExprs → IrExpr
call f args = IrExpr.call (name f) args no_keywords

unfoldable pub method_call : Text → Text → IrExprs → IrExpr
method_call object method args = IrExpr.call (attribute (name object) method) args no_keywords

-- `for part in &parts[1..] { expr = IrExpr::Attribute { value: Box::new(expr), attr: part } }`
attributes : IrExpr → List Text → IrExpr
attributes e [] = e
attributes e (part ∷ parts) = attributes (attribute e part) parts

unfoldable pub chain_call : List Text → IrExprs → IrExpr
unfolding attributes
chain_call [] args = name []
chain_call (part ∷ parts) args = IrExpr.call (attributes (name part) parts) args no_keywords

unfoldable pub as_str : IrExpr → Option Text
as_str (constant (IrConstant.str s)) = some s
as_str e = none

unfoldable pub as_int : IrExpr → Option ℤ
as_int (constant (IrConstant.int n)) = some n
as_int e = none

abbrev push : Option (List Text) → Text → Option (List Text)
push none attr = none
push (some chain) attr = some (chain ++ attr ∷ [])

unfoldable pub resolve_attr_chain : IrExpr → Option (List Text)
resolve_attr_chain (name n) = some (n ∷ [])
resolve_attr_chain (attribute value attr) = push (resolve_attr_chain value) attr
resolve_attr_chain e = none

-- the function of a call
abbrev pub callee : IrExpr → Option IrExpr
callee (IrExpr.call func args _) = some func
callee e = none

resolve-attributes :
    (e : IrExpr) (chain parts : List Text)
    → resolve_attr_chain e ≡ some chain
    → resolve_attr_chain (attributes e parts) ≡ some (chain ++ parts)
unfolding attributes resolve_attr_chain
resolve-attributes e chain [] h = h ∙ ap some (sym (append-nil chain))
resolve-attributes e chain (part ∷ parts) h =
    resolve-attributes (attribute e part) (chain ++ part ∷ []) parts (ap (λ r. push r part) h)
    ∙ ap some (append_assoc chain (part ∷ []) parts)

-- The callee of a chain call resolves to the parts that the call was built from.
resolve_attr_chain-chain_call :
    (part : Text) (parts : List Text) (args : IrExprs)
    → (func : IrExpr) × (callee (chain_call (part ∷ parts) args) ≡ some func)
      × (resolve_attr_chain func ≡ some (part ∷ parts))
unfolding chain_call resolve_attr_chain
resolve_attr_chain-chain_call part parts args =
    (attributes (name part) parts, refl, resolve-attributes (name part) (part ∷ []) parts refl)
