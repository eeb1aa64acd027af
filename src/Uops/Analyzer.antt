-- ===== src/Uops/Analyzer.antt =====
-- `UOpsVisitor` and `UOpsAnalyzer` of tinymachine-fork/src/uops.rs, on the default walk of the program
-- representation. The parser is a third party's and a parameter. Each part of a method that pushes
-- operations is the list of those that it pushes.
pub mod Refusal
use tinymachine.Common.{
  ◌==◌, Bool, true, false, ◌||◌, ◌&&◌, if◌then◌else◌, Option, none, some, List, [], ◌∷◌, ◌++◌, Text,
  codes, text_eq, length, Result, ok, err, leb,
}
use tinymachine.Common.Maps.{Map, lookup, insert}
use tinymachine.Ir.Types.{IrExpr, IrExprs, no_exprs, expr_cons, IrProgram}
use tinymachine.Ir.Build.{resolve_attr_chain}
use tinymachine.Ir.Visits.{Visit}
use tinymachine.Ir.Walk.{walk_program}
use tinymachine.Uops.Types.{UOp, SocketAddr, v4}
use tinymachine.Uops.Domains.{
  one_of, join, contains_text, starts_with_text, extract_domain, first_str,
  extract_domain_from_args, is_base64_decode_call,
}
use tinymachine.Uops.Policy
use tinymachine.Uops.Policy.{PolicyEngine}

pub record UOpsVisitor : Type 0 where
  pub uops : List UOp
  pub module_aliases : Map Text
  pub seen_import_os : Bool
  pub seen_import_socket : Bool
  pub seen_import_ctypes : Bool
  pub seen_import_subprocess : Bool

abbrev pub unspec_socket : SocketAddr
unspec_socket = record { ip = v4 (record { a = 0; b = 0; c = 0; d = 0 }); port = 0 }

abbrev or_any : Option Text → Text
or_any none = codes "any"
or_any (some s) = s

unfoldable pub resolve_aliases : Map Text → List Text → List Text
resolve_aliases aliases [] = []
resolve_aliases aliases (part ∷ parts) = elim (lookup part aliases) [
  | none ↦ part ∷ parts
  | some real ↦ real ∷ parts
]

last_is : Text → List Text → Bool
last_is t [] = false
last_is t (part ∷ []) = text_eq part t
last_is t (part ∷ next ∷ parts) = last_is t (next ∷ parts)

-- what `visit_call` pushes for a call whose function is a chain of names
unfoldable pub chain_uops : List Text → IrExprs → List UOp
unfolding last_is
chain_uops [] args = []
chain_uops (first ∷ rest) args =
    let name = join (first ∷ rest) in
    let domain = extract_domain_from_args args in
    (if one_of name (
        codes "os.system"
        ∷ codes "os.popen"
        ∷ codes "subprocess.run"
        ∷ codes "subprocess.Popen"
        ∷ codes "subprocess.call"
        ∷ codes "subprocess.check_call"
        ∷ codes "subprocess.check_output"
        ∷ [])
      then UOp.process_exec name ∷ []
      else [])
    ++ ((if one_of name (codes "ssl.wrap_socket" ∷ codes "ssl.create_default_context" ∷ [])
            || last_is (codes "wrap_socket") (first ∷ rest)
          then UOp.tls_handshake (or_any (first_str args)) ∷ []
          else [])
        ++ ((if one_of name (
                codes "requests.get"
                ∷ codes "requests.post"
                ∷ codes "requests.put"
                ∷ codes "requests.delete"
                ∷ codes "httpx.get"
                ∷ codes "httpx.post"
                ∷ [])
              then UOp.dns_resolve domain
                ∷ UOp.tcp_connect unspec_socket
                ∷ (if starts_with_text domain (codes "https") || text_eq name (codes "httpx")
                    then UOp.tls_handshake domain ∷ []
                    else [])
              else [])
            ++ ((if one_of name (codes "socket.socket" ∷ codes "socket.create_connection" ∷ [])
                  then UOp.tcp_connect unspec_socket ∷ []
                  else [])
                ++ ((if one_of name (
                        codes "app.run"
                        ∷ codes "app.listen"
                        ∷ codes "Application.run"
                        ∷ codes "serve_forever"
                        ∷ [])
                      then UOp.tcp_connect unspec_socket ∷ []
                      else [])
                    ++ (if one_of first (codes "torch" ∷ codes "cuda" ∷ codes "tinygrad" ∷ [])
                        then UOp.gpu_alloc 0 ∷ []
                        else [])))))

first_is_base64 : IrExprs → Bool
first_is_base64 no_exprs = false
first_is_base64 (expr_cons arg args) = is_base64_decode_call arg

is_name : Text → IrExpr → Bool
is_name t (IrExpr.name n) = text_eq n t
is_name t e = false

some_name : Text → IrExprs → Bool
unfolding is_name
some_name t no_exprs = false
some_name t (expr_cons arg args) = is_name t arg || some_name t args

-- what it pushes for a call whose function is a plain name
unfoldable pub direct_uops : IrExpr → IrExprs → List UOp
unfolding first_is_base64 some_name
direct_uops (IrExpr.name name) args =
    if one_of name (codes "exec" ∷ codes "eval" ∷ codes "compile" ∷ [])
    then UOp.process_exec (codes "bypass:" ++ name)
      ∷ (if first_is_base64 args
          then UOp.process_exec (codes "bypass:encoded_payload") ∷ []
          else [])
    else if text_eq name (codes "__import__")
    then UOp.process_exec (codes "bypass:__import__") ∷ []
    else if text_eq name (codes "getattr")
    then (if some_name (codes "__builtins__") args
        then UOp.process_exec (codes "bypass:builtins_dynamic") ∷ []
        else [])
    else if text_eq name (codes "open")
    then UOp.file_read (codes "unknown") ∷ UOp.file_write (codes "unknown") ∷ []
    else []
direct_uops func args = []

unfoldable pub call_uops : Map Text → IrExpr → IrExprs → List UOp
unfolding chain_uops direct_uops
call_uops aliases func args =
    (elim (resolve_attr_chain func) [
      | none ↦ []
      | some chain ↦ chain_uops (resolve_aliases aliases chain) args
    ])
    ++ direct_uops func args

-- what `visit_attribute` pushes
unfoldable pub attribute_uops : Map Text → IrExpr → Text → List UOp
attribute_uops aliases (IrExpr.name name) attr =
    let is_os =
      one_of name (codes "os" ∷ codes "operating_system" ∷ [])
      || elim (lookup name aliases) [ none ↦ false | some v ↦ text_eq v (codes "os") ] in
    if text_eq attr (codes "environ") && is_os
    then UOp.file_read (codes "/proc/self/environ") ∷ []
    else []
attribute_uops aliases value attr = []

dict_of_builtins : List Text → Bool
dict_of_builtins (first ∷ second ∷ rest) =
    text_eq first (codes "__builtins__") && text_eq second (codes "__dict__")
dict_of_builtins chain = false

-- what `visit_subscript` pushes
unfoldable pub subscript_uops : IrExpr → List UOp
unfolding dict_of_builtins
subscript_uops value = elim (resolve_attr_chain value) [
  | none ↦ []
  | some chain ↦
      if dict_of_builtins chain then UOp.process_exec (codes "bypass:builtins_dict") ∷ [] else []
]

-- what `visit_str` pushes
unfoldable pub str_uops : Text → List UOp
str_uops s =
    if contains_text s (codes "https://")
      || contains_text s (codes "ssl")
      || contains_text s (codes "tls")
    then UOp.tls_handshake (or_any (extract_domain s)) ∷ []
    else []

-- what the `match` of `track_import` pushes
unfoldable pub module_uops : Text → List UOp
module_uops name =
    if one_of name (codes "ctypes" ∷ codes "cffi" ∷ [])
    then UOp.process_exec (codes "bypass:ctypes_cffi") ∷ []
    else if text_eq name (codes "importlib")
    then UOp.process_exec (codes "bypass:importlib") ∷ []
    else if text_eq name (codes "ssl")
    then UOp.tls_handshake (codes "any") ∷ []
    else if one_of name (
        codes "torch"
        ∷ codes "torchvision"
        ∷ codes "torchaudio"
        ∷ codes "cuda"
        ∷ codes "tinygrad"
        ∷ codes "extra"
        ∷ [])
    then UOp.gpu_alloc 0 ∷ []
    else []

abbrev noted_alias : Option Text → Text → Map Text → Map Text
noted_alias none name aliases = aliases
noted_alias (some a) name aliases = insert a name aliases

unfoldable pub track_import : Text → Option Text → UOpsVisitor → UOpsVisitor
unfolding module_uops
track_import name alias s = record s {
  uops =
      s.uops
      ++ (module_uops name
          ++ (if text_eq name (codes "builtins")
              then UOp.process_exec (codes "bypass:builtins_access") ∷ []
              else []));
  module_aliases = noted_alias alias name s.module_aliases;
  seen_import_os = text_eq name (codes "os") || s.seen_import_os;
  seen_import_socket = text_eq name (codes "socket") || s.seen_import_socket;
  seen_import_ctypes = one_of name (codes "ctypes" ∷ codes "cffi" ∷ []) || s.seen_import_ctypes;
  seen_import_subprocess = text_eq name (codes "subprocess") || s.seen_import_subprocess;
}

pushed : List UOp → UOpsVisitor → UOpsVisitor
pushed more s = record s { uops = s.uops ++ more }

-- The methods that the visitor defines; the others do nothing.
unfoldable pub visit : Visit → UOpsVisitor → UOpsVisitor
unfolding track_import call_uops attribute_uops subscript_uops str_uops pushed
visit (Visit.import name alias) s = track_import name alias s
visit (Visit.import_from name symbol alias) s = track_import name none s
visit (Visit.call func args) s = pushed (call_uops s.module_aliases func args) s
visit (Visit.attribute value attr) s = pushed (attribute_uops s.module_aliases value attr) s
visit (Visit.subscript value slice) s = pushed (subscript_uops value) s
visit (Visit.str t) s = pushed (str_uops t) s
visit v s = s

abbrev pub start : UOpsVisitor
start = record {
  uops = [];
  module_aliases = [];
  seen_import_os = false;
  seen_import_socket = false;
  seen_import_ctypes = false;
  seen_import_subprocess = false;
}

-- `for uop in &uops { if !policy.check(uop) { return Err(…); } }`
unfoldable pub check_all : PolicyEngine → List UOp → Result UOp (List UOp) → Result UOp (List UOp)
check_all policy [] done = done
check_all policy (uop ∷ uops) done =
    let rest = check_all policy uops done in if Policy.check policy uop then rest else err uop

module _ {E : Type 0} (parse : Text → Result E IrProgram) where
  unfoldable pub analyze : Text → List UOp
  unfolding visit
  analyze code = elim (parse code) [
    | err e ↦ []
    | ok program ↦ (walk_program visit program start).uops
  ]

  unfoldable pub check : Text → PolicyEngine → Result UOp (List UOp)
  unfolding analyze check_all
  check code policy = check_all policy (analyze code) (ok (analyze code))
