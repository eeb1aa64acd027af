-- ===== src/Uops/Analyzer/Refusal.antt =====
-- What `UOpsAnalyzer::check` of tinymachine-fork/src/uops.rs refuses.
use tinymachine.Common.{
  ◌≡◌, refl, ap, ◌∙◌, inl, inr, Bool, Bool-cases, true, false, ◌||◌, Option, none, List, [], ◌∷◌,
  ◌++◌, Text, codes, Some, All, any, Result, ok, ok_err, arith, text_eq,
}
use tinymachine.Ir.Types.{IrExpr, IrExprs, IrProgram}
use tinymachine.Ir.Visits.{Visit}
use tinymachine.Ir.Walk.{walk_program}
use tinymachine.Ir.Walk.Replay.{record_visit, replay, walk_program-replay}
use tinymachine.Uops.Types.{UOp, UOpType, uop_type}
use tinymachine.Uops.Domains.{one_of}
use tinymachine.Uops.Policy
use tinymachine.Uops.Policy.{PolicyEngine}
use tinymachine.Uops.Policy.Permitted.{check-IsPermitted}
use tinymachine.Uops.Analyzer.{
  UOpsVisitor, call_uops, direct_uops, module_uops, track_import, pushed, visit, start, check_all,
  analyze, check,
}

is_exec : UOp → Bool
is_exec (UOp.process_exec program) = true
is_exec uop = false

abbrev has_exec : List UOp → Bool
has_exec uops = any is_exec uops

has_exec-append : (xs ys : List UOp) → has_exec (xs ++ ys) ≡ has_exec xs || has_exec ys
has_exec-append [] ys = refl
has_exec-append (x ∷ xs) ys = ground (arith, has_exec-append xs ys)

-- A way around the analysis: a call of `exec`, `eval`, `compile` or `__import__` by its name, or the import of a module
-- that loads code or reaches into the interpreter.
abbrev pub IsBypass : Visit → Type 0
IsBypass (Visit.call func args) =
    Some (λ t. func ≡ IrExpr.name t)
      (codes "exec" ∷ codes "eval" ∷ codes "compile" ∷ codes "__import__" ∷ [])
IsBypass (Visit.import m alias) =
    Some (λ t. m ≡ t) (codes "ctypes" ∷ codes "cffi" ∷ codes "importlib" ∷ codes "builtins" ∷ [])
IsBypass (Visit.import_from m symbol alias) =
    Some (λ t. m ≡ t) (codes "ctypes" ∷ codes "cffi" ∷ codes "importlib" ∷ codes "builtins" ∷ [])
IsBypass v = ⊥

kept : (xs ys : List UOp) → has_exec xs ≡ true → has_exec (xs ++ ys) ≡ true
kept xs ys h = ground (arith, has_exec-append xs ys)

added : (xs ys : List UOp) → has_exec ys ≡ true → has_exec (xs ++ ys) ≡ true
added xs ys h = ground (arith, has_exec-append xs ys)

visit_keeps :
    (v : Visit) (s : UOpsVisitor) → has_exec s.uops ≡ true → has_exec (visit v s).uops ≡ true
unfolding visit track_import pushed
visit_keeps (Visit.import m alias) s h = kept s.uops _ h
visit_keeps (Visit.import_from m symbol alias) s h = kept s.uops _ h
visit_keeps (Visit.call func args) s h = kept s.uops _ h
visit_keeps (Visit.attribute value attr) s h = kept s.uops _ h
visit_keeps (Visit.subscript value slice) s h = kept s.uops _ h
visit_keeps (Visit.str t) s h = kept s.uops _ h
visit_keeps (Visit.stmt x) s h = h
visit_keeps (Visit.expr_stmt x) s h = h
visit_keeps (Visit.assign targets x) s h = h
visit_keeps (Visit.function_def x) s h = h
visit_keeps (Visit.class_def x) s h = h
visit_keeps (Visit.return x) s h = h
visit_keeps (Visit.raise x) s h = h
visit_keeps (Visit.delete targets) s h = h
visit_keeps (Visit.for_loop target x) s h = h
visit_keeps (Visit.while_loop x) s h = h
visit_keeps (Visit.assert x msg) s h = h
visit_keeps Visit.break s h = h
visit_keeps Visit.continue s h = h
visit_keeps Visit.pass s h = h
visit_keeps (Visit.expr x) s h = h
visit_keeps (Visit.constant x) s h = h
visit_keeps (Visit.int x) s h = h
visit_keeps (Visit.name x) s h = h
visit_keeps (Visit.bin_op x op y) s h = h
visit_keeps (Visit.unary_op op x) s h = h

import_seen :
    (m : Text) (alias : Option Text) (s : UOpsVisitor)
    → Some (λ t. m ≡ t) (codes "ctypes" ∷ codes "cffi" ∷ codes "importlib" ∷ codes "builtins" ∷ [])
    → has_exec (track_import m alias s).uops ≡ true
unfolding track_import module_uops one_of text_eq is_exec
import_seen m alias s (inl e) = rw e (added s.uops _ refl)
import_seen m alias s (inr (inl e)) = rw e (added s.uops _ refl)
import_seen m alias s (inr (inr (inl e))) = rw e (added s.uops _ refl)
import_seen m alias s (inr (inr (inr (inl e)))) = rw e (added s.uops _ refl)
import_seen m alias s (inr (inr (inr (inr h)))) = absurd h

direct_seen :
    (func : IrExpr) (args : IrExprs)
    → IsBypass (Visit.call func args)
    → has_exec (direct_uops func args) ≡ true
unfolding direct_uops one_of text_eq is_exec
direct_seen func args (inl e) = rw e refl
direct_seen func args (inr (inl e)) = rw e refl
direct_seen func args (inr (inr (inl e))) = rw e refl
direct_seen func args (inr (inr (inr (inl e)))) = rw e refl
direct_seen func args (inr (inr (inr (inr h)))) = absurd h

last_seen : (xs ys zs : List UOp) → has_exec zs ≡ true → has_exec (xs ++ (ys ++ zs)) ≡ true
last_seen xs ys zs h = ground (arith, has_exec-append xs (ys ++ zs), has_exec-append ys zs)

visit_notes : (v : Visit) (s : UOpsVisitor) → IsBypass v → has_exec (visit v s).uops ≡ true
unfolding visit pushed call_uops
visit_notes (Visit.import m alias) s h = import_seen m alias s h
visit_notes (Visit.import_from m symbol alias) s h = import_seen m none s h
visit_notes (Visit.call func args) s h =
    last_seen s.uops _ (direct_uops func args) (direct_seen func args h)
visit_notes (Visit.attribute value attr) s h = absurd h
visit_notes (Visit.subscript value slice) s h = absurd h
visit_notes (Visit.str t) s h = absurd h
visit_notes (Visit.stmt x) s h = absurd h
visit_notes (Visit.expr_stmt x) s h = absurd h
visit_notes (Visit.assign targets x) s h = absurd h
visit_notes (Visit.function_def x) s h = absurd h
visit_notes (Visit.class_def x) s h = absurd h
visit_notes (Visit.return x) s h = absurd h
visit_notes (Visit.raise x) s h = absurd h
visit_notes (Visit.delete targets) s h = absurd h
visit_notes (Visit.for_loop target x) s h = absurd h
visit_notes (Visit.while_loop x) s h = absurd h
visit_notes (Visit.assert x msg) s h = absurd h
visit_notes Visit.break s h = absurd h
visit_notes Visit.continue s h = absurd h
visit_notes Visit.pass s h = absurd h
visit_notes (Visit.expr x) s h = absurd h
visit_notes (Visit.constant x) s h = absurd h
visit_notes (Visit.int x) s h = absurd h
visit_notes (Visit.name x) s h = absurd h
visit_notes (Visit.bin_op x op y) s h = absurd h
visit_notes (Visit.unary_op op x) s h = absurd h

replay_keeps :
    (visits : List Visit) (s : UOpsVisitor)
    → has_exec s.uops ≡ true
    → has_exec (replay visit visits s).uops ≡ true
unfolding replay
replay_keeps [] s h = h
replay_keeps (v ∷ visits) s h = replay_keeps visits (visit v s) (visit_keeps v s h)

replay_clean :
    (visits : List Visit) (s : UOpsVisitor)
    → has_exec (replay visit visits s).uops ≡ false
    → All (λ v. IsBypass v → ⊥) visits
unfolding replay
replay_clean [] s h = tt
replay_clean (v ∷ visits) s h = (
  (λ bypass. absurd (ground (arith, h, replay_keeps visits (visit v s) (visit_notes v s bypass)))),
  replay_clean visits (visit v s) h,
)

module _ (policy : PolicyEngine)
    (no_exec : Some (λ t. UOpType.process_exec ≡ t) policy.allowed_uops → ⊥) where
  passed_clean : (uop : UOp) → Policy.check policy uop ≡ true → is_exec uop ≡ false
  unfolding is_exec uop_type
  passed_clean (UOp.process_exec program) h =
      absurd (no_exec ((check-IsPermitted policy (UOp.process_exec program) tt).0 h).0)
  passed_clean (UOp.mmap x) h = refl
  passed_clean UOp.cpu_state_restore h = refl
  passed_clean UOp.entropy_reseed h = refl
  passed_clean (UOp.dns_resolve x) h = refl
  passed_clean (UOp.tcp_connect x) h = refl
  passed_clean (UOp.tls_handshake x) h = refl
  passed_clean (UOp.file_read x) h = refl
  passed_clean (UOp.file_write x) h = refl
  passed_clean (UOp.gpu_alloc x) h = refl

  check_all_clean :
      (uops : List UOp) (done : Result UOp (List UOp)) (found : List UOp)
      → check_all policy uops done ≡ ok found
      → has_exec uops ≡ false
  unfolding check_all
  check_all_clean [] done found passed = refl
  check_all_clean (uop ∷ uops) done found passed = elim (Bool-cases (Policy.check policy uop)) [
    | inl passes ↦
        let rest = check_all_clean uops done found (rw (check_all, passes) at passed) in
        rw (passed_clean uop passes) rest
    | inr fails ↦ absurd (ok_err (rw (check_all, fails) at passed))
  ]

-- Under a policy that does not allow processes, code that passes the check has no bypass at any place that the walk
-- visits: no call of `exec`, `eval`, `compile` or `__import__` by name, and no import of `ctypes`, `cffi`,
-- `importlib` or `builtins`.
pub check_clean :
    {E : Type 0} (parse : Text → Result E IrProgram) (code : Text) (program : IrProgram)
    (policy : PolicyEngine) (found : List UOp)
    → parse code ≡ ok program
    → (Some (λ t. UOpType.process_exec ≡ t) policy.allowed_uops → ⊥)
    → check parse code policy ≡ ok found
    → All (λ v. IsBypass v → ⊥) (walk_program record_visit program [])
unfolding check analyze
check_clean parse code program policy found parsed no_exec passed =
    let walked : has_exec (walk_program visit program start).uops ≡ false =
      check_all_clean policy no_exec _ _ found (rw (check, analyze, parsed) at passed) in
    replay_clean (walk_program record_visit program []) start
      (ap (λ (s : UOpsVisitor). has_exec s.uops) (walk_program-replay visit program start) ∙ walked)
