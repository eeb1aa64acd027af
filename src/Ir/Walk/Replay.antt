-- ===== src/Ir/Walk/Replay.antt =====
-- The default walk of tinymachine-ir/src/walk.rs as the list of its visits.
use tinymachine.Common.{◌≡◌, refl, ◌∙◌, ap, List, [], ◌∷◌, ◌++◌}
use tinymachine.Ir.Types.{IrProgram}
use tinymachine.Ir.Visits.{Visit}
use tinymachine.Ir.Walk.{walk_program}
use tinymachine.Ir.Walk.Related.{walk_stmts-related}

-- a visitor that notes what it is given
abbrev pub record_visit : Visit → List Visit → List Visit
record_visit v visits = visits ++ v ∷ []

-- a visitor fed with a list of visits
unfoldable pub replay : {S : Type 0} → (Visit → S → S) → List Visit → S → S
replay visit [] s = s
replay visit (v ∷ visits) s = replay visit visits (visit v s)

module _ {S : Type 0} (visit : Visit → S → S) where
  replay-record_visit :
      (v : Visit) (visits : List Visit) (s : S)
      → replay visit (record_visit v visits) s ≡ visit v (replay visit visits s)
  unfolding replay
  replay-record_visit v [] s = refl
  replay-record_visit v (first ∷ visits) s = replay-record_visit v visits (visit first s)

  -- What a visitor ends with is what it makes of the visits alone: the walk of any visitor is its run
  -- over the list of visits that one and the same recording visitor notes for the program.
  pub walk_program-replay :
      (program : IrProgram) (s : S)
      → replay visit (walk_program record_visit program []) s ≡ walk_program visit program s
  unfolding walk_program replay
  walk_program-replay program s =
      walk_stmts-related record_visit visit (λ visits t. replay visit visits s ≡ t)
        (λ v visits t _ h. replay-record_visit v visits s ∙ ap (visit v) h)
        (λ stmt visits t h.
          replay-record_visit (Visit.stmt stmt) visits s ∙ ap (visit (Visit.stmt stmt)) h)
        program.body refl
