-- ===== src/Base/Stages.antt =====
-- Code that goes through stages and leaves at the first one that fails (`goto finished`), and how such
-- code is followed from stage to stage.
use mathlib.Core.Path.{◌≡◌, refl}
use mathlib.Core.Bool.{Bool, true, false}
use mathlib.Core.List.{List, [], ◌∷◌}
use repair_box_psx_hdd_setup.Base.Io.{Io}
use repair_box_psx_hdd_setup.Base.Tests.{if◌then◌else◌}

-- Whether the next stage is entered, and the state; `W` is the state of the devices.
abbrev pub Step : Type 0 → Type 0 → Type 0
Step W S = S → Io W (Bool × S)

unfoldable pub run_stages : {W S : Type 0} → List (Step W S) → Step W S
run_stages [] s w = ((true, s), w)
run_stages (stage ∷ stages) s w =
    let ((go, s'), w') = stage s w in
    let rest = run_stages stages s' w' in if go then rest else ((false, s'), w')

-- A stage goes on with `Q` or stops with `F`.
pub data EndsBy {S : Type 0} (F Q : S → Type 0) (out : Bool × S) : Type 0 where
  goes : out.0 ≡ true → Q out.1 → EndsBy F Q out
  fails : out.0 ≡ false → F out.1 → EndsBy F Q out

-- From a state with `Q`, the stage goes on with one that has `Q'`, or stops with one that has `F`.
abbrev pub Leads : {W S : Type 0} → (S → Type 0) → (S → Type 0) → Step W S → (S → Type 0) → Type 0
Leads {W} {S} F Q stage Q' = (s : S) (w : W) → Q s → EndsBy F Q' (stage s w).0

run_rest :
    {W S : Type 0} (F Q Q' : S → Type 0) (stages : List (Step W S)) (out : (Bool × S) × W)
    → EndsBy F Q out.0
    → Leads F Q (run_stages stages) Q'
    → EndsBy F Q' (if out.0.0 then run_stages stages out.0.1 out.1 else ((false, out.0.1), out.1)).0
run_rest F Q Q' stages ((true, s), w) (goes e q) go = go s w q
run_rest F Q Q' stages ((false, s), w) (goes e q) go = cc
run_rest F Q Q' stages ((true, s), w) (fails e q) go = cc
run_rest F Q Q' stages ((false, s), w) (fails e q) go = fails refl q

pub run_stages-nil : {W S : Type 0} (F Q : S → Type 0) → Leads {W = W} F Q (run_stages []) Q
unfolding run_stages
run_stages-nil F Q s w q = goes refl q

-- One stage before the others.
pub run_stages-cons :
    {W S : Type 0} (F Q Q' Q'' : S → Type 0) (stage : Step W S) (stages : List (Step W S))
    → Leads F Q stage Q'
    → Leads F Q' (run_stages stages) Q''
    → Leads F Q (run_stages (stage ∷ stages)) Q''
unfolding run_stages
run_stages-cons F Q Q' Q'' stage stages first rest s w q =
    run_rest F Q' Q'' stages (stage s w) (first s w q) rest
