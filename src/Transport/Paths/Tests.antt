-- ===== src/Transport/Paths/Tests.antt =====
-- The theorems on the path manager at concrete data. A path object is a number here.
use kwik.Prelude.{ℕ, List, [], ◌∷◌, Option, none, some, arith, if◌then◌else◌, ◌==◌}
use kwik.Protocol.Errors.{Error, other}
use kwik.Transport.Paths.{PathManager, new_path_manager}
use kwik.Transport.Paths.Steps
use kwik.Transport.Paths.Steps.{
  Step, opens, accepts, makes_primary, removes, IsConsistent, Added,
  run-new_path_manager-IsConsistent, open_path-run,
}

abbrev steps : List (Step ℕ)
steps =
    opens none (some 70)
    ∷ accepts (some 71)
    ∷ makes_primary 1
    ∷ opens (some (other 3)) none
    ∷ removes 0 1
    ∷ accepts none
    ∷ []

run-new_path_manager-IsConsistent_example : IsConsistent (Steps.run new_path_manager steps)
run-new_path_manager-IsConsistent_example = run-new_path_manager-IsConsistent steps (omega arith)

abbrev two_paths : PathManager ℕ
two_paths = record { paths = (1, 70) ∷ (2, 71) ∷ []; next_path_id = 2; primary_path_id = 2 }

-- Path 2 does not close.
abbrev second_fails : ℕ → ℕ → Option Error
second_fails id path = if id == 2 then some (other 3) else none
