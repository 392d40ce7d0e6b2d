-- ===== src/Tests/Store.antt =====
-- Handle stores.
use runtime_system.Base.{ℕ, ◌≡◌, [], ◌∷◌, none, arith}
use runtime_system.Handles.{Store, get, remove}
use runtime_system.Handles.Ids.{adds, removes, Inv, run, count_adds, get-removed}
use runtime_system.Handles.Refinement.{spec_of, spec_run, run-spec_run}

abbrev two_files : Store ℕ
two_files = record { store = (1, 10) ∷ (2, 20) ∷ []; next_id = 3 }

two_files-Inv : Inv two_files
two_files-Inv = record {
  positive = omega arith;
  fits = omega arith;
  rising = (omega arith, (omega arith, tt));
  below = (omega arith, (omega arith, tt));
}

run-spec_run_example :
    spec_of (run two_files (adds 30 ∷ removes 1 ∷ adds 40 ∷ []))
    ≡ spec_run (spec_of two_files) (adds 30 ∷ removes 1 ∷ adds 40 ∷ [])
unfolding count_adds
run-spec_run_example =
    run-spec_run two_files (adds 30 ∷ removes 1 ∷ adds 40 ∷ []) two_files-Inv (omega arith)

get-removed_example : get 1 (run (remove 1 two_files) (adds 30 ∷ adds 40 ∷ [])) ≡ none
unfolding count_adds
get-removed_example =
    get-removed 1 two_files (adds 30 ∷ adds 40 ∷ []) two_files-Inv (omega arith) (omega arith)
