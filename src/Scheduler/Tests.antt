-- ===== src/Scheduler/Tests.antt =====
-- internal/scheduler: the theorems at concrete plans.
use mpudp.Prelude.{ℕ, ◌%◌, ◌+◌, ◌≤◌, ◌<◌, ◌≡◌, refl, List, [], ◌∷◌, ok, err, some, get_elem?, arith}
use mpudp.Prelude.Int.{pos, negsuc}
use mpudp.Scheduler.{assign, fill, count_error, path_count, no_paths, max_shards, max_paths}
use mpudp.Scheduler.Balance.{IsPlan, assign-IsPlan, assign-rotates}

abbrev seven_over_three : List ℕ
seven_over_three = 2 ∷ 0 ∷ 1 ∷ 2 ∷ 0 ∷ 1 ∷ 2 ∷ []

planned : assign 5 (pos 7) (pos 3) ≡ ok seven_over_three
unfolding assign fill
planned = refl

no_path : assign 5 (pos 7) (negsuc 0) ≡ err (count_error path_count (negsuc 0) no_paths)
unfolding assign
no_path = refl

assign-IsPlan_example :
    (0 < 7) × (7 ≤ max_shards) × (0 < 3) × (3 ≤ max_paths) × IsPlan 7 3 seven_over_three
assign-IsPlan_example = assign-IsPlan 5 (pos 7) (pos 3) seven_over_three planned

assign-rotates_example :
    (plan : List ℕ) × (assign 5 (pos 7) (pos 3) ≡ ok plan) × (get_elem? plan 4 ≡ some ((5 + 4) % 3))
assign-rotates_example =
    assign-rotates 5 7 3 4 (omega arith) (omega arith) (omega arith) (omega arith) (omega arith)
