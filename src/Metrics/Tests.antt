-- ===== src/Metrics/Tests.antt =====
-- internal/metrics/metrics.go: the theorems at concrete durations.
use mpudp.Prelude.{ℕ, ◌-◌, ◌≤◌, ◌<◌, ◌≡◌, refl, ◌⊎◌, List, [], ◌∷◌, total, arith}
use mpudp.Prelude.Int.{ℤ, pos, negsuc}
use mpudp.Metrics.{no_latency, bucket_count, find_bucket, observe}
use mpudp.Metrics.Buckets.{upper_bound, find_bucket-IsBucket, observe_all, observe_all-counts}

abbrev durations : List ℤ
durations = pos 5 ∷ negsuc 3 ∷ pos 4100 ∷ pos 999999999999 ∷ []

three_microseconds : find_bucket (bucket_count - 1) 0 1000 3000 ≡ 2
unfolding find_bucket
three_microseconds = refl

observed_max : (observe_all no_latency durations).max ≡ 999999999999
unfolding observe_all observe find_bucket
observed_max = refl

find_bucket-IsBucket_example :
    let b = find_bucket (bucket_count - 1) 0 1000 3000 in
    (b < bucket_count)
    × ((b ≡ 23) ⊎ (3000 ≤ upper_bound b))
    × ((b ≡ 0) ⊎ (upper_bound (b - 1) < 3000))
find_bucket-IsBucket_example = find_bucket-IsBucket 3000

observe_all-counts_example :
    let l = observe_all no_latency durations in (l.count ≡ 4) × (total (λ (x : ℕ). x) l.buckets ≡ 4)
observe_all-counts_example = observe_all-counts durations (omega arith)
