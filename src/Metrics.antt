-- ===== src/Metrics.antt =====
-- internal/metrics/metrics.go: the latency histogram. The counters are atomic, so calls of `Observe`
-- are taken one after the other; the compare-and-swap loop then runs at most once.
pub mod Buckets
mod Tests
use mpudp.Prelude.{
  ℕ, zero, suc, ◌+◌, ◌-◌, ◌*◌, ◌%◌, ◌^◌, List, [], ◌∷◌, Bool, true, false, ltb, if◌then◌else◌,
  get_or, set, replicate,
}
use mpudp.Prelude.Int.{ℤ, pos_part}

abbrev pub bucket_count : ℕ
bucket_count = 24

pub record Latency : Type 0 where
  pub count : ℕ  -- uint64
  pub total : ℕ  -- uint64
  pub max : ℕ  -- uint64
  pub buckets : List ℕ  -- [24]uint64

abbrev pub no_latency : Latency
no_latency = record { count = 0; total = 0; max = 0; buckets = replicate bucket_count 0 }

abbrev pub add64 : ℕ → ℕ → ℕ
add64 a b = (a + b) % 2 ^ 64

-- `for bucket < len(l.buckets)-1 && ns > upper`, with `rounds` buckets before the last.
unfoldable pub find_bucket : ℕ → ℕ → ℕ → ℕ → ℕ
find_bucket zero bucket upper ns = bucket
find_bucket (suc rounds) bucket upper ns = elim (ltb upper ns) [
  | true ↦ find_bucket rounds (bucket + 1) (upper * 2 % 2 ^ 64) ns
  | false ↦ bucket
]

unfoldable pub observe : Latency → ℤ → Latency
unfolding find_bucket
observe l duration =
    let ns = pos_part duration in
    let bucket = find_bucket (bucket_count - 1) 0 1000 ns in
    record {
      count = add64 l.count 1;
      total = add64 l.total ns;
      max = if ltb l.max ns then ns else l.max;
      buckets = set l.buckets bucket (add64 (get_or l.buckets bucket 0) 1);
    }
