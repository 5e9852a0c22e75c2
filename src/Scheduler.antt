-- ===== src/Scheduler.antt =====
-- internal/scheduler/scheduler.go: the shards of one FEC block mapped onto the available paths.
-- Go's `int` is `ℤ`; the counts are at most 256 once they are checked, so no sum wraps.
pub mod Balance
mod Tests
use mpudp.Prelude.{
  ℕ, zero, suc, ◌+◌, ◌%◌, List, [], ◌∷◌, Bool, true, false, ltb, Result, ok, err, ◌>>=◌, ◌>>◌,
  reject_if,
}
use mpudp.Prelude.Int.{ℤ, pos, pos_part, is_nonpositive}

abbrev pub max_shards : ℕ
max_shards = 256

abbrev pub max_paths : ℕ
max_paths = 256

pub data Cause : Type 0 where
  invalid_shard_count no_paths too_many_shards too_many_paths : Cause

pub data Field : Type 0 where
  shard_count path_count : Field

pub record CountError : Type 0 where
  pub field : Field
  pub value : ℤ
  pub low : ℕ
  pub high : ℕ
  pub cause : Cause

unfoldable pub count_error : Field → ℤ → Cause → CountError
count_error field value cause = record {
  field = field;
  value = value;
  low = 1;
  high = 256;
  cause = cause;
}

-- `for shard := range assignments`, from `shard` on for `n` more rounds.
unfoldable pub fill : ℕ → ℕ → ℕ → ℕ → List ℕ
fill m start shard zero = []
fill m start shard (suc n) = ((start + shard) % m) ∷ fill m start (shard + 1) n

unfoldable pub assign : ℕ → ℤ → ℤ → Result CountError (List ℕ)
assign packet_id shards paths = do
  reject_if (is_nonpositive shards) (count_error shard_count shards invalid_shard_count)
  reject_if (ltb max_shards (pos_part shards)) (count_error shard_count shards too_many_shards)
  reject_if (is_nonpositive paths) (count_error path_count paths no_paths)
  reject_if (ltb max_paths (pos_part paths)) (count_error path_count paths too_many_paths)
  let start = packet_id % pos_part paths
  ok (fill (pos_part paths) start 0 (pos_part shards))
