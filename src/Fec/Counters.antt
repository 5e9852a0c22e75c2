-- ===== src/Fec/Counters.antt =====
-- internal/fec/statistics.go: the counters of a collector, of one Decoder. A counter wraps as its Go type does; a
-- gauge is the int64's bits.
use mpudp.Prelude.{ℕ, ◌+◌, ◌-◌, ◌%◌, ◌^◌, ◌==◌, ltb, if◌then◌else◌, Option, none, some}

pub record Gauge : Type 0 where
  pub current : ℕ  -- int64
  pub high_water : ℕ  -- uint64

pub record Counters : Type 0 where
  pub completed_blocks : ℕ  -- uint64
  pub completed_capacity_evictions : ℕ  -- uint64
  pub recovered_blocks : ℕ  -- uint64
  pub recovered_shards : ℕ  -- uint64
  pub expired_blocks : ℕ  -- uint64
  pub decoder_full : ℕ  -- uint64
  pub late_shards : ℕ  -- uint64
  pub too_old_shards : ℕ  -- uint64
  pub duplicate_shards : ℕ  -- uint64
  pub pending_blocks : Gauge
  pub pending_shards : Gauge
  pub pending_bytes : Gauge

abbrev pub plus : ℕ → ℕ → ℕ
plus counter n = (counter + n) % 2 ^ 64

-- `changeGauge` with a delta of `n`, and with one of `-n`.
unfoldable pub raise : Gauge → ℕ → Gauge
raise g n =
    let now = plus g.current n in
    if n == 0
    then g
    else record { current = now; high_water = if ltb g.high_water now then now else g.high_water }

unfoldable pub lower : Gauge → ℕ → Gauge
lower g n = if n == 0 then g else record g { current = (g.current + 2 ^ 64 - n) % 2 ^ 64 }

-- `changePending`, as its callers use it.
unfoldable pub raise_pending : ℕ → ℕ → ℕ → Counters → Counters
raise_pending blocks shards bytes c = record c {
  pending_blocks = raise c.pending_blocks blocks;
  pending_shards = raise c.pending_shards shards;
  pending_bytes = raise c.pending_bytes bytes;
}

unfoldable pub lower_pending : ℕ → ℕ → ℕ → Counters → Counters
lower_pending blocks shards bytes c = record c {
  pending_blocks = lower c.pending_blocks blocks;
  pending_shards = lower c.pending_shards shards;
  pending_bytes = lower c.pending_bytes bytes;
}

-- `if d.statistics != nil`.
abbrev pub counting : (Counters → Counters) → Option Counters → Option Counters
counting f none = none
counting f (some c) = some (f c)
