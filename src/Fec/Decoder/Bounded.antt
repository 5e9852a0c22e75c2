-- ===== src/Fec/Decoder/Bounded.antt =====
-- internal/fec/decoder.go: `Stats`, after any calls of a new Decoder.
use mpudp.Prelude.{
  ℕ, ◌+◌, ◌-◌, ◌*◌, ◌≤◌, ◌<◌, ◌≡◌, some, refl, sym, ap, subst, List, [], ◌∷◌, length, Bool, Option,
  ok, arith,
}
use mpudp.Prelude.Int.{pos_part}
use mpudp.Fec.Parts.{present}
use mpudp.Fec.Expiry.{BlockKey}
use mpudp.Fec.Bounds.{limits-parts, validate_params-IsValid}
use mpudp.Fec.Decoder.{find, PendingBlock, Decoder, DecoderConfig, data_shards, new_decoder, stats}
use mpudp.Fec.Decoder.Cases.{new_decoder-parts}
use mpudp.Fec.Decoder.Runs.{Call, adds, sweeps, closes, after}
use mpudp.Fec.Decoder.Keys.{
  HasUniqueKeys, AllValues-find, total_of, total_of-le, total_of-eq, AllValues-imply,
}
use mpudp.Fec.Decoder.Counting.{AreSmall, held, IsSound, empty-IsCounted}
use mpudp.Fec.Decoder.Exact.{IsExact, add_verified_shard-IsExact, sweep-IsExact, close-IsExact}

-- What `Stats` says is what the blocks hold, and the blocks are within their bounds: at most `most` of them, each with
-- fewer than `k` shards of at most `capacity` bytes.
pub record HasExactStats (most k capacity : ℕ) (d : Decoder) : Type 0 where
  pub unique : HasUniqueKeys d.pending
  pub blocks_eq : (stats d).pending_blocks ≡ length d.pending
  pub shards_eq :
      (stats d).pending_shards ≡ total_of (λ (b : PendingBlock). present b.shards) d.pending
  pub bytes_eq : (stats d).pending_bytes ≡ total_of (λ (b : PendingBlock). held b.shards) d.pending
  pub blocks_le : (stats d).pending_blocks ≤ most
  pub few : (key : BlockKey) (b : PendingBlock) → find d.pending key ≡ some b → present b.shards < k
  pub small :
      (key : BlockKey) (b : PendingBlock) → find d.pending key ≡ some b → AreSmall capacity b.shards
  pub shards_le : (stats d).pending_shards ≤ most * (k - 1)
  pub bytes_le : (stats d).pending_bytes ≤ most * ((k - 1) * capacity)

mul_le : (a d c : ℕ) → a * c ≤ (a + d) * c
mul_le a d c = ground arith

mul_mono : (a b c : ℕ) → a ≤ b → a * c ≤ b * c
mul_mono a b c h =
    let sum : a + (b - a) ≡ b = omega arith in
    subst (λ (x : ℕ). a * c ≤ x * c) sum (mul_le a (b - a) c)

IsExact-HasExactStats :
    (start d : Decoder)
    → 1 ≤ data_shards start
    → IsExact start d
    → HasExactStats start.max_pending_blocks (data_shards start) start.limits.shard_capacity d
IsExact-HasExactStats start d some_data (r, x) =
    let n = start.total in
    let most = start.max_pending_blocks in
    let m = data_shards start - 1 in
    let capacity = start.limits.shard_capacity in
    let Sound = IsSound n most m capacity in
    let a =
      total_of-eq (λ (b : PendingBlock). present b.shards) (λ (b : PendingBlock). b.present)
        d.pending
        (AllValues-imply Sound (λ (b : PendingBlock). present b.shards ≡ b.present) d.pending
          (λ b y. y.shards) x.sound) in
    let b =
      total_of-eq (λ (b : PendingBlock). held b.shards) (λ (b : PendingBlock). b.bytes) d.pending
        (AllValues-imply Sound (λ (b : PendingBlock). held b.shards ≡ b.bytes) d.pending
          (λ b y. y.holds) x.sound) in
    let few =
      total_of-le (λ (b : PendingBlock). b.present) m d.pending
        (AllValues-imply Sound (λ (b : PendingBlock). b.present ≤ m) d.pending (λ b y. y.few)
          x.sound) in
    let small =
      total_of-le (λ (b : PendingBlock). b.bytes) (m * capacity) d.pending
        (AllValues-imply Sound (λ (b : PendingBlock). b.bytes ≤ m * capacity) d.pending
          (λ b y. let le = y.small in let more = mul_mono b.present m capacity y.few in omega arith)
          x.sound) in
    let shards = x.shards_eq in
    let bytes = x.bytes_eq in
    let s = mul_mono (length d.pending) most m x.room in
    let t = mul_mono (length d.pending) most (m * capacity) x.room in
    unfold stats in
    record {
      unique = x.unique;
      blocks_eq = refl;
      shards_eq = omega arith;
      bytes_eq = omega arith;
      blocks_le = x.room;
      few = λ key b found.
          let y = AllValues-find Sound d.pending key b x.sound found in
          let shards = y.shards in let few = y.few in omega arith;
      small = λ key b found. (AllValues-find Sound d.pending key b x.sound found).each_small;
      shards_le = omega arith;
      bytes_le = omega arith;
    }

module _ (reconstruct : List (List ℕ) → Option (List (List ℕ))) where
  -- The Decoder after all of the calls.
  abbrev pub reached : Decoder → List Call → Decoder
  reached d [] = d
  reached d (c ∷ cs) = reached (after reconstruct d c).0 cs

  after-IsExact :
      (start d : Decoder) (c : Call) → IsExact start d → IsExact start (after reconstruct d c).0
  unfolding after
  after-IsExact start d (adds now input) x =
      add_verified_shard-IsExact start reconstruct now d input x
  after-IsExact start d (sweeps now) x = sweep-IsExact start now d x
  after-IsExact start d closes x = close-IsExact start d x

  reached-IsExact :
      (start d : Decoder) (cs : List Call) → IsExact start d → IsExact start (reached d cs)
  reached-IsExact start d [] x = x
  reached-IsExact start d (c ∷ cs) x =
      reached-IsExact start (after reconstruct d c).0 cs (after-IsExact start d c x)

  -- After any calls of a new Decoder, Stats reports just the blocks, the shards and the bytes that are pending. There are
  -- at most MaxPendingBlocks blocks, one for a key; each has fewer than k shards, and each shard at most ShardCapacity
  -- bytes; so the totals are bounded too.
  pub reached-HasExactStats :
      (accepts : ℕ → ℕ → Bool) (config : DecoderConfig) (d : Decoder) (cs : List Call)
      → new_decoder accepts config ≡ ok d
      → HasExactStats
          (pos_part config.max_pending_blocks)
          (pos_part config.params.data_shards)
          d.limits.shard_capacity
          (reached d cs)
  reached-HasExactStats accepts config d cs made =
      let (limits, count, derived, _, _, _, same) = new_decoder-parts accepts config d made in
      let most_eq : d.max_pending_blocks ≡ pos_part config.max_pending_blocks =
        ap (λ (s : Decoder). s.max_pending_blocks) same in
      let k_eq : data_shards d ≡ pos_part config.params.data_shards = ap data_shards same in
      let start : IsExact d d =
        subst (λ (s : Decoder). IsExact s s) (sym same)
          (
            refl,
            empty-IsCounted count (pos_part config.max_pending_blocks)
                (pos_part config.params.data_shards - 1) limits.shard_capacity,
          ) in
      let (n, valid, _, _, _, _, _, _, _) =
        limits-parts config.params config.budget limits derived in
      let some_data = (validate_params-IsValid config.params n valid).some_data in
      let x =
        IsExact-HasExactStats d (reached d cs) (omega (arith, k_eq))
          (reached-IsExact d d cs start) in
      rw (← most_eq, ← k_eq) x
