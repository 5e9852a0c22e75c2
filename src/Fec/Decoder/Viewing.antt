-- ===== src/Fec/Decoder/Viewing.antt =====
-- internal/fec/decoder.go: what the Decoder is made with and counts, and the steps that leave it alone.
use mpudp.Prelude.{
  ℕ, ◌≤◌, ◌<◌, ◌≡◌, ◌⊎◌, ◌-◌, ◌+◌, refl, List, [], true, false, some, length, not, ◌&&◌, ◌||◌, ltb,
  leb, ◌==◌, Bool-cases, Option-cases, inl, inr, ok, reject_if, >>=-eq-ok, arith,
}
use mpudp.Prelude.Int.{pos_part, is_negative, int_eq}
use mpudp.Fec.{Params, Limits, invalid_shard, shard_size_for_datagram}
use mpudp.Fec.Expiry.{BlockKey, ExpiryEntry, same_entry, without}
use mpudp.Fec.Decoder.{
  IncomingShard, PendingBlock, Decoder, find, data_shards, foreign, validate_shard, evict_completed,
  remember_completed, delete, remove_pending, close,
}
use mpudp.Fec.Decoder.Expiration.{expire_completed, expire_pending}
use mpudp.Fec.Decoder.Sweeping.{List-cases}
use mpudp.Fec.Decoder.Adding.{with_shard, retained}
use mpudp.Fec.Decoder.Keys.{delete-change}

-- What a Decoder is made with.
abbrev pub rules : Decoder → Params × Limits × ℕ × ℕ
rules d = (d.params, d.limits, d.total, d.max_pending_blocks)

-- That, what it has pending, and what it counts.
abbrev pub View : Type 0
View = (Params × Limits × ℕ × ℕ) × List (BlockKey × PendingBlock) × ℕ × ℕ × List ExpiryEntry

abbrev pub view : Decoder → View
view d = (rules d, d.pending, d.pending_shards, d.pending_bytes, d.pending_expiry)

evict_completed-view : (d : Decoder) → view (evict_completed d) ≡ view d
evict_completed-view d = elim (List-cases d.completed_expiry) [
  | inl nothing ↦ unfold evict_completed in rw nothing refl
  | inr (e, es, some_left) ↦ unfold evict_completed in rw some_left refl
]

pub remember_completed-view :
    (now : ℕ) (d : Decoder) (k : BlockKey) → view (remember_completed now d k) ≡ view d
remember_completed-view now d k = elim (Option-cases d.replay) [
  | inr ((id, w), windowed) ↦ unfold remember_completed in rw (windowed, remember_completed) refl
  | inl cached ↦ elim (Bool-cases (leb d.max_completed_blocks (length d.completed))) [
    | inl full ↦
        unfold remember_completed in
        rw (cached, remember_completed) (rw full (evict_completed-view d))
    | inr room ↦ unfold remember_completed in rw (cached, remember_completed) (rw room refl)
  ]
]

pub expire_completed-view :
    (d : Decoder) (top : ExpiryEntry) → view (expire_completed d top).0 ≡ view d
expire_completed-view d top = elim (Option-cases (find d.completed top.key)) [
  | inl absent ↦ unfold expire_completed in rw (absent, expire_completed) refl
  | inr (current, found) ↦ elim (Bool-cases (same_entry current top)) [
    | inl same ↦ unfold expire_completed in rw (found, expire_completed) (rw same refl)
    | inr other ↦ unfold expire_completed in rw (found, expire_completed) (rw other refl)
  ]
]

-- A round of the sweep takes its entry out, and with it the block that it is of.
pub expire_pending-view :
    (d : Decoder) (top : ExpiryEntry)
    → (view (expire_pending d top).0
          ≡ (rules d, d.pending, d.pending_shards, d.pending_bytes, without top d.pending_expiry))
        × ((b : PendingBlock) → find d.pending top.key ≡ some b → same_entry b.expiry top ≡ false)
      ⊎ ((block : PendingBlock) × (find d.pending top.key ≡ some block)
          × (same_entry block.expiry top ≡ true)
          × (view (expire_pending d top).0 ≡ (
            rules d,
            delete d.pending top.key,
            d.pending_shards - block.present,
            d.pending_bytes - block.bytes,
            without top d.pending_expiry,
          )))
expire_pending-view d top = elim (Option-cases (find d.pending top.key)) [
  | inl absent ↦ inl (unfold expire_pending in rw (absent, expire_pending) refl, λ b found. cc)
  | inr (block, found) ↦ elim (Bool-cases (same_entry block.expiry top)) [
    | inr other ↦ inl (
      unfold expire_pending in rw (found, expire_pending) (rw other refl),
      λ b there. let same : block ≡ b = cc in rw (← same) other,
    )
    | inl same ↦
        inr (block, found, same, unfold expire_pending in rw (found, expire_pending) (rw same refl))
  ]
]

-- A block that is done is gone with its last shard.
pub removed-view :
    (d : Decoder) (input : IncomingShard) (block : PendingBlock)
    → view (
        remove_pending
          (retained d input block)
          input.key
          (with_shard block (pos_part input.index) input.payload))
      ≡ (
        rules d,
        delete d.pending input.key,
        d.pending_shards - block.present,
        d.pending_bytes - block.bytes,
        without block.expiry d.pending_expiry,
      )
unfolding remove_pending
removed-view d input block =
    let shards : d.pending_shards + 1 - (block.present + 1) ≡ d.pending_shards - block.present =
      omega arith in
    let bytes : d.pending_bytes + length input.payload - (block.bytes + length input.payload)
        ≡ d.pending_bytes - block.bytes =
      omega arith in
    let gone =
      delete-change d.pending input.key (with_shard block (pos_part input.index) input.payload) in
    λ i. (rules d, gone i, shards i, bytes i, without block.expiry d.pending_expiry)

pub close-view : (d : Decoder) → (close d ≡ d) ⊎ (view (close d) ≡ (rules d, [], 0, 0, []))
unfolding close
close-view d = elim (Bool-cases d.closed) [
  | inl shut ↦ inl (ground (arith, shut))
  | inr live ↦ inr (rw (live, close) refl)
]

-- A shard that is accepted has a place in the block, and no more bytes than there is room for.
pub validate_shard-fits :
    (d : Decoder) (input : IncomingShard) (size : ℕ)
    → validate_shard d input ≡ ok size
    → (pos_part input.index < d.total) × (length input.payload ≤ d.limits.shard_capacity)
unfolding validate_shard
validate_shard-fits d input size valid =
    let s = shard_size_for_datagram (pos_part input.original_length) (data_shards d) in
    let (_, _, h) = >>=-eq-ok (reject_if (foreign d.replay input.key) invalid_shard) _ valid in
    let (_, _, h1) =
      >>=-eq-ok
        (reject_if
          (not (
            int_eq input.params.data_shards d.params.data_shards
            && int_eq input.params.parity_shards d.params.parity_shards))
          invalid_shard)
        _ h in
    let (_, inside, h2) =
      >>=-eq-ok
        (reject_if (is_negative input.index || leb d.total (pos_part input.index)) invalid_shard) _
        h1 in
    let (_, _, h3) =
      >>=-eq-ok
        (reject_if
          (is_negative input.original_length
            || ltb d.limits.effective_datagram_limit (pos_part input.original_length))
          invalid_shard)
        _ h2 in
    let (_, fits, _) =
      >>=-eq-ok
        (reject_if (ltb d.limits.shard_capacity s || not (length input.payload == s)) invalid_shard)
        _ h3 in
    (ground (arith, inside), ground (arith, fits))
