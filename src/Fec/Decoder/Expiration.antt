-- ===== src/Fec/Decoder/Expiration.antt =====
-- internal/fec/decoder.go: the expiry of pending blocks and of completed keys.
use mpudp.Prelude.{
  ℕ, zero, suc, ◌+◌, ◌-◌, [], ◌∷◌, Bool, true, false, not, ltb, if◌then◌else◌, length, none, some,
}
use mpudp.Fec.Counters.{Counters, plus, lower_pending, counting}
use mpudp.Fec.Expiry.{ExpiryEntry, same_entry, least, without}
use mpudp.Fec.Decoder.{ExpireStats, Decoder, find, delete, remove_pending}

-- One round of the first loop of `sweepLocked`, which takes `entry` from the heap: whether a block expires.
unfoldable pub expire_pending : Decoder → ExpiryEntry → Decoder × Bool
unfolding remove_pending
expire_pending d entry =
    let popped = record d { pending_expiry = without entry d.pending_expiry } in
    elim (find d.pending entry.key) [
      | none ↦ (popped, false)
      | some block ↦ if not (same_entry block.expiry entry) then (popped, false) else (
        record popped {
          pending = delete d.pending entry.key;
          pending_shards = d.pending_shards - block.present;
          pending_bytes = d.pending_bytes - block.bytes;
          statistics =
              counting
                (λ (c : Counters).
                  let lowered = lower_pending 1 block.present block.bytes c in
                  record lowered { expired_blocks = plus lowered.expired_blocks 1 })
                d.statistics;
        },
        true,
      )
    ]

abbrev pub count_if : Bool → ℕ → ℕ
count_if true n = n + 1
count_if false n = n

-- The loop, for at most as many rounds as the heap has entries.
unfoldable pub sweep_pending : ℕ → ℕ → Decoder → Decoder × ℕ
sweep_pending zero now d = (d, 0)
sweep_pending (suc fuel) now d = elim d.pending_expiry [
  | [] ↦ (d, 0)
  | e ∷ es ↦
      let top = least e es in
      let (d', expired) = expire_pending d top in
      let (d'', n) = sweep_pending fuel now d' in
      if ltb now top.deadline then (d, 0) else (d'', count_if expired n)
]

-- The same for the completed keys.
unfoldable pub expire_completed : Decoder → ExpiryEntry → Decoder × Bool
expire_completed d entry =
    let popped = record d { completed_expiry = without entry d.completed_expiry } in
    elim (find d.completed entry.key) [
      | none ↦ (popped, false)
      | some current ↦
          if not (same_entry current entry)
          then (popped, false)
          else (record popped { completed = delete d.completed entry.key }, true)
    ]

unfoldable pub sweep_completed : ℕ → ℕ → Decoder → Decoder × ℕ
sweep_completed zero now d = (d, 0)
sweep_completed (suc fuel) now d = elim d.completed_expiry [
  | [] ↦ (d, 0)
  | e ∷ es ↦
      let top = least e es in
      let (d', expired) = expire_completed d top in
      let (d'', n) = sweep_completed fuel now d' in
      if ltb now top.deadline then (d, 0) else (d'', count_if expired n)
]

unfoldable pub sweep_locked : ℕ → Decoder → Decoder × ExpireStats
sweep_locked now d =
    let (d', blocks) = sweep_pending (length d.pending_expiry) now d in
    let (d'', keys) = sweep_completed (length d'.completed_expiry) now d' in
    (d'', record { pending_blocks = blocks; completed_blocks = keys })

unfoldable pub sweep : ℕ → Decoder → Decoder × ExpireStats
sweep now d =
    if d.closed
    then (d, record { pending_blocks = 0; completed_blocks = 0 })
    else sweep_locked now d
