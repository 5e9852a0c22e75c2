-- ===== src/RecvWindow.antt =====
-- internal/recvwindow/window.go: bounded history of terminal IDs for one direction of a Session.
-- A nil `*Window` behaves as the zero value, whose span is 0. A bitmap of 64-bit words is the
-- function of its bits: bit `i % 64` of word `i / 64` at `i`; it is kept together with its count.
-- The guards keep the uint64 sums and differences in range: `highest` is below an admissible ID.
pub mod Ring
pub mod Slots
pub mod History
pub mod Refinement
pub mod Steps
pub mod Finishing
pub mod Runs
pub mod Stable
mod Tests
use mpudp.Prelude.{
  ℕ, zero, suc, ◌+◌, ◌-◌, ◌%◌, ◌≡◌, Bool, true, false, not, ◌&&◌, ◌||◌, ◌==◌, ltb, leb,
  if◌then◌else◌, Result, ok, err, ◌>>=◌, ◌>>◌, reject_if,
}

abbrev pub max_span : ℕ
max_span = 65536

pub data SpanError : Type 0 where
  invalid_span : SpanError

pub data Status : Type 0 where
  unseen completed expired retired invalid_id closed : Status

abbrev pub is_unseen : Status → Bool
is_unseen unseen = true
is_unseen _ = false

abbrev pub is_terminal : Status → Bool
is_terminal completed = true
is_terminal expired = true
is_terminal _ = false

-- `==` on two statuses, of which the second is Completed or Expired.
abbrev pub same_terminal : Status → Status → Bool
same_terminal completed completed = true
same_terminal expired expired = true
same_terminal _ _ = false

-- `completed` with `completedCount`, and `expired` with `expiredCount`.
pub record Bitmap : Type 0 where
  pub bits : ℕ → Bool
  pub count : ℕ

pub record Window : Type 0 where
  pub span : ℕ  -- uint64
  pub highest : ℕ  -- uint64
  pub done : Bitmap
  pub lost : Bitmap
  pub is_closed : Bool

abbrev pub no_bits : Bitmap
no_bits = record { bits = λ _. false; count = 0 }

unfoldable pub new : ℕ → Result SpanError Window
new span = do
  reject_if (ltb span 1 || ltb max_span span) invalid_span
  ok (record { span = span; highest = 0; done = no_bits; lost = no_bits; is_closed = false })

unfoldable pub floor : Window → ℕ
floor w = if w.span == 0 || ltb w.highest w.span then 1 else w.highest - w.span + 1

unfoldable pub state : Window → ℕ → Status
unfolding floor
state w id =
    if w.span == 0 || w.is_closed
    then closed
    else if id == 0
    then invalid_id
    else if ltb id (floor w)
    then retired
    else if ltb w.highest id
    then unseen
    else if w.done.bits (id % w.span)
    then completed
    else if w.lost.bits (id % w.span)
    then expired
    else unseen

-- The number of set bits among the `width` bits from `position` on.
unfoldable pub ones_count : (ℕ → Bool) → ℕ → ℕ → ℕ
ones_count bits position zero = 0
ones_count bits position (suc width) =
    (if bits position then 1 else 0) + ones_count bits (position + 1) width

-- Whether the mask of `width` ones shifted to `position` covers bit `i`.
abbrev pub in_mask : ℕ → ℕ → ℕ → Bool
in_mask position width i = leb position i && ltb i (position + width)

-- `count -= bits.OnesCount64(word & mask)`, then `word &^= mask`.
unfoldable pub clear_mask : Bitmap → ℕ → ℕ → Bitmap
clear_mask b position width = record {
  bits = λ i. b.bits i && not (in_mask position width i);
  count = b.count - ones_count b.bits position width;
}

abbrev pub min : ℕ → ℕ → ℕ
min a b = if ltb a b then a else b

abbrev pub chunk_width : ℕ → ℕ → ℕ → ℕ
chunk_width span position remaining = min remaining (min (64 - position % 64) (span - position))

-- The loop of `Admit`, on `fuel`; each round clears at least one bit, so `remaining` rounds suffice.
unfoldable pub clear_ring : ℕ → ℕ → Bitmap → Bitmap → ℕ → ℕ → Bitmap × Bitmap
clear_ring zero span done lost position remaining = (done, lost)
clear_ring (suc fuel) span done lost position remaining = elim (remaining == 0) [
  | true ↦ (done, lost)
  | false ↦
      let width = chunk_width span position remaining in
      clear_ring fuel span (clear_mask done position width) (clear_mask lost position width)
        ((position + width) % span) (remaining - width)
]

-- What `Admit` does to the bitmaps when it advances to `id`.
unfoldable pub advance : Window → ℕ → Bitmap × Bitmap
unfolding clear_ring
advance w id =
    let distance = id - w.highest in
    if leb w.span distance
    then (no_bits, no_bits)
    else clear_ring distance w.span w.done w.lost ((w.highest + 1) % w.span) distance

unfoldable pub admit : Window → ℕ → Status × Window
unfolding state advance
admit w id =
    let status = state w id in
    if not (is_unseen status) || leb id w.highest
    then (status, w)
    else let (done, lost) = advance w id in
      (unseen, record w { highest = id; done = done; lost = lost })

-- `bitmap[index/64] |= mask`, then `count++`.
unfoldable pub set_bit : Bitmap → ℕ → Bitmap
set_bit b index = record { bits = λ i. b.bits i || i == index; count = b.count + 1 }

unfoldable pub finish : Window → ℕ → Status → Bool × Window
unfolding state
finish w id terminal =
    if w.span == 0 || not (is_terminal terminal) || w.is_closed || id == 0 || ltb w.highest id
    then (false, w)
    else elim (state w id) [
      | retired ↦ (true, w)
      | unseen ↦
          if same_terminal terminal completed
          then (true, record w { done = set_bit w.done (id % w.span) })
          else (true, record w { lost = set_bit w.lost (id % w.span) })
      | status ↦ (same_terminal status terminal, w)
    ]

unfoldable pub close : Window → Window
close w = if w.is_closed then w else record w { is_closed = true; done = no_bits; lost = no_bits }

pub record Snapshot : Type 0 where
  pub span : ℕ
  pub highest : ℕ
  pub floor : ℕ
  pub completed : ℕ
  pub expired : ℕ
  pub is_closed : Bool

unfoldable pub snapshot : Window → Snapshot
unfolding floor
snapshot w =
    if w.span == 0
    then record { span = 0; highest = 0; floor = 1; completed = 0; expired = 0; is_closed = true }
    else record {
      span = w.span;
      highest = w.highest;
      floor = floor w;
      completed = w.done.count;
      expired = w.lost.count;
      is_closed = w.is_closed;
    }
