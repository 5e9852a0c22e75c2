-- ===== src/Fec/Replay.antt =====
-- internal/fec/replay_window.go: the bitmap of completed blocks of one receive direction.
-- As in RecvWindow, a bitmap is the function of its bits, kept together with its count.
use mpudp.Prelude.{
  ℕ, zero, suc, ◌+◌, ◌-◌, ◌%◌, ◌≤◌, ◌<◌, ◌≡◌, refl, sym, ap, subst, ◌∙◌, Bool, true, false, not,
  ◌&&◌, ◌||◌, ◌==◌, ltb, leb, if◌then◌else◌, Bool-cases, inl, inr, arith,
}
use native.Mathlib.Nat.{mod-lt}
use mpudp.RecvWindow.{Bitmap, no_bits, min, clear_mask, set_bit, chunk_width, clear_ring}
use mpudp.RecvWindow.Ring.{IsCleared, clear_ring-IsCleared}

abbrev pub replay_window_ids : ℕ
replay_window_ids = 65536

pub record ReplayWindow : Type 0 where
  pub completed : Bitmap
  pub highest : ℕ  -- uint64
  pub started : Bool

unfoldable pub too_old : ReplayWindow → ℕ → Bool
too_old w id = w.started && ltb id w.highest && leb replay_window_ids (w.highest - id)

unfoldable pub contains : ReplayWindow → ℕ → Bool
unfolding too_old
contains w id =
    if not w.started || ltb w.highest id || too_old w id
    then false
    else w.completed.bits (id % replay_window_ids)

-- The loop of `admit`, on `fuel`; each round clears at least one bit, so `remaining` rounds suffice.
unfoldable pub clear_positions : ℕ → Bitmap → ℕ → ℕ → Bitmap
clear_positions zero b position remaining = b
clear_positions (suc fuel) b position remaining = elim (remaining == 0) [
  | true ↦ b
  | false ↦
      let width = min remaining (64 - position % 64) in
      clear_positions fuel (clear_mask b position width) ((position + width) % replay_window_ids)
        (remaining - width)
]

unfoldable pub moved_on : ReplayWindow → ℕ → Bitmap
unfolding clear_positions
moved_on w id =
    let distance = id - w.highest in
    if leb replay_window_ids distance
    then no_bits
    else clear_positions distance w.completed ((w.highest + 1) % replay_window_ids) distance

unfoldable pub admit : ReplayWindow → ℕ → ReplayWindow
unfolding moved_on
admit w id =
    if not w.started
    then record w { started = true; highest = id }
    else if leb id w.highest
    then w
    else record w { completed = moved_on w id; highest = id }

unfoldable pub complete : ReplayWindow → ℕ → ReplayWindow
unfolding too_old
complete w id =
    if too_old w id
    then w
    else if w.completed.bits (id % replay_window_ids)
    then w
    else record w { completed = set_bit w.completed (id % replay_window_ids) }

same_width :
    (p r : ℕ) → p < replay_window_ids → chunk_width replay_window_ids p r ≡ min r (64 - p % 64)
same_width p r h = ground arith

-- The loop is that of RecvWindow, on a span of 65536.
clear_positions-eq-clear_ring :
    (fuel : ℕ) (b c : Bitmap) (p r : ℕ)
    → p < replay_window_ids
    → clear_positions fuel b p r ≡ (clear_ring fuel replay_window_ids b c p r).0
unfolding clear_positions clear_ring
clear_positions-eq-clear_ring zero b c p r h = refl
clear_positions-eq-clear_ring (suc fuel) b c p r h = elim (Bool-cases (r == 0)) [
  | inl z ↦ rw (z, clear_positions, clear_ring) refl
  | inr n ↦
      let w = min r (64 - p % 64) in
      rw (n, clear_positions, clear_ring)
        (clear_positions-eq-clear_ring fuel (clear_mask b p w) (clear_mask c p w)
            ((p + w) % replay_window_ids) (r - w) (mod-lt (p + w) (omega arith))
          ∙ ap
              (λ (v : ℕ).
                (clear_ring fuel replay_window_ids (clear_mask b p v) (clear_mask c p v)
                  ((p + v) % replay_window_ids) (r - v)).0)
              (sym (same_width p r h)))
]

pub clear_positions-IsCleared :
    (b : Bitmap) (p r : ℕ)
    → p < replay_window_ids
    → r ≤ replay_window_ids
    → IsCleared replay_window_ids p r b (clear_positions r b p r)
clear_positions-IsCleared b p r hp hr =
    subst (λ (c : Bitmap). IsCleared replay_window_ids p r b c)
      (sym (clear_positions-eq-clear_ring r b no_bits p r hp))
      (clear_ring-IsCleared r replay_window_ids b no_bits p r hp hr (omega arith)).0
