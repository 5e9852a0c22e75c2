-- ===== src/RecvWindow/Steps.antt =====
-- internal/recvwindow/window.go: `Admit` and the writes of `Finish` on a window and on its history.
use mpudp.Prelude.{ℕ, ◌%◌, ◌≤◌, ◌<◌, ◌≡◌, refl, ◌∙◌, true, false, ◌⊎◌, inl, inr, arith}
use native.Mathlib.Nat.{mod-lt}
use mpudp.RecvWindow.{
  Status, unseen, completed, expired, is_terminal, same_terminal, Bitmap, Window, advance, admit,
  set_bit,
}
use mpudp.RecvWindow.History
use mpudp.RecvWindow.History.{Log}
use mpudp.RecvWindow.Ring.{set_bit-IsCounted}
use mpudp.RecvWindow.Slots.{slots_apart}
use mpudp.RecvWindow.Refinement.{
  Implements, IsShown, state-Implements, advance-IsAdvanced, advanced-exact, admit-parts,
}

-- An answer and the state after it.
abbrev pub Agrees : {A : Type 0} → A × Window → A × Log → Type 0
Agrees (a, w) (b, h) = (a ≡ b) × Implements w h

advanced-Implements :
    (w : Window) (h : Log) (id : ℕ)
    → Implements w h
    → w.highest < id
    → Implements
        (record w { highest = id; done = (advance w id).0; lost = (advance w id).1 })
        (record h { highest = id })
advanced-Implements w h id x up =
    let (d, l) = advance-IsAdvanced w id x.some_span up in
    record {
      some_span = x.some_span;
      same_span = x.same_span;
      same_highest = refl;
      same_closed = x.same_closed;
      result = x.result;
      above = λ k a. x.above k (omega (arith, x.same_highest));
      done_exact = λ k c s.
          advanced-exact w h id k w.done _ completed refl x.same_highest up x.above
            (x.done_exact k c) d s;
      lost_exact = λ k c s.
          advanced-exact w h id k w.lost _ expired refl x.same_highest up x.above (x.lost_exact k c)
            l s;
      done_counted = d.counted x.done_counted;
      lost_counted = l.counted x.lost_counted;
    }

pub admit-Agrees :
    (w : Window) (h : Log) (id : ℕ) → Implements w h → Agrees (admit w id) (History.admit h id)
admit-Agrees w h id x =
    let st = state-Implements w h id x in
    elim (admit-parts w id) [
      | inl (same, why) ↦
          let same' : History.admit h id ≡ (History.state h id, h) =
            ground (arith, st, x.same_highest) in
          rw (same, same') (st, x)
      | inr (fresh, up, same) ↦
          let same' : History.admit h id ≡ (unseen, record h { highest = id }) =
            ground (arith, st, x.same_highest) in
          rw (same, same') (refl, advanced-Implements w h id x up)
    ]

set_bit-exact :
    (w : Window) (h : Log) (id k : ℕ) (b : Bitmap) (terminal other : Status)
    → is_terminal terminal ≡ true
    → is_terminal other ≡ true
    → IsShown w.span w.highest id
    → IsShown w.span w.highest k
    → h.results id ≡ unseen
    → b.bits (k % w.span) ≡ same_terminal (h.results k) terminal
    → ((set_bit b (id % w.span)).bits (k % w.span)
        ≡ same_terminal ((History.record_result h id terminal).results k) terminal)
      × (same_terminal other terminal ≡ false
          → b.bits (k % w.span)
            ≡ same_terminal ((History.record_result h id other).results k) terminal)
unfolding set_bit
set_bit-exact w h id k b terminal other t o (a, c, d) (a', c', d') free e =
    let order : (k < id) ⊎ ((id ≡ k) ⊎ (id < k)) = omega arith in
    elim order [
      | inl lt ↦ let n = slots_apart k id w.span lt (omega arith) in ground arith
      | inr (inl same) ↦ ground arith
      | inr (inr gt) ↦ let n = slots_apart id k w.span gt (omega arith) in ground arith
    ]

-- The bits of an ID that is shown and not finished are clear.
pub unseen-free :
    (w : Window) (h : Log) (id : ℕ)
    → Implements w h
    → w.is_closed ≡ false
    → 0 < id
    → id ≤ w.highest
    → History.state h id ≡ unseen
    → IsShown w.span w.highest id × (h.results id ≡ unseen)
unseen-free w h id x o a b e = (
  (a, b, ground (arith, x.same_span, x.same_highest, x.same_closed)),
  ground (arith, x.same_span, x.same_highest, x.same_closed),
)

pub done_set-Implements :
    (w : Window) (h : Log) (id : ℕ)
    → Implements w h
    → IsShown w.span w.highest id
    → h.results id ≡ unseen
    → w.is_closed ≡ false
    → Implements
        (record w { done = set_bit w.done (id % w.span) })
        (History.record_result h id completed)
done_set-Implements w h id x s free o = record {
  some_span = x.some_span;
  same_span = x.same_span;
  same_highest = x.same_highest;
  same_closed = x.same_closed;
  result = λ k. ground (arith, x.result k);
  above = λ k a. ground (arith, x.above k a, x.same_highest);
  done_exact = λ k c sk.
      (set_bit-exact w h id k w.done completed expired refl refl s sk free (x.done_exact k c sk)).0;
  lost_exact = λ k c sk.
      (set_bit-exact w h id k w.lost expired completed refl refl s sk free (x.lost_exact k c sk)).1
        refl;
  done_counted =
      set_bit-IsCounted w.span w.done (id % w.span) (mod-lt id x.some_span)
        (x.done_exact id o s ∙ rw free refl) x.done_counted;
  lost_counted = x.lost_counted;
}

pub lost_set-Implements :
    (w : Window) (h : Log) (id : ℕ)
    → Implements w h
    → IsShown w.span w.highest id
    → h.results id ≡ unseen
    → w.is_closed ≡ false
    → Implements
        (record w { lost = set_bit w.lost (id % w.span) })
        (History.record_result h id expired)
lost_set-Implements w h id x s free o = record {
  some_span = x.some_span;
  same_span = x.same_span;
  same_highest = x.same_highest;
  same_closed = x.same_closed;
  result = λ k. ground (arith, x.result k);
  above = λ k a. ground (arith, x.above k a, x.same_highest);
  done_exact = λ k c sk.
      (set_bit-exact w h id k w.done completed expired refl refl s sk free (x.done_exact k c sk)).1
        refl;
  lost_exact = λ k c sk.
      (set_bit-exact w h id k w.lost expired completed refl refl s sk free (x.lost_exact k c sk)).0;
  done_counted = x.done_counted;
  lost_counted =
      set_bit-IsCounted w.span w.lost (id % w.span) (mod-lt id x.some_span)
        (x.lost_exact id o s ∙ rw free refl) x.lost_counted;
}
