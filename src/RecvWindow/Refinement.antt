-- ===== src/RecvWindow/Refinement.antt =====
-- internal/recvwindow/window.go: the window against a history that remembers every ID.
use mpudp.Prelude.{
  ℕ, ◌+◌, ◌-◌, ◌%◌, ◌≤◌, ◌<◌, ◌≡◌, refl, subst, ◌∙◌, true, false, leb, ◌⊎◌, inl, inr, ok, arith,
  Bool-cases,
}
use native.Mathlib.Nat.{mod-lt}
use mpudp.RecvWindow.{
  Status, unseen, completed, expired, is_unseen, is_terminal, same_terminal, Bitmap, Window,
  no_bits, new, floor, state, advance, admit, close,
}
use mpudp.RecvWindow.History
use mpudp.RecvWindow.History.{Log}
use mpudp.RecvWindow.Ring.{IsCounted, IsCleared, clear_ring-IsCleared, no_bits-IsCounted}
use mpudp.RecvWindow.Slots.{new_id-in_arc, old_id-in_arc}

-- A result that an ID can have.
abbrev pub IsResult : Status → Type 0
IsResult s = (s ≡ unseen) ⊎ ((s ≡ completed) ⊎ (s ≡ expired))

-- IDs that the window still tells apart.
abbrev pub IsShown : ℕ → ℕ → ℕ → Type 0
IsShown span highest id = (0 < id) × (id ≤ highest) × (highest < id + span)

-- The window's bitmaps show the last `span` results, and its counts are their numbers.
pub record Implements (w : Window) (h : Log) : Type 0 where
  pub some_span : 0 < w.span
  pub same_span : w.span ≡ h.span
  pub same_highest : w.highest ≡ h.highest
  pub same_closed : w.is_closed ≡ h.is_closed
  pub result : (id : ℕ) → IsResult (h.results id)
  pub above : (id : ℕ) → h.highest < id → h.results id ≡ unseen
  pub done_exact :
      (id : ℕ)
      → w.is_closed ≡ false
      → IsShown w.span w.highest id
      → w.done.bits (id % w.span) ≡ same_terminal (h.results id) completed
  pub lost_exact :
      (id : ℕ)
      → w.is_closed ≡ false
      → IsShown w.span w.highest id
      → w.lost.bits (id % w.span) ≡ same_terminal (h.results id) expired
  pub done_counted : IsCounted w.span w.done
  pub lost_counted : IsCounted w.span w.lost

pub state-Implements :
    (w : Window) (h : Log) (id : ℕ) → Implements w h → state w id ≡ History.state h id
unfolding state floor
state-Implements w h id x = ground (
  arith,
  x.some_span,
  x.same_span,
  x.same_highest,
  x.same_closed,
  x.result id,
  x.above id,
  x.done_exact id,
  x.lost_exact id,
)

pub new-Implements :
    (span : ℕ) (w : Window)
    → new span ≡ ok w
    → Implements w (record { span = span; highest = 0; results = λ _. unseen; is_closed = false })
unfolding new
new-Implements span w e =
    let same : record {
      span = span;
      highest = 0;
      done = no_bits;
      lost = no_bits;
      is_closed = false;
    }
        ≡ w =
      ground arith in
    rw (← same) (record {
      some_span = ground arith;
      same_span = refl;
      same_highest = refl;
      same_closed = refl;
      result = λ id. inl refl;
      above = λ id a. refl;
      done_exact = λ id o s. refl;
      lost_exact = λ id o s. refl;
      done_counted = no_bits-IsCounted span;
      lost_counted = no_bits-IsCounted span;
    })

pub close-Implements :
    (w : Window) (h : Log) → Implements w h → Implements (close w) (History.close h)
unfolding close
close-Implements w h x = elim (Bool-cases w.is_closed) [
  | inl c ↦
      let same : w ≡ close w = rw (c, close) refl in
      subst (λ (v : Window). Implements v (History.close h)) same
        (record {
          some_span = x.some_span;
          same_span = x.same_span;
          same_highest = x.same_highest;
          same_closed = c;
          result = x.result;
          above = x.above;
          done_exact = x.done_exact;
          lost_exact = x.lost_exact;
          done_counted = x.done_counted;
          lost_counted = x.lost_counted;
        })
  | inr o ↦
      rw (o, close)
        (record {
          some_span = x.some_span;
          same_span = x.same_span;
          same_highest = x.same_highest;
          same_closed = refl;
          result = x.result;
          above = x.above;
          done_exact = λ id c s. cc;
          lost_exact = λ id c s. cc;
          done_counted = no_bits-IsCounted w.span;
          lost_counted = no_bits-IsCounted w.span;
        })
]

-- What the bitmaps are once the window has moved on to `id`.
pub record IsAdvanced (w : Window) (id : ℕ) (old new : Bitmap) : Type 0 where
  pub kept :
      (k : ℕ) → k ≤ w.highest → id < k + w.span → new.bits (k % w.span) ≡ old.bits (k % w.span)
  pub emptied : (k : ℕ) → w.highest < k → k ≤ id → id < k + w.span → new.bits (k % w.span) ≡ false
  pub counted : IsCounted w.span old → IsCounted w.span new

no_bits-IsAdvanced :
    (w : Window) (id : ℕ) (old : Bitmap)
    → 0 < w.span
    → w.span ≤ id - w.highest
    → IsAdvanced w id old no_bits
no_bits-IsAdvanced w id old pos far = record {
  kept = λ k a b. absurd (omega arith);
  emptied = λ k a b c. refl;
  counted = λ _. no_bits-IsCounted w.span;
}

IsCleared-IsAdvanced :
    (w : Window) (id : ℕ) (old new : Bitmap)
    → w.highest < id
    → id - w.highest < w.span
    → IsCleared w.span ((w.highest + 1) % w.span) (id - w.highest) old new
    → IsAdvanced w id old new
IsCleared-IsAdvanced w id old new up near x = record {
  kept = λ k a b.
      x.exact (k % w.span) (mod-lt k (omega arith))
      ∙ rw (old_id-in_arc w.highest id k w.span a up b) (ground arith);
  emptied = λ k a b c.
      x.exact (k % w.span) (mod-lt k (omega arith))
      ∙ rw (new_id-in_arc w.highest id k w.span a b near) (ground arith);
  counted = x.counted;
}

pub advance-IsAdvanced :
    (w : Window) (id : ℕ)
    → 0 < w.span
    → w.highest < id
    → let (done, lost) = advance w id in IsAdvanced w id w.done done × IsAdvanced w id w.lost lost
unfolding advance
advance-IsAdvanced w id pos up = elim (Bool-cases (leb w.span (id - w.highest))) [
  | inl far ↦ rw far (
    no_bits-IsAdvanced w id w.done pos (ground arith),
    no_bits-IsAdvanced w id w.lost pos (ground arith),
  )
  | inr near ↦
      let lt : id - w.highest < w.span = ground arith in
      let (x, y) =
        clear_ring-IsCleared (id - w.highest) w.span w.done w.lost ((w.highest + 1) % w.span)
          (id - w.highest) (mod-lt (w.highest + 1) pos) (omega arith) (omega arith) in
      rw near
        (IsCleared-IsAdvanced w id w.done _ up lt x, IsCleared-IsAdvanced w id w.lost _ up lt y)
]

-- The bits of a shown ID, before and after.
pub advanced-exact :
    (w : Window) (h : Log) (id k : ℕ) (old new : Bitmap) (terminal : Status)
    → is_terminal terminal ≡ true
    → w.highest ≡ h.highest
    → w.highest < id
    → ((j : ℕ) → h.highest < j → h.results j ≡ unseen)
    → (IsShown w.span w.highest k → old.bits (k % w.span) ≡ same_terminal (h.results k) terminal)
    → IsAdvanced w id old new
    → IsShown w.span id k
    → new.bits (k % w.span) ≡ same_terminal (h.results k) terminal
advanced-exact w h id k old new terminal t same up above exact x (a, b, c) =
    let d : (k ≤ w.highest) ⊎ (w.highest < k) = omega arith in
    elim d [
      | inl le ↦ x.kept k le c ∙ exact (a, le, omega arith)
      | inr gt ↦ x.emptied k gt b c ∙ rw (above k (omega arith)) refl
    ]

pub admit-parts :
    (w : Window) (id : ℕ)
    → ((admit w id ≡ (state w id, w)) × ((is_unseen (state w id) ≡ false) ⊎ (id ≤ w.highest)))
      ⊎ ((is_unseen (state w id) ≡ true)
          × (w.highest < id)
          × (admit w id ≡ (
            unseen,
            record w { highest = id; done = (advance w id).0; lost = (advance w id).1 },
          )))
unfolding admit
admit-parts w id = elim (Bool-cases (is_unseen (state w id))) [
  | inl new_one ↦ elim (Bool-cases (leb id w.highest)) [
    | inl le ↦ inl (ground arith)
    | inr gt ↦ inr (new_one, ground arith, ground arith)
  ]
  | inr known ↦ inl (ground arith)
]
