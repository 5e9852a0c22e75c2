-- ===== src/RecvWindow/Stable.antt =====
-- internal/recvwindow/window.go: a finished ID stays finished.
use mpudp.Prelude.{
  ℕ, ◌≤◌, ◌<◌, ◌≡◌, refl, sym, ap, ◌∙◌, ◌⊎◌, inl, inr, List, [], ◌∷◌, true, false, ok, arith, not,
  ◌&&◌, ◌||◌, ◌==◌, ltb, Bool-cases,
}
use mpudp.RecvWindow.{Status, unseen, retired, closed, is_unseen, is_terminal, Window, new, state}
use mpudp.RecvWindow.History
use mpudp.RecvWindow.History.{Log}
use mpudp.RecvWindow.Refinement.{state-Implements, new-Implements}
use mpudp.RecvWindow.Runs.{
  Call, asks, admits, finishes, closes, tell, told, run, run-Implements, empty_log,
}

-- What a history never takes back.
record IsLater (h h' : Log) : Type 0 where
  same_span : h'.span ≡ h.span
  highest_le : h.highest ≤ h'.highest
  still_closed : h.is_closed ≡ true → h'.is_closed ≡ true
  kept : (k : ℕ) → k ≤ h.highest → is_unseen (h.results k) ≡ false → h'.results k ≡ h.results k

IsLater-refl : (h : Log) → IsLater h h
IsLater-refl h = record {
  same_span = refl;
  highest_le = omega arith;
  still_closed = λ c. c;
  kept = λ k a n. refl;
}

IsLater-trans : (a b c : Log) → IsLater a b → IsLater b c → IsLater a c
IsLater-trans a b c x y = record {
  same_span = y.same_span ∙ x.same_span;
  highest_le = omega (arith, x.highest_le, y.highest_le);
  still_closed = λ e. y.still_closed (x.still_closed e);
  kept = λ k l n.
      let same = x.kept k l n in
      y.kept k (omega (arith, x.highest_le)) (ap is_unseen same ∙ n) ∙ same;
}

record_result-IsLater :
    (h : Log) (id : ℕ) (terminal : Status)
    → h.is_closed ≡ false
    → id ≤ h.highest
    → History.state h id ≡ unseen
    → IsLater h (History.record_result h id terminal)
record_result-IsLater h id terminal o l u = record {
  same_span = refl;
  highest_le = omega arith;
  still_closed = λ c. c;
  kept = λ k a n. ground (arith, u);
}

admit-IsLater : (h : Log) (id : ℕ) → IsLater h (History.admit h id).1
admit-IsLater h id = elim (Bool-cases (is_unseen (History.state h id) && ltb h.highest id)) [
  | inl moves ↦ rw moves (record {
    same_span = refl;
    highest_le = ground arith;
    still_closed = λ c. c;
    kept = λ k a n. refl;
  })
  | inr stays ↦ rw stays (IsLater-refl h)
]

finish_cases :
    (h : Log) (id : ℕ) (terminal : Status)
    → ((History.finish h id terminal).1 ≡ h)
      ⊎ ((h.is_closed ≡ false)
          × (id ≤ h.highest)
          × (History.state h id ≡ unseen)
          × ((History.finish h id terminal).1 ≡ History.record_result h id terminal))
finish_cases h id terminal =
    elim (Bool-cases (not (is_terminal terminal) || h.is_closed || id == 0 || ltb h.highest id)) [
      | inl refused ↦ inl (rw refused refl)
      | inr taken ↦ elim (Bool-cases (is_unseen (History.state h id))) [
        | inl fresh ↦ inr (ground arith, ground arith, ground arith, ground arith)
        | inr known ↦ inl (ground arith)
      ]
    ]

tell-IsLater : (h : Log) (c : Call) → IsLater h (tell h c).1
tell-IsLater h (asks id) = IsLater-refl h
tell-IsLater h (admits id) = admit-IsLater h id
tell-IsLater h (finishes id terminal) = elim (finish_cases h id terminal) [
  | inl same ↦ rw same (IsLater-refl h)
  | inr (o, l, u, same) ↦ rw same (record_result-IsLater h id terminal o l u)
]
tell-IsLater h closes = record {
  same_span = refl;
  highest_le = omega arith;
  still_closed = λ _. refl;
  kept = λ k a n. refl;
}

told-IsLater : (h : Log) (cs : List Call) → IsLater h (told h cs).1
told-IsLater h [] = IsLater-refl h
told-IsLater h (c ∷ cs) =
    IsLater-trans h (tell h c).1 (told (tell h c).1 cs).1 (tell-IsLater h c)
      (told-IsLater (tell h c).1 cs)

later-state :
    (h h' : Log) (id : ℕ) (s : Status)
    → IsLater h h'
    → is_terminal s ≡ true
    → History.state h id ≡ s
    → (History.state h' id ≡ s) ⊎ ((History.state h' id ≡ retired) ⊎ (History.state h' id ≡ closed))
later-state h h' id s x t e =
    let (o, a, b, same) : (h.is_closed ≡ false) × (0 < id) × (id ≤ h.highest) × (h.results id ≡ s) =
      (ground arith, ground arith, ground arith, ground arith) in
    let there : h'.results id ≡ s = x.kept id b (ground arith) ∙ same in
    ground (arith, x.highest_le)

-- In a new window that has seen any calls: an ID that is Completed or Expired keeps that status
-- over any further calls, until it is Retired or the window is Closed. It is never Unseen again.
pub finished-stays :
    (span : ℕ) (w : Window) (before after : List Call) (id : ℕ) (s : Status)
    → new span ≡ ok w
    → is_terminal s ≡ true
    → state (run w before).1 id ≡ s
    → let v = (run (run w before).1 after).1 in
      (state v id ≡ s) ⊎ ((state v id ≡ retired) ⊎ (state v id ≡ closed))
finished-stays span w before after id s e t now =
    let h = (told (empty_log span) before).1 in
    let (_, x) = run-Implements w (empty_log span) before (new-Implements span w e) in
    let (_, y) = run-Implements (run w before).1 h after x in
    let now' = sym (state-Implements (run w before).1 h id x) ∙ now in
    rw (state-Implements (run (run w before).1 after).1 (told h after).1 id y)
      (later-state h (told h after).1 id s (told-IsLater h after) t now')
