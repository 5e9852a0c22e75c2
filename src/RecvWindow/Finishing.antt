-- ===== src/RecvWindow/Finishing.antt =====
-- internal/recvwindow/window.go: `Finish` on a window and on its history.
use mpudp.Prelude.{
  ℕ, ◌%◌, ◌≤◌, ◌<◌, ◌≡◌, ◌≢◌, refl, sym, subst, ◌∙◌, Bool, true, false, not, ◌||◌, ◌==◌, ltb, ◌⊎◌,
  inl, inr, arith, Bool-cases,
}
use mpudp.RecvWindow.{
  Status, unseen, completed, expired, retired, is_unseen, is_terminal, same_terminal, Window, state,
  set_bit, finish,
}
use mpudp.RecvWindow.History
use mpudp.RecvWindow.History.{Log}
use mpudp.RecvWindow.Refinement.{Implements, state-Implements}
use mpudp.RecvWindow.Steps.{Agrees, unseen-free, done_set-Implements, lost_set-Implements}

-- Both sides refuse the call, or both go by the ID's status.
abbrev refuses : Window → ℕ → Status → Bool
refuses w id terminal =
    w.span == 0 || not (is_terminal terminal) || w.is_closed || id == 0 || ltb w.highest id

status_cases :
    (s : Status) → (s ≡ unseen) ⊎ ((s ≡ retired) ⊎ ((is_unseen s ≡ false) × (s ≢ retired)))
status_cases s = ground arith

terminal_cases : (s : Status) → is_terminal s ≡ true → (s ≡ completed) ⊎ (s ≡ expired)
terminal_cases s t = ground arith

unchanged-Agrees :
    (w : Window) (h : Log) (id : ℕ) (terminal : Status) (b : Bool)
    → Implements w h
    → finish w id terminal ≡ (b, w)
    → History.finish h id terminal ≡ (b, h)
    → Agrees (finish w id terminal) (History.finish h id terminal)
unchanged-Agrees w h id terminal b x e e' = rw (e, e') (refl, x)

finish-refused :
    (w : Window) (id : ℕ) (terminal : Status)
    → refuses w id terminal ≡ true
    → finish w id terminal ≡ (false, w)
unfolding finish
finish-refused w id terminal r = rw r refl

finish-kept :
    (w : Window) (id : ℕ) (terminal : Status) (b : Bool)
    → refuses w id terminal ≡ false
    → ((state w id ≡ retired) × (b ≡ true))
      ⊎ ((is_unseen (state w id) ≡ false)
          × (state w id ≢ retired)
          × (b ≡ same_terminal (state w id) terminal))
    → finish w id terminal ≡ (b, w)
unfolding finish
finish-kept w id terminal b r s = ground arith

finish-done :
    (w : Window) (h : Log) (id : ℕ)
    → Implements w h
    → refuses w id completed ≡ false
    → state w id ≡ unseen
    → (finish w id completed ≡ (true, record w { done = set_bit w.done (id % w.span) }))
      × (History.finish h id completed ≡ (true, History.record_result h id completed))
unfolding finish
finish-done w h id x r u =
    let st = state-Implements w h id x in
    (ground arith, ground (arith, st, x.same_highest, x.same_closed))

finish-lost :
    (w : Window) (h : Log) (id : ℕ)
    → Implements w h
    → refuses w id expired ≡ false
    → state w id ≡ unseen
    → (finish w id expired ≡ (true, record w { lost = set_bit w.lost (id % w.span) }))
      × (History.finish h id expired ≡ (true, History.record_result h id expired))
unfolding finish
finish-lost w h id x r u =
    let st = state-Implements w h id x in
    (ground arith, ground (arith, st, x.same_highest, x.same_closed))

set-Agrees :
    (w : Window) (h : Log) (id : ℕ) (terminal : Status) (w' : Window) (h' : Log)
    → (finish w id terminal ≡ (true, w')) × (History.finish h id terminal ≡ (true, h'))
    → Implements w' h'
    → Agrees (finish w id terminal) (History.finish h id terminal)
set-Agrees w h id terminal w' h' (e, e') x = rw (e, e') (refl, x)

pub finish-Agrees :
    (w : Window) (h : Log) (id : ℕ) (terminal : Status)
    → Implements w h
    → Agrees (finish w id terminal) (History.finish h id terminal)
finish-Agrees w h id terminal x =
    let st = state-Implements w h id x in
    elim (Bool-cases (refuses w id terminal)) [
      | inl r ↦
          unchanged-Agrees w h id terminal false x (finish-refused w id terminal r)
            (ground (arith, x.some_span, x.same_highest, x.same_closed))
      | inr r ↦ elim (status_cases (state w id)) [
        | inl u ↦
            let (o, a, b, t) : (w.is_closed ≡ false)
                × (0 < id)
                × (id ≤ w.highest)
                × (is_terminal terminal ≡ true) =
              (ground arith, ground arith, ground arith, ground arith) in
            let (s, free) = unseen-free w h id x o a b (sym st ∙ u) in
            elim (terminal_cases terminal t) [
              | inl e ↦
                  let r' = subst (λ (v : Status). refuses w id v ≡ false) e r in
                  subst (λ (v : Status). Agrees (finish w id v) (History.finish h id v)) (sym e)
                    (set-Agrees w h id completed _ _ (finish-done w h id x r' u)
                      (done_set-Implements w h id x s free o))
              | inr e ↦
                  let r' = subst (λ (v : Status). refuses w id v ≡ false) e r in
                  subst (λ (v : Status). Agrees (finish w id v) (History.finish h id v)) (sym e)
                    (set-Agrees w h id expired _ _ (finish-lost w h id x r' u)
                      (lost_set-Implements w h id x s free o))
            ]
        | inr (inl gone) ↦
            unchanged-Agrees w h id terminal true x
              (finish-kept w id terminal true r (inl (gone, refl)))
              (ground (arith, st, x.same_highest, x.same_closed))
        | inr (inr (known, n)) ↦
            unchanged-Agrees w h id terminal (same_terminal (state w id) terminal) x
              (finish-kept w id terminal _ r (inr (known, n, refl)))
              (ground (arith, st, x.same_highest, x.same_closed))
      ]
    ]
