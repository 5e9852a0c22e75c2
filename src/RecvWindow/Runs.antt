-- ===== src/RecvWindow/Runs.antt =====
-- internal/recvwindow/window.go: what callers see of a window, over any sequence of calls.
use mpudp.Prelude.{ℕ, ◌≡◌, refl, ap, List, [], ◌∷◌, Bool, false, ok}
use mpudp.RecvWindow.{Status, unseen, Window, new, state, admit, finish, close, ones_count}
use mpudp.RecvWindow.History
use mpudp.RecvWindow.History.{Log}
use mpudp.RecvWindow.Refinement.{Implements, state-Implements, close-Implements, new-Implements}
use mpudp.RecvWindow.Steps.{admit-Agrees}
use mpudp.RecvWindow.Finishing.{finish-Agrees}

pub data Call : Type 0 where
  asks : ℕ → Call
  admits : ℕ → Call
  finishes : ℕ → Status → Call
  closes : Call

pub data Answer : Type 0 where
  says : Status → Answer
  agrees : Bool → Answer
  silent : Answer

unfoldable pub call : Window → Call → Answer × Window
unfolding admit finish close
call w (asks id) = (says (state w id), w)
call w (admits id) = let (s, w') = admit w id in (says s, w')
call w (finishes id terminal) = let (b, w') = finish w id terminal in (agrees b, w')
call w closes = (silent, close w)

-- The same calls on the history.
abbrev pub tell : Log → Call → Answer × Log
tell h (asks id) = (says (History.state h id), h)
tell h (admits id) = let (s, h') = History.admit h id in (says s, h')
tell h (finishes id terminal) = let (b, h') = History.finish h id terminal in (agrees b, h')
tell h closes = (silent, History.close h)

-- A sequence of calls: the answers, and the state at the end.
unfoldable pub run : Window → List Call → List Answer × Window
unfolding call
run w [] = ([], w)
run w (c ∷ cs) = let (a, w') = call w c in let (rest, w'') = run w' cs in (a ∷ rest, w'')

abbrev pub told : Log → List Call → List Answer × Log
told h [] = ([], h)
told h (c ∷ cs) = let (a, h') = tell h c in let (rest, h'') = told h' cs in (a ∷ rest, h'')

call-Implements :
    (w : Window) (h : Log) (c : Call)
    → Implements w h
    → ((call w c).0 ≡ (tell h c).0) × Implements (call w c).1 (tell h c).1
unfolding call
call-Implements w h (asks id) x = (ap says (state-Implements w h id x), x)
call-Implements w h (admits id) x = let (e, y) = admit-Agrees w h id x in (ap says e, y)
call-Implements w h (finishes id terminal) x =
    let (e, y) = finish-Agrees w h id terminal x in (ap agrees e, y)
call-Implements w h closes x = (refl, close-Implements w h x)

pub run-Implements :
    (w : Window) (h : Log) (cs : List Call)
    → Implements w h
    → ((run w cs).0 ≡ (told h cs).0) × Implements (run w cs).1 (told h cs).1
unfolding run
run-Implements w h [] x = (refl, x)
run-Implements w h (c ∷ cs) x =
    let (e, y) = call-Implements w h c x in
    let (es, z) = run-Implements (call w c).1 (tell h c).1 cs y in ((λ k. e k ∷ es k), z)

abbrev pub empty_log : ℕ → Log
empty_log span = record { span = span; highest = 0; results = λ _. unseen; is_closed = false }

-- Over any sequence of calls, a new window gives the very answers of a history that remembers the
-- result of every ID and shows the last `span` of them.
pub run-eq-told :
    (span : ℕ) (w : Window) (cs : List Call)
    → new span ≡ ok w
    → (run w cs).0 ≡ (told (empty_log span) cs).0
run-eq-told span w cs e = (run-Implements w (empty_log span) cs (new-Implements span w e)).0

-- Over any sequence of calls, a new window's two counts stay the numbers of set bits in its bitmaps.
pub run-counted :
    (span : ℕ) (w : Window) (cs : List Call)
    → new span ≡ ok w
    → let v = (run w cs).1 in
      (v.done.count ≡ ones_count v.done.bits 0 v.span)
      × (v.lost.count ≡ ones_count v.lost.bits 0 v.span)
run-counted span w cs e =
    let (_, x) = run-Implements w (empty_log span) cs (new-Implements span w e) in
    (x.done_counted, x.lost_counted)
