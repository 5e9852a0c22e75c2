-- ===== src/RecvWindow/Tests.antt =====
-- internal/recvwindow/window.go: the theorems at a window of three IDs.
use mpudp.Prelude.{◌≡◌, refl, ◌⊎◌, List, [], ◌∷◌, true, false, ok}
use mpudp.RecvWindow.{
  unseen, completed, expired, retired, closed, Window, no_bits, new, floor, state, admit, advance,
  clear_ring, clear_mask, ones_count, set_bit, finish, close,
}
use mpudp.RecvWindow.Runs.{
  Call, asks, admits, finishes, says, agrees, call, run, told, empty_log, run-eq-told, run-counted,
}
use mpudp.RecvWindow.Stable.{finished-stays}

abbrev window : Window
window = record { span = 3; highest = 0; done = no_bits; lost = no_bits; is_closed = false }

window-made : new 3 ≡ ok window
unfolding new
window-made = refl

abbrev finish_one : List Call
finish_one = admits 1 ∷ finishes 1 completed ∷ []

abbrev go_on : List Call
go_on =
    asks 1
    ∷ admits 3
    ∷ finishes 3 expired
    ∷ asks 2
    ∷ admits 5
    ∷ asks 1
    ∷ asks 4
    ∷ finishes 5 completed
    ∷ finishes 3 completed
    ∷ []

ran :
    (run (run window finish_one).1 go_on).0
    ≡ says completed
      ∷ says unseen
      ∷ agrees true
      ∷ says unseen
      ∷ says unseen
      ∷ says retired
      ∷ says unseen
      ∷ agrees true
      ∷ agrees false
      ∷ []
unfolding run call admit finish close state floor advance clear_ring clear_mask ones_count set_bit
ran = refl

one_finished : state (run window finish_one).1 1 ≡ completed
unfolding run call admit finish close state floor advance clear_ring clear_mask ones_count set_bit
one_finished = refl

run-eq-told_example : (run window go_on).0 ≡ (told (empty_log 3) go_on).0
run-eq-told_example = run-eq-told 3 window go_on window-made

run-counted_example :
    let v = (run window go_on).1 in
    (v.done.count ≡ ones_count v.done.bits 0 v.span)
    × (v.lost.count ≡ ones_count v.lost.bits 0 v.span)
run-counted_example = run-counted 3 window go_on window-made

finished-stays_example :
    let v = (run (run window finish_one).1 go_on).1 in
    (state v 1 ≡ completed) ⊎ ((state v 1 ≡ retired) ⊎ (state v 1 ≡ closed))
finished-stays_example =
    finished-stays 3 window finish_one go_on 1 completed window-made refl one_finished
