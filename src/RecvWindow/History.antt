-- ===== src/RecvWindow/History.antt =====
-- What a window of IDs promises: every ID keeps its result, and the last `span` IDs are shown.
use mpudp.Prelude.{ℕ, ◌+◌, Bool, true, false, not, ◌&&◌, ◌||◌, ◌==◌, ltb, leb, if◌then◌else◌}
use mpudp.RecvWindow.{
  Status, unseen, retired, invalid_id, closed, is_unseen, is_terminal, same_terminal,
}

-- The abstract window: a result for every ID, kept for ever, of which the last `span` are shown.
pub record Log : Type 0 where
  pub span : ℕ
  pub highest : ℕ
  pub results : ℕ → Status
  pub is_closed : Bool

abbrev pub state : Log → ℕ → Status
state h id =
    if h.is_closed
    then closed
    else if id == 0
    then invalid_id
    else if leb (id + h.span) h.highest
    then retired
    else if ltb h.highest id
    then unseen
    else h.results id

abbrev pub admit : Log → ℕ → Status × Log
admit h id =
    if is_unseen (state h id) && ltb h.highest id
    then (unseen, record h { highest = id })
    else (state h id, h)

abbrev pub record_result : Log → ℕ → Status → Log
record_result h id terminal = record h { results = λ k. if k == id then terminal else h.results k }

abbrev pub finish : Log → ℕ → Status → Bool × Log
finish h id terminal =
    if not (is_terminal terminal) || h.is_closed || id == 0 || ltb h.highest id
    then (false, h)
    else elim (state h id) [
      | retired ↦ (true, h)
      | unseen ↦ (true, record_result h id terminal)
      | status ↦ (same_terminal status terminal, h)
    ]

abbrev pub close : Log → Log
close h = record h { is_closed = true }
