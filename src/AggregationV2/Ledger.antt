-- ===== src/AggregationV2/Ledger.antt =====
-- internal/creditv2: one of its Sessions is a scope for the queue.
use mpudp.Prelude.{ℕ, Bool, true, false, get_elem?, none, some, Result, ok, err}
use mpudp.Credit
use mpudp.Credit.{Session, Lease, Claim, Peer}
use mpudp.Credit.Operations.{Handle}
use mpudp.Credit.Operations
use mpudp.AggregationV2.{Scope}

abbrev pub bytes_only : ℕ → Claim
bytes_only n = record { bytes = n; business_stream = false; pending_accept = false }

-- `Snapshot` on the Session at `i`; a missing one counts as closed.
abbrev pub session_closed : Peer → ℕ → Bool
session_closed p i = elim (get_elem? p.sessions i) [ none ↦ true | some s ↦ s.closed ]

abbrev pub session_pending : Peer → ℕ → Bool
session_pending p i = elim (get_elem? p.sessions i) [ none ↦ false | some s ↦ s.pending_handshake ]

abbrev pub bound_place : Result Credit.Error (Peer × Handle) → Result Credit.Error (Peer × ℕ)
bound_place (err cause) = err cause
bound_place (ok (p, h)) = ok (p, h.place)

abbrev pub ledger_scope : ℕ → Scope Peer
ledger_scope i = record {
  is_closed = λ p. session_closed p i;
  is_pending = λ p. session_pending p i;
  reserve = λ p bytes. Operations.reserve p (some i) (bytes_only bytes);
  bind_bytes = λ p lease bytes.
      bound_place
        (Operations.bind_bytes p (some i) (some (record { peer = p.name; place = lease })) bytes);
  release = λ p lease. Operations.release p (some lease);
}
