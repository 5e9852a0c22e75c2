-- ===== src/ReassemblyV2/Ledger.antt =====
-- internal/creditv2: one of its Sessions is a scope for the Receiver.
use mpudp.Prelude.{ℕ, some, Result, ok, err}
use mpudp.Credit
use mpudp.Credit.{Peer}
use mpudp.Credit.Operations
use mpudp.ReassemblyV2.Receiver.{Scope}
use mpudp.AggregationV2.Ledger.{bytes_only, session_closed, session_pending, bound_place}

-- An error of `ShrinkBytes` is ignored.
abbrev pub or_same : Peer → Result Credit.Error Peer → Peer
or_same p (err cause) = p
or_same p (ok p') = p'

abbrev pub ledger_scope : ℕ → Scope Peer
ledger_scope i = record {
  is_closed = λ p. session_closed p i;
  is_pending = λ p. session_pending p i;
  reserve = λ p bytes. Operations.reserve p (some i) (bytes_only bytes);
  bind_bytes = λ p lease bytes.
      bound_place
        (Operations.bind_bytes p (some i) (some (record { peer = p.name; place = lease })) bytes);
  release = λ p lease. Operations.release p (some lease);
  shrink_bytes = λ p lease bytes. or_same p (Operations.shrink_bytes p (some lease) bytes);
}
