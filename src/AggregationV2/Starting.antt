-- ===== src/AggregationV2/Starting.antt =====
-- internal/aggregationv2/queue.go: a new queue is valid and empty.
use mpudp.Prelude.{
  ℕ, ◌≤◌, ◌≡◌, refl, subst, ◌∙◌, [], arith, length-replicate, inr, Result, ok, err, >>=-eq-ok, Bool,
  reject_if, not, ltb, ◌||◌, ◌==◌,
}
use mpudp.FecV2
use mpudp.AggregationV2.{
  Error, from_codec, Scope, Limits, Epoch, no_entry, State, queued, required_initial_bytes,
}
use mpudp.AggregationV2.Queue.{credit, coded, new_queue, prepare, new}
use mpudp.AggregationV2.Validity.{IsValid}

required-parts :
    (l : Limits) (bytes : ℕ)
    → required_initial_bytes l ≡ ok bytes
    → (1 ≤ l.max_queued_datagrams) × (l.max_queued_bytes ≤ 1073741824)
unfolding required_initial_bytes
required-parts l bytes h = (ground arith, ground arith)

coded-ok : (r : Result FecV2.Error (Unit {0})) → coded r ≡ ok tt → r ≡ ok tt
coded-ok (err cause) h = cc
coded-ok (ok u) h = refl

module _ {S : Type 0} (scope : Scope S) (accepts : ℕ → ℕ → Bool) where
  prepare-parts :
      (s : S) (l : Limits) (e : Epoch) (bytes : ℕ)
      → prepare scope accepts s l e ≡ ok bytes
      → (required_initial_bytes l ≡ ok bytes)
        × (FecV2.validate e.parameters ≡ ok tt)
        × (l.max_datagram_bytes ≤ e.parameters.max_datagram_bytes)
  unfolding prepare
  prepare-parts s l e bytes h =
      let (_, _, h1) =
        >>=-eq-ok (reject_if (scope.is_closed s || scope.is_pending s) Error.invalid) _ h in
      let (b, required, h2) = >>=-eq-ok (required_initial_bytes l) _ h1 in
      let (_, _, h3) = >>=-eq-ok (reject_if (e.id == 0) Error.invalid) _ h2 in
      let (_, valid, h4) = >>=-eq-ok (coded (FecV2.validate e.parameters)) _ h3 in
      let (_, _, h5) =
        >>=-eq-ok
          (reject_if (not (accepts e.parameters.data_shards e.parameters.parity_shards))
            (from_codec FecV2.invalid))
          _ h4 in
      let (_, fits, h6) =
        >>=-eq-ok
          (reject_if (ltb e.parameters.max_datagram_bytes l.max_datagram_bytes) Error.invalid) _
          h5 in
      (required ∙ h6, coded-ok (FecV2.validate e.parameters) valid, ground (arith, fits))

  -- A queue that `New` returns is valid and holds nothing.
  pub new-IsValid :
      (s s' : S) (l : Limits) (e : Epoch) (q : State)
      → new scope accepts s l e ≡ ok (s', q)
      → IsValid q × (queued q ≡ [])
  unfolding new new_queue
  new-IsValid s s' l e q h =
      let (bytes, prepared, h1) = >>=-eq-ok (prepare scope accepts s l e) _ h in
      let ((s1, lease), _, h2) = >>=-eq-ok (credit (scope.reserve s bytes)) _ h1 in
      let (required, valid, fits) = prepare-parts s l e bytes prepared in
      let (some_slot, small) = required-parts l bytes required in
      let same : new_queue l e lease ≡ q = ground (arith, h2) in
      let len = length-replicate l.max_queued_datagrams no_entry in
      subst (λ (k : State). IsValid k × (queued k ≡ [])) same
        (
          record {
            head_in = omega (arith, len);
            count_in = omega arith;
            retained = refl;
            retained_in = omega arith;
            bytes_range = small;
            accepted = valid;
            datagrams_fit = fits;
            ordered = tt;
            below = inr tt;
            id_range = omega arith;
            is_open = refl;
          },
          refl,
        )
