-- ===== src/AggregationV2/Sealing.antt =====
-- internal/aggregationv2/queue.go: what `Seal` takes from the queue, and that it gets on.
use mpudp.Prelude.{
  ℕ, suc, ◌+◌, ◌-◌, ◌≤◌, ◌<◌, ◌≡◌, ◌≢◌, refl, sym, ap, subst, ◌∙◌, List, [], ◌∷◌, ◌++◌, map, Bool,
  true, false, not, ◌&&◌, ◌==◌, arith, length, length-drop, total, ◌⊎◌, inl, inr, Option, some,
  Result, ok, ◌>>=◌,
}
use mpudp.FecV2
use mpudp.FecV2.{
  Parameters, Fragment, validate, logical_size, manifest_bytes, descriptor_bytes,
  max_descriptors_limit, payloads,
}
use mpudp.FecV2.Codec.{Group, shard_count, encode, prepared}
use mpudp.FecV2.Codec.Recovery.{prepared-sized}
use mpudp.Fec.Parts.{HasSize}
use mpudp.FecV2.Packing.{Cursor, encode_prefix, planned, validate_fragments}
use mpudp.FecV2.Packing.Consumed.{
  unconsumed, weight, encode_prefix-progress, encode_prefix-parts, IsConsumed, plan-IsConsumed,
}
use mpudp.FecV2.Packing.Consumed
use mpudp.FecV2.Packing.Fitting.{encode_prefix-outcome}
use mpudp.AggregationV2.{
  Scope, Limits, Entry, State, Plan, at, entries, queued, fragment_of, plan_from, plan_group,
  is_due,
}
use mpudp.AggregationV2.Queue.{Output, check, commit, emit, seal_planned, seal}
use mpudp.AggregationV2.Slots.{length-entries}
use mpudp.AggregationV2.Planning.{IsSound, IsOrdered, from_here, cursor-planned}
use mpudp.AggregationV2.Leaving.{
  left, plan_from-IsLeft, unconsumed-fragments, plan_from-valid, plan_from-starts,
}
use mpudp.AggregationV2.Validity.{IsValid, queued-suc}
use mpudp.AggregationV2.Committing.{commit-HasLeft}

-- What is still to be sent, in order.
abbrev pub waiting : State → List Fragment
waiting q = map fragment_of (queued q)

validate-room :
    (p : Parameters)
    → validate p ≡ ok tt
    → (manifest_bytes + descriptor_bytes ≤ p.max_logical_bytes)
      × (1 ≤ p.max_descriptors)
      × (p.max_descriptors ≤ max_descriptors_limit)
unfolding validate
validate-room p h = (ground arith, ground arith, ground arith)

-- What the Reed-Solomon library documents of `Encode`: it succeeds on `n` shards of `size` bytes each.
pub record IsEncoding (codec : List (List ℕ) → Option (List (List ℕ))) (n size : ℕ) : Type 0 where
  pub encodes :
      (shards : List (List ℕ))
      → length shards ≡ n
      → HasSize size shards
      → (full : List (List ℕ)) × (codec shards ≡ some full)

module _ {S : Type 0} (scope : Scope S) where
  module _ (codec : List (List ℕ) → Option (List (List ℕ))) where
    emit-computes :
        (s s' : S) (q : State) (now lease : ℕ) (pl : Plan) (g : Group) (c : Cursor)
        → encode_prefix codec q.epoch.parameters pl.fragments ≡ ok (g, c)
        → c ≡ pl.cursor
        → emit scope codec s s' q now lease pl ≡ (
          (commit scope s' q now pl.cursor).0,
          (commit scope s' q now pl.cursor).1,
          ok (
              some (record {
                epoch_id = q.epoch.id;
                group_id = q.next_group_id;
                group = g;
                lease = lease;
              })),
        )
    unfolding emit
    emit-computes s s' q now lease pl g c e same =
        let made = e ∙ ap (λ (k : Cursor). ok (g, k)) same in
        let eq1 : (pl.cursor.next == pl.cursor.next) ≡ true = ground arith in
        let eq2 : (pl.cursor.bytes == pl.cursor.bytes) ≡ true = ground arith in
        rw (made, emit) (rw (eq1, eq2))

    seal-plans :
        (s : S) (q : State) (now : ℕ) (force : Bool)
        → check scope s q now ≡ ok tt
        → 1 ≤ q.count
        → q.next_group_id ≢ 0
        → (force ≡ true) ⊎ (is_due q now (plan_group q) ≡ true)
        → seal scope codec s q now force ≡ seal_planned scope codec s q now (plan_group q)
    unfolding seal
    seal-plans s q now force c some_queued more due =
        let eq1 : (q.count == 0) ≡ false = ground arith in
        let eq2 : (q.next_group_id == 0) ≡ false = ground arith in
        let eq3 : (not force && not (is_due q now (plan_group q))) ≡ false = ground arith in
        rw (c, seal) (rw (eq1, eq2, eq3))

    seal_planned-emits :
        (s s' : S) (q : State) (now lease : ℕ) (pl : Plan) (f : Fragment) (fs : List Fragment)
        → pl.fragments ≡ f ∷ fs
        → scope.reserve s q.output_bytes ≡ ok (s', lease)
        → seal_planned scope codec s q now pl ≡ emit scope codec s s' q now lease pl
    unfolding seal_planned
    seal_planned-emits s s' q now lease pl f fs e r =
        let eq : (length pl.fragments == 0) ≡ false = rw e (ground arith) in
        rw (r, seal_planned) (rw eq)

    encode-total :
        (p : Parameters) (fs : List Fragment) (size : ℕ)
        → IsEncoding codec (shard_count p) p.shard_bytes
        → validate p ≡ ok tt
        → logical_size p fs ≡ ok size
        → (g : Group) × (encode codec p fs ≡ ok g)
    unfolding encode
    encode-total p fs size library accepted e =
        let (many, sized) = prepared-sized p fs size accepted e in
        let (full, made) = library.encodes (prepared p fs) many sized in
        (record { logical_bytes = size; shards = full }, rw e (rw made))

    encode_nil : (p : Parameters) (g : Group) → encode codec p [] ≢ ok g
    unfolding encode logical_size
    encode_nil p g e = cc

    -- Fragments that start with a sound entry's are encoded.
    group_of :
        (p : Parameters) (l : Limits) (first : Entry) (fs : List Fragment)
        → validate p ≡ ok tt
        → IsSound p l first
        → validate_fragments p 0 (fragment_of first ∷ fs) ≡ ok tt
        → length (fragment_of first ∷ fs) ≤ p.max_descriptors
        → IsEncoding codec (shard_count p) p.shard_bytes
        → (g : Group) × (encode_prefix codec p (fragment_of first ∷ fs)
            ≡ ok (g, (planned p (fragment_of first ∷ fs)).1))
    group_of p l first fs accepted sound valid few library =
        let (room, one, few_descriptors) = validate-room p accepted in
        let fits = sound.fits in
        elim (encode_prefix-outcome codec p (fragment_of first) fs accepted (omega arith) valid) [
          | inl (full, pay, _) ↦ absurd (omega (arith, length-drop first.offset first.payload))
          | inr (size, sized, _, result) ↦
              let (g, made) =
                encode-total p (planned p (fragment_of first ∷ fs)).0 size library accepted sized in
              (
                g,
                result
                    ∙ ap
                        (λ (r : Result FecV2.Error Group).
                          r >>= λ k. ok (k, (planned p (fragment_of first ∷ fs)).1))
                        made,
              )
        ]

    -- Let the library's `Encode` succeed on as many shards as the epoch's parameters say, of their size. On a valid
    -- queue that holds something and has group IDs left, a forced or due `Seal` whose reservation succeeds returns a
    -- group. The group encodes what the queue sends next, up
    -- to a place `n` and `b` bytes; the queue is left valid, waiting with exactly the rest, in order, which is less than before.
    pub seal-progress :
        (s s' : S) (q : State) (now lease : ℕ) (force : Bool)
        → IsValid q
        → check scope s q now ≡ ok tt
        → 1 ≤ q.count
        → q.next_group_id ≢ 0
        → (force ≡ true) ⊎ (is_due q now (plan_group q) ≡ true)
        → scope.reserve s q.output_bytes ≡ ok (s', lease)
        → IsEncoding codec (shard_count q.epoch.parameters) q.epoch.parameters.shard_bytes
        → (s'' : S) × (q' : State) × (o : Output) × (n : ℕ) × (b : ℕ) × (seal scope codec s q now
              force
            ≡ (s'', q', ok (some o)))
          × IsValid q'
          × (encode codec q.epoch.parameters (Consumed.consumed n b (waiting q)) ≡ ok o.group)
          × (o.group_id ≡ q.next_group_id)
          × (o.lease ≡ lease)
          × (waiting q' ≡ unconsumed n b (waiting q))
          × (payloads (Consumed.consumed n b (waiting q)) ++ payloads (waiting q')
              ≡ payloads (waiting q))
          × (total weight (waiting q') < total weight (waiting q))
    unfolding plan_group
    seal-progress s s' q now lease force v checked some_queued more due reserved library =
        let p = q.epoch.parameters in
        let l = q.limits in
        let e : q.count ≡ suc (q.count - 1) = omega arith in
        let first = at q.ring q.head 0 in
        let rest = entries q.ring q.head 1 (q.count - 1) in
        let all = queued-suc q (q.count - 1) e in
        let (room, one, few_descriptors) = validate-room p v.accepted in
        let pl = plan_group q in
        let (fs, begins) =
          plan_from-starts p l 0 first rest (subst (IsOrdered p l 0) all v.ordered) one room in
        let started : pl.fragments ≡ fragment_of first ∷ fs =
          ap
            (λ (es : List Entry).
              (plan_from p l.max_fragments 0 manifest_bytes 0 (from_here 0) es).fragments)
            all
          ∙ begins in
        let x = plan_from-IsLeft p l 0 0 manifest_bytes 0 (queued q) v.ordered in
        let (valid, few) =
          plan_from-valid p l 0 0 manifest_bytes 0 (queued q) v.datagrams_fit (omega arith)
            v.ordered in
        let sound = (subst (IsOrdered p l 0) all v.ordered).1 in
        let (g, encoded) =
          group_of p l first fs v.accepted sound
            (subst (λ (k : List Fragment). validate_fragments p 0 k ≡ ok tt) started valid)
            (subst (λ (k : List Fragment). length k ≤ p.max_descriptors) started
              (omega (arith, few)))
            library in
        let c = pl.cursor in
        let made : encode_prefix codec p pl.fragments ≡ ok (g, (planned p pl.fragments).1) =
          subst (λ (k : List Fragment). encode_prefix codec p k ≡ ok (g, (planned p k).1))
            (sym started) encoded in
        let agrees : (planned p pl.fragments).1 ≡ c =
          cursor-planned p l.max_fragments 0 manifest_bytes 0 (queued q) in
        let at_cursor : encode_prefix codec p pl.fragments ≡ ok (g, c) =
          made ∙ ap (λ (k : Cursor). ok (g, k)) agrees in
        let (coded, _, _, _, _) = encode_prefix-progress codec p pl.fragments g c at_cursor in
        let whole : c.next - 0 ≡ c.next = omega arith in
        let same : Consumed.consumed c.next c.bytes pl.fragments
            ≡ Consumed.consumed c.next c.bytes (waiting q) =
          subst
            (λ (m : ℕ).
              Consumed.consumed m c.bytes pl.fragments ≡ Consumed.consumed m c.bytes (waiting q))
            whole x.same in
        let within : c.next ≤ q.count =
          omega (arith, x.within, length-entries q.ring q.head 0 q.count) in
        let ordered =
          subst (λ (m : ℕ). IsOrdered p l 0 (left m c.bytes (queued q))) whole x.ordered in
        let inside =
          subst (λ (m : ℕ). Consumed.IsInside m c.bytes (waiting q)) whole x.in_payload in
        let (valid', holds) =
          commit-HasLeft scope s' q now c v within (omega arith)
            (λ k. x.inside (omega (arith, k, length-entries q.ring q.head 0 q.count))) ordered in
        let q' = (commit scope s' q now c).1 in
        let after : waiting q' ≡ unconsumed c.next c.bytes (waiting q) =
          ap (map fragment_of) holds ∙ sym (unconsumed-fragments c.next c.bytes (queued q)) in
        let taken_some : Consumed.consumed c.next c.bytes (waiting q) ≢ [] = λ k.
          encode_nil p g (ap (encode codec p) (sym k) ∙ ap (encode codec p) (sym same) ∙ coded) in
        (
          (commit scope s' q now c).0,
          q',
          record { epoch_id = q.epoch.id; group_id = q.next_group_id; group = g; lease = lease },
          c.next,
          c.bytes,
          seal-plans s q now force checked some_queued more due
              ∙ seal_planned-emits s s' q now lease pl (fragment_of first) fs started reserved
              ∙ emit-computes s s' q now lease pl g c at_cursor refl,
          valid',
          ap (encode codec p) (sym same) ∙ coded,
          refl,
          refl,
          after,
          ap
                (λ (k : List Fragment).
                  payloads (Consumed.consumed c.next c.bytes (waiting q)) ++ payloads k)
                after
              ∙ Consumed.consumed-unconsumed c.next c.bytes (waiting q),
          subst (λ (k : List Fragment). total weight k < total weight (waiting q)) (sym after)
              (Consumed.unconsumed-lt c.next c.bytes (waiting q) inside taken_some),
        )
