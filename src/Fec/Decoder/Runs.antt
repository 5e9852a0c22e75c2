-- ===== src/Fec/Decoder/Runs.antt =====
-- internal/fec/decoder.go: sequences of the Decoder's calls.
use mpudp.Prelude.{
  ℕ, ◌+◌, ◌≤◌, ◌≡◌, ◌⊎◌, refl, sym, ap, ◌∙◌, subst, List, [], ◌∷◌, Bool, true, false, ◌==◌,
  if◌then◌else◌, Option, none, some, ok, arith, Bool-cases, inl, inr, Option-cases,
}
use mpudp.Fec.Receiver.{Receiver, empty_receiver, Reach, here}
use mpudp.Fec.Delivery.{delivered_once}
use mpudp.Fec.Decoder.{
  IncomingShard, Decoder, DecoderConfig, find, is_found, new_decoder, new_replay, close,
}
use mpudp.Fec.Decoder.Expiration.{sweep, sweep_locked}
use mpudp.Fec.Decoder.Adding.{add_verified_shard}
use mpudp.Fec.Decoder.Cases.{delivery, new_decoder-parts}
use mpudp.Fec.Decoder.Following.{Shows, key, Follows, Reach-trans, hits, sweep_locked-Follows}
use mpudp.Fec.Decoder.Answering.{add_verified_shard-Follows}

pub data Call : Type 0 where
  adds : ℕ → IncomingShard → Call
  sweeps : ℕ → Call
  closes : Call

abbrev pub prepend {ℓ} : {A : Type ℓ} → Option A → List A → List A
prepend none xs = xs
prepend (some x) xs = x ∷ xs

module _ (reconstruct : List (List ℕ) → Option (List (List ℕ))) where
  -- The Decoder after a call, and the Datagram that it returns.
  unfoldable pub after : Decoder → Call → Decoder × Option (ℕ × List ℕ)
  after d (adds now input) =
      let (d', answer) = add_verified_shard reconstruct now d input in (d', delivery input answer)
  after d (sweeps now) = ((sweep now d).0, none)
  after d closes = (close d, none)

  -- The Datagrams that the calls return, with their packet IDs.
  unfoldable pub deliveries : Decoder → List Call → List (ℕ × List ℕ)
  deliveries d [] = []
  deliveries d (c ∷ cs) = prepend (after d c).1 (deliveries (after d c).0 cs)

abbrev pub times : ℕ → List (ℕ × List ℕ) → ℕ
times id [] = 0
times id ((k, datagram) ∷ rest) = (if id == k then 1 else 0) + times id rest

-- A Decoder with a window is closed, or shows what a Receiver has become.
abbrev pub IsFollowed : List ℕ → Decoder → Receiver → Type 0
IsFollowed session d r = (d.closed ≡ true) ⊎ Shows session d r

module _ (reconstruct : List (List ℕ) → Option (List (List ℕ))) (session : List ℕ) where
  closed-quiet :
      (d : Decoder) (c : Call)
      → d.closed ≡ true
      → ((after reconstruct d c).0.closed ≡ true) × ((after reconstruct d c).1 ≡ none)
  unfolding after sweep close add_verified_shard
  closed-quiet d (adds now input) shut = (ground (arith, shut), ground (arith, shut))
  closed-quiet d (sweeps now) shut = (ground (arith, shut), refl)
  closed-quiet d closes shut = (ground (arith, shut), refl)

  after-Follows :
      (d : Decoder) (r : Receiver) (c : Call)
      → Shows session d r
      → ((after reconstruct d c).0.closed ≡ true) × ((after reconstruct d c).1 ≡ none)
        ⊎ Follows session r (after reconstruct d c).0 (hits (after reconstruct d c).1)
  unfolding after sweep
  after-Follows d r (adds now input) x =
      inr (unfold after in add_verified_shard-Follows reconstruct session now input d r x)
  after-Follows d r (sweeps now) x = elim (Bool-cases d.closed) [
    | inl shut ↦ inl (closed-quiet d (sweeps now) shut)
    | inr live ↦ inr (
        subst (λ (s : Decoder). Follows session r s (hits none)) (sym (same live))
          (sweep_locked-Follows session now d r x))
  ]
    where
      same : d.closed ≡ false → (sweep now d).0 ≡ (sweep_locked now d).0
      same live = unfold sweep in ground (arith, live)
  after-Follows d r closes x = inl (unfold after close in ground arith, unfold after in refl)

  times-deliveries :
      (d : Decoder) (c : Call) (cs : List Call) (id : ℕ)
      → times id (deliveries reconstruct d (c ∷ cs))
        ≡ hits (after reconstruct d c).1 id
          + times id (deliveries reconstruct (after reconstruct d c).0 cs)
  unfolding deliveries
  times-deliveries d c cs id = elim (Option-cases (after reconstruct d c).1) [
    | inl nothing ↦ rw (nothing, deliveries) (omega arith)
    | inr ((k, datagram), found) ↦ rw (found, deliveries) refl
  ]

  deliveries-reached :
      (cs : List Call) (d : Decoder) (r : Receiver)
      → IsFollowed session d r
      → (r' : Receiver) × Reach r r'
        × ((id : ℕ) → r'.delivered id ≡ r.delivered id + times id (deliveries reconstruct d cs))
  deliveries-reached [] d r x = (r, here, λ id. unfold deliveries in omega arith)
  deliveries-reached (c ∷ cs) d r (inl shut) =
      let (shut', quiet) = closed-quiet d c shut in
      let (r', m, counted) = deliveries-reached cs (after reconstruct d c).0 r (inl shut') in
      (
        r',
        m,
        λ id.
            let a = counted id in
            let b = times-deliveries d c cs id in
            let q = ap (λ (o : Option (ℕ × List ℕ)). hits o id) quiet in omega arith,
      )
  deliveries-reached (c ∷ cs) d r (inr x) = elim (after-Follows d r c x) [
    | inl (shut, quiet) ↦
        let (r', m, counted) = deliveries-reached cs (after reconstruct d c).0 r (inl shut) in
        (
          r',
          m,
          λ id.
              let a = counted id in
              let b = times-deliveries d c cs id in
              let q = ap (λ (o : Option (ℕ × List ℕ)). hits o id) quiet in omega arith,
        )
    | inr (s, n, y, one) ↦
        let (r', m, counted) = deliveries-reached cs (after reconstruct d c).0 s (inr y) in
        (
          r',
          Reach-trans n m,
          λ id.
              let a = counted id in
              let b = times-deliveries d c cs id in let o = one id in omega arith,
        )
  ]

  pub new_decoder-Shows :
      (accepts : ℕ → ℕ → Bool) (config : DecoderConfig) (d : Decoder)
      → config.replay_window ≡ some session
      → new_decoder accepts config ≡ ok d
      → Shows session d empty_receiver
  new_decoder-Shows accepts config d direction made =
      let (limits, count, _, _, _, _, same) = new_decoder-parts accepts config d made in
      record {
        window = ap (λ (s : Decoder). s.replay) same ∙ ap new_replay direction;
        blocks = λ id. ap (λ (s : Decoder). is_found (find s.pending (key session id))) same;
      }

  -- A new Decoder with a replay window returns at most one Datagram for a packet ID, whatever shards, sweeps
  -- and closings it sees, at whatever times.
  pub deliveries-once :
      (accepts : ℕ → ℕ → Bool) (config : DecoderConfig) (d : Decoder) (cs : List Call) (id : ℕ)
      → config.replay_window ≡ some session
      → new_decoder accepts config ≡ ok d
      → times id (deliveries reconstruct d cs) ≤ 1
  deliveries-once accepts config d cs id direction made =
      let x = new_decoder-Shows accepts config d direction made in
      let (r, m, counted) = deliveries-reached cs d empty_receiver (inr x) in
      let (once, _) = delivered_once r id m in let c = counted id in omega arith
