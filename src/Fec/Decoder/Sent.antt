-- ===== src/Fec/Decoder/Sent.antt =====
-- internal/fec: from an Encoder's blocks to a Decoder's Datagrams, over sequences of calls.
use mpudp.Prelude.{
  ℕ, ◌≡◌, sym, ap, ◌∙◌, subst, List, [], ◌∷◌, Bool, Option, some, Option-cases, ok, All, inl, inr,
}
use mpudp.Prelude.Int.{pos_part}
use mpudp.Fec.{Params}
use mpudp.Fec.Block.{IsSystematic}
use mpudp.Fec.Expiry.{BlockKey}
use mpudp.Fec.Decoder.{PendingBlock, Decoder, DecoderConfig, find, new_decoder}
use mpudp.Fec.Decoder.Cases.{new_decoder-parts}
use mpudp.Fec.Decoder.Sweeping.{sweep-cases, close-cases}
use mpudp.Fec.Decoder.Runs.{Call, adds, sweeps, closes, after, deliveries}
use mpudp.Fec.Decoder.Contents.{Rebuilds}
use mpudp.Fec.Decoder.Genuine.{
  IsGenuine, HasParts, IsHonest, sweep_locked-HasParts, add_verified_shard-honest,
}

module _ (codec reconstruct : List (List ℕ) → Option (List (List ℕ))) (params : Params) (n : ℕ)
    (payload_of : ℕ → List ℕ) (full_of : ℕ → List (List ℕ)) where
  -- The shards of the calls are of what was sent.
  abbrev pub AddsGenuine : Call → Type 0
  AddsGenuine (adds now input) = IsGenuine codec reconstruct params n payload_of full_of input
  AddsGenuine (sweeps now) = Unit
  AddsGenuine closes = Unit

  -- A Datagram, with its packet ID, as it was sent.
  abbrev pub IsAsSent : ℕ × List ℕ → Type 0
  IsAsSent (id, datagram) = datagram ≡ payload_of id

  module _ (systematic : IsSystematic codec (pos_part params.data_shards) n)
      (library : Rebuilds codec reconstruct (pos_part params.data_shards) n) where
    abbrev Parts : Decoder → Type 0
    Parts d = HasParts codec reconstruct params n payload_of full_of d

    after-IsHonest :
        (d : Decoder) (c : Call)
        → Parts d
        → AddsGenuine c
        → Parts (after reconstruct d c).0
          × IsHonest codec reconstruct params n payload_of full_of (after reconstruct d c).1
    after-IsHonest d (adds now input) x g =
        unfold after in
        add_verified_shard-honest codec reconstruct params n payload_of full_of systematic library
          now input g d x
    after-IsHonest d (sweeps now) x g =
        unfold after in
        (
          elim (sweep-cases now d) [
            | inl same ↦ subst Parts (sym same) x
            | inr swept ↦
                subst Parts (sym swept)
                  (sweep_locked-HasParts codec reconstruct params n payload_of full_of now d x)
          ],
          tt,
        )
    after-IsHonest d closes x g =
        unfold after in
        (
          elim (close-cases d) [
            | inl same ↦ subst Parts (sym same) x
            | inr (p, t, nothing) ↦ record {
              same_params = p ∙ x.same_params;
              same_total = t ∙ x.same_total;
              parts = λ k b found.
                  let none_there : find {V = PendingBlock} [] k ≡ some b =
                    ap (λ (q : List (BlockKey × PendingBlock)). find q k) (sym nothing) ∙ found in
                  cc;
            }
          ],
          tt,
        )

    deliveries-cons :
        (d : Decoder) (c : Call) (cs : List Call)
        → IsHonest codec reconstruct params n payload_of full_of (after reconstruct d c).1
        → All IsAsSent (deliveries reconstruct (after reconstruct d c).0 cs)
        → All IsAsSent (deliveries reconstruct d (c ∷ cs))
    unfolding deliveries
    deliveries-cons d c cs honest rest = elim (Option-cases (after reconstruct d c).1) [
      | inl nothing ↦ rw (nothing, deliveries) rest
      | inr (found, e) ↦
          rw (e, deliveries)
            (subst (IsHonest codec reconstruct params n payload_of full_of) e honest, rest)
    ]

    deliveries-honest :
        (cs : List Call) (d : Decoder)
        → Parts d
        → All AddsGenuine cs
        → All IsAsSent (deliveries reconstruct d cs)
    deliveries-honest [] d x g = unfold deliveries in tt
    deliveries-honest (c ∷ cs) d x (g, gs) =
        let (y, honest) = after-IsHonest d c x g in
        deliveries-cons d c cs honest (deliveries-honest cs (after reconstruct d c).0 y gs)

    new_decoder-HasParts :
        (accepts : ℕ → ℕ → Bool) (config : DecoderConfig) (d : Decoder)
        → config.params ≡ params
        → new_decoder accepts config ≡ ok d
        → d.total ≡ n
        → Parts d
    new_decoder-HasParts accepts config d p made t =
        let (limits, count, _, _, _, _, same) = new_decoder-parts accepts config d made in
        record {
          same_params = ap (λ (s : Decoder). s.params) same ∙ p;
          same_total = t;
          parts = λ k b found.
              let none_there : find {V = PendingBlock} [] k ≡ some b =
                ap (λ (s : Decoder). find s.pending k) (sym same) ∙ found in
              cc;
        }

    -- On the library's terms: let every shard that is added be one of a block that an Encoder with the Decoder's
    -- parameters made. Whatever the calls and their times, each Datagram that a new Decoder returns for a packet ID is
    -- what was sent with it.
    pub deliveries-sent :
        (accepts : ℕ → ℕ → Bool) (config : DecoderConfig) (d : Decoder) (cs : List Call)
        → config.params ≡ params
        → new_decoder accepts config ≡ ok d
        → d.total ≡ n
        → All AddsGenuine cs
        → All IsAsSent (deliveries reconstruct d cs)
    deliveries-sent accepts config d cs p made t g =
        deliveries-honest cs d (new_decoder-HasParts accepts config d p made t) g
