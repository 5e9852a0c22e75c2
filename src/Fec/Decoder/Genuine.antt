-- ===== src/Fec/Decoder/Genuine.antt =====
-- internal/fec/decoder.go: the Decoder's blocks under shards of what was sent.
use mpudp.Prelude.{
  ℕ, ◌+◌, ◌≤◌, ◌≡◌, refl, sym, ap, ◌∙◌, subst, List, Bool-cases, inl, inr, Option, none, some,
  Result, ok, length, get_or, get_elem?, replicate, arith,
}
use mpudp.Prelude.Int.{pos_part}
use mpudp.Fec.{Params, Error}
use mpudp.Fec.Encoder.{join_data}
use mpudp.Fec.Block.{IsSystematic}
use mpudp.Fec.Parts.{IsPart, present}
use mpudp.Fec.Expiry.{BlockKey, same_key}
use mpudp.Fec.Decoder.{
  IncomingShard, Added, PendingBlock, Decoder, find, delete, change, data_shards, remove_pending,
}
use mpudp.Fec.Decoder.Expiration.{expire_pending, expire_completed, sweep_locked}
use mpudp.Fec.Decoder.Adding.{
  with_shard, retained, add_to_block, opened, new_block, finish_block, add_verified_shard,
}
use mpudp.Fec.Decoder.Cases.{
  delivery, delivered, add_to_block-cases, open_block-cases, add_valid-cases,
  add_verified_shard-cases,
}
use mpudp.Fec.Decoder.Maps.{find-change_cases, same_key→eq, same_key_refl, find-delete}
use mpudp.Fec.Decoder.Sweeping.{sweep_locked-keeps, expire_pending-cases, expire_completed-cases}
use mpudp.Fec.Decoder.Viewing.{View, remember_completed-view}
use mpudp.Fec.Decoder.Contents.{
  IsPart-absent, IsPart-set, Rebuilds, IsSent, sent-length, sent-joins,
}

module _ (codec reconstruct : List (List ℕ) → Option (List (List ℕ))) (params : Params) (n : ℕ)
    (payload_of : ℕ → List ℕ) (full_of : ℕ → List (List ℕ)) where
  -- A shard of what was sent with its packet ID.
  pub record IsGenuine (input : IncomingShard) : Type 0 where
    pub sent :
        IsSent codec params n input.key.packet_id
          (payload_of input.key.packet_id)
          (full_of input.key.packet_id)
    pub shard : get_elem? (full_of input.key.packet_id) (pos_part input.index) ≡ some input.payload
    pub original : pos_part input.original_length ≡ length (payload_of input.key.packet_id)

  -- The blocks hold shards of what was sent with their packet IDs.
  pub record HasParts (d : Decoder) : Type 0 where
    pub same_params : d.params ≡ params
    pub same_total : d.total ≡ n
    pub parts :
        (k : BlockKey) (b : PendingBlock)
        → find d.pending k ≡ some b
        → IsPart b.shards (full_of k.packet_id) × (present b.shards ≡ b.present)

  abbrev pub IsHonest : Option (ℕ × List ℕ) → Type 0
  IsHonest none = Unit
  IsHonest (some (id, datagram)) = datagram ≡ payload_of id

  pub kept-HasParts :
      (d d' : Decoder)
      → HasParts d
      → d'.params ≡ d.params
      → d'.total ≡ d.total
      → d'.pending ≡ d.pending
      → HasParts d'
  kept-HasParts d d' x p t e = record {
    same_params = p ∙ x.same_params;
    same_total = t ∙ x.same_total;
    parts = λ k b found.
        x.parts k b (ap (λ (q : List (BlockKey × PendingBlock)). find q k) (sym e) ∙ found);
  }

  pub counted-HasParts :
      (d d' : Decoder) → HasParts d → d' ≡ record d { statistics = d'.statistics } → HasParts d'
  counted-HasParts d d' x same =
      kept-HasParts d d' x (ap (λ (s : Decoder). s.params) same)
        (ap (λ (s : Decoder). s.total) same) (ap (λ (s : Decoder). s.pending) same)

  pub deleted-HasParts :
      (d d' : Decoder) (j : BlockKey)
      → HasParts d
      → d'.params ≡ d.params
      → d'.total ≡ d.total
      → d'.pending ≡ delete d.pending j
      → HasParts d'
  deleted-HasParts d d' j x p t e = record {
    same_params = p ∙ x.same_params;
    same_total = t ∙ x.same_total;
    parts = λ k b found.
        let there : find (delete d.pending j) k ≡ some b =
          ap (λ (q : List (BlockKey × PendingBlock)). find q k) (sym e) ∙ found in
        let f = find-delete d.pending j k in x.parts k b (ground (arith, f, there));
  }

  pub sweep_locked-HasParts : (now : ℕ) (d : Decoder) → HasParts d → HasParts (sweep_locked now d).0
  sweep_locked-HasParts now d x =
      sweep_locked-keeps HasParts now d
        (λ s top due y.
          let (same, outcome) = expire_pending-cases s top in
          elim outcome [
            | inl kept ↦
                kept-HasParts s (expire_pending s top).0 y same.params_eq same.total_eq kept
            | inr (_, _, _, gone) ↦
                deleted-HasParts s (expire_pending s top).0 top.key y same.params_eq same.total_eq
                  gone
          ])
        (λ s top y.
          let (same, kept) = expire_completed-cases s top in
          kept-HasParts s (expire_completed s top).0 y same.params_eq same.total_eq kept)
        x

  pub changed-HasParts :
      (d d' : Decoder) (j : BlockKey) (v w : PendingBlock)
      → HasParts d
      → d'.params ≡ d.params
      → d'.total ≡ d.total
      → find d.pending j ≡ some v
      → d'.pending ≡ change d.pending j w
      → IsPart w.shards (full_of j.packet_id) × (present w.shards ≡ w.present)
      → HasParts d'
  changed-HasParts d d' j v w x p t found e good = record {
    same_params = p ∙ x.same_params;
    same_total = t ∙ x.same_total;
    parts = λ k b there.
        let there' : find (change d.pending j w) k ≡ some b =
          ap (λ (q : List (BlockKey × PendingBlock)). find q k) (sym e) ∙ there in
        elim (find-change_cases d.pending j k v w b found there') [
          | inl (jk, wb) ↦
              subst
                (λ (c : PendingBlock).
                  IsPart c.shards (full_of k.packet_id) × (present c.shards ≡ c.present))
                wb
                (subst
                  (λ (q : BlockKey).
                    IsPart w.shards (full_of q.packet_id) × (present w.shards ≡ w.present))
                  jk good)
          | inr before ↦ x.parts k b before
        ];
  }

  pub opened-HasParts :
      (d : Decoder) (now size : ℕ) (input : IncomingShard)
      → length (full_of input.key.packet_id) ≡ n
      → HasParts d
      → HasParts (opened now d input size)
  opened-HasParts d now size input len x = record {
    same_params = x.same_params;
    same_total = x.same_total;
    parts = λ k b there. elim (Bool-cases (same_key input.key k)) [
      | inl same ↦
          let jk = same_key→eq input.key k same in
          let wb : new_block now d input size ≡ b = ground (arith, same, there) in
          let good = IsPart-absent (full_of input.key.packet_id) d.total (len ∙ sym x.same_total) in
          subst
            (λ (c : PendingBlock).
              IsPart c.shards (full_of k.packet_id) × (present c.shards ≡ c.present))
            wb
            (subst
              (λ (q : BlockKey).
                IsPart (replicate d.total none) (full_of q.packet_id)
                × (present (replicate d.total none) ≡ 0))
              jk good)
      | inr other ↦ x.parts k b (ground (arith, other, there))
    ];
  }

  module _ (systematic : IsSystematic codec (pos_part params.data_shards) n)
      (library : Rebuilds codec reconstruct (pos_part params.data_shards) n) (now : ℕ)
      (input : IncomingShard) (genuine : IsGenuine input) where
    abbrev full : List (List ℕ)
    full = full_of input.key.packet_id

    abbrev payload : List ℕ
    payload = payload_of input.key.packet_id

    -- With k of the shards the payload is delivered.
    pub finish_block-delivers :
        (d : Decoder) (block : PendingBlock)
        → d.params ≡ params
        → IsPart block.shards full
        → data_shards d ≤ present block.shards
        → finish_block reconstruct now d input block
          ≡ delivered reconstruct now d input block payload
    finish_block-delivers d block same part enough =
        let k_eq : data_shards d ≡ pos_part params.data_shards =
          ap (λ (p : Params). pos_part p.data_shards) same in
        let (working, restored, joined) =
          sent-joins codec reconstruct params n systematic library input.key.packet_id payload full
            block.shards genuine.sent part (omega (arith, k_eq)) in
        let joined' : join_data (data_shards d) (pos_part input.original_length) working
            ≡ ok payload =
          rw (k_eq, genuine.original) joined in
        unfold finish_block in rw (restored, finish_block) (rw joined' refl)

    delivered-HasParts :
        (d : Decoder) (block : PendingBlock)
        → HasParts d
        → HasParts (delivered reconstruct now d input block payload).0
    delivered-HasParts d block x =
        let removed = remove_pending d input.key block in
        let e = remember_completed-view now removed input.key in
        let gone =
          deleted-HasParts d removed input.key x (unfold remove_pending in refl)
            (unfold remove_pending in refl) (unfold remove_pending in refl) in
        kept-HasParts removed (delivered reconstruct now d input block payload).0 gone
          (ap (λ (v : View). v.0.0) e) (ap (λ (v : View). v.0.2) e) (ap (λ (v : View). v.1) e)

    -- The shard makes one more.
    pub with_shard-IsPart :
        (block : PendingBlock)
        → IsPart block.shards full × (present block.shards ≡ block.present)
        → get_or block.shards (pos_part input.index) none ≡ none
        → (let block' = with_shard block (pos_part input.index) input.payload in
            IsPart block'.shards full × (present block'.shards ≡ block'.present))
    with_shard-IsPart block (part, count) empty =
        let (part', count') =
          IsPart-set block.shards full (pos_part input.index) input.payload part genuine.shard
            empty in
        (part', count' ∙ ap (λ (m : ℕ). m + 1) count)

    abbrev IsHonestCall : Decoder × Result Error Added → Type 0
    IsHonestCall answer = HasParts answer.0 × IsHonest (delivery input answer.1)

    add_to_block-honest :
        (d : Decoder) (block : PendingBlock)
        → HasParts d
        → find d.pending input.key ≡ some block
        → IsHonestCall (add_to_block reconstruct now d input block)
    add_to_block-honest d block x found =
        let block' = with_shard block (pos_part input.index) input.payload in
        let good = x.parts input.key block found in
        elim (add_to_block-cases reconstruct now d input block) [
          | inl (d', answer, quiet, same, e) ↦
              subst IsHonestCall (sym e)
                (counted-HasParts d d' x same, subst IsHonest (sym quiet) tt)
          | inr (inl (empty, few, e)) ↦
              let more = with_shard-IsPart block good empty in
              subst IsHonestCall (sym e) (
                changed-HasParts d (retained d input block) input.key block block' x refl refl found
                    refl more,
                tt,
              )
          | inr (inr (empty, enough, e)) ↦
              let more = with_shard-IsPart block good empty in
              let y =
                changed-HasParts d (retained d input block) input.key block block' x refl refl found
                  refl more in
              let done =
                finish_block-delivers (retained d input block) block' x.same_params more.0
                  (ground (arith, enough, more.1)) in
              subst IsHonestCall (sym (e ∙ done))
                (delivered-HasParts (retained d input block) block' y, refl)
        ]

    -- A call keeps the blocks' shards true, and returns nothing but what was sent.
    pub add_verified_shard-honest :
        (d : Decoder) → HasParts d → IsHonestCall (add_verified_shard reconstruct now d input)
    add_verified_shard-honest d x = elim (add_verified_shard-cases reconstruct now d input) [
      | inl (cause, e) ↦ subst IsHonestCall (sym e) (x, tt)
      | inr (size, live, valid, e) ↦
          let s = (sweep_locked now d).0 in
          let y = sweep_locked-HasParts now d x in
          subst IsHonestCall (sym e) (elim (add_valid-cases reconstruct now s input size) [
            | inr (inl (block, found, f)) ↦ subst IsHonestCall (sym f) (y, tt)
            | inr (inr (block, found, _, _, f)) ↦
                subst IsHonestCall (sym f) (add_to_block-honest s block y found)
            | inl (free, f) ↦
                subst IsHonestCall (sym f) (elim (open_block-cases reconstruct now s input size) [
                  | inl (d', answer, quiet, same, g) ↦
                      subst IsHonestCall (sym g)
                        (counted-HasParts s d' y same, subst IsHonest (sym quiet) tt)
                  | inr (young, new, room, g) ↦
                      let len =
                        sent-length codec reconstruct params n systematic library
                          input.key.packet_id payload full genuine.sent in
                      let self = same_key_refl input.key in
                      subst IsHonestCall (sym g) (
                        add_to_block-honest (opened now s input size) (new_block now s input size)
                          (opened-HasParts s now size input len y) (ground (arith, self)))
                ])
          ])
    ]
