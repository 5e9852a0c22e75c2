-- ===== src/Fec/Decoder/Answering.antt =====
-- internal/fec/decoder.go: the shards that a Decoder is given, as the replay window's steps.
use mpudp.Prelude.{
  ℕ, ◌≡◌, refl, sym, ap, subst, ◌∙◌, List, true, false, not, if◌then◌else◌, inl, inr, Option, none,
  some, Result, ok, bytes_eq, bytes_eq→eq, bytes_eq_refl, arith,
}
use mpudp.Prelude.Int.{pos_part}
use mpudp.Fec.{Error}
use mpudp.Fec.Replay
use mpudp.Fec.Receiver.{Receiver, with_pending, Step, opens, here, next}
use mpudp.Fec.Expiry.{BlockKey, same_key}
use mpudp.Fec.Decoder.{
  IncomingShard, Added, PendingBlock, Decoder, find, delete, is_found, foreign, validate_shard,
  remove_pending, remember_completed,
}
use mpudp.Fec.Decoder.Expiration.{sweep_locked}
use mpudp.Fec.Decoder.Adding.{
  finish_block, with_shard, retained, add_to_block, admitted, opened, new_block, open_block,
  add_verified_shard,
}
use mpudp.Fec.Decoder.Cases.{
  delivery, finish_block-cases, add_to_block-cases, open_block-cases, add_valid-cases,
  add_verified_shard-cases,
}
use mpudp.Fec.Decoder.Maps.{find-change_found}
use mpudp.Fec.Decoder.Following.{
  key, Shows, Follows, still, then-Follows, dropped, unchanged, sweep_locked-Follows, hits,
  delivered-Follows,
}

module _ (reconstruct : List (List ℕ) → Option (List (List ℕ))) (session : List ℕ) (now : ℕ)
    (input : IncomingShard) where
  abbrev IsOurs : Type 0
  IsOurs = input.key ≡ key session input.key.packet_id

  -- A call's answer, and the Decoder after it.
  abbrev pub FollowsCall : Receiver → Decoder × Result Error Added → Type 0
  FollowsCall r answer = Follows session r answer.0 (hits (delivery input answer.1))

  remove-same :
      (d : Decoder) (k : BlockKey) (block : PendingBlock)
      → ((remove_pending d k block).replay ≡ d.replay)
        × ((remove_pending d k block).pending ≡ delete d.pending k)
  unfolding remove_pending
  remove-same d k block = (refl, refl)

  remember-window :
      (d : Decoder) (k : BlockKey) (w : Replay.ReplayWindow)
      → d.replay ≡ some (session, w)
      → ((remember_completed now d k).replay ≡ some (session, Replay.complete w k.packet_id))
        × ((remember_completed now d k).pending ≡ d.pending)
  unfolding remember_completed
  remember-window d k w e = (rw e refl, rw e refl)

  finish_block-Follows :
      (d : Decoder) (r : Receiver) (block : PendingBlock)
      → IsOurs
      → Shows session d r
      → r.pending input.key.packet_id ≡ true
      → FollowsCall r (finish_block reconstruct now d input block)
  finish_block-Follows d r block same x p =
      let id = input.key.packet_id in
      let removed = remove_pending d input.key block in
      let (kept_window, gone) = remove-same d input.key block in
      let gone' = gone ∙ ap (delete d.pending) same in
      let bad = dropped session d removed r id x p kept_window gone' in
      elim (finish_block-cases reconstruct now d input block) [
        | inl (cause, failed) ↦ subst (FollowsCall r) (sym failed) bad
        | inr (working, datagram, restored, joined, done) ↦
            let (marked, same_blocks) =
              remember-window removed input.key r.window (kept_window ∙ x.window) in
            subst (FollowsCall r) (sym done)
              (delivered-Follows session d _ r id datagram x p marked (same_blocks ∙ gone'))
      ]

  -- `r` has the block that the shard is for.
  add_to_block-Follows :
      (d : Decoder) (r : Receiver) (block : PendingBlock)
      → IsOurs
      → Shows session d r
      → r.pending input.key.packet_id ≡ true
      → FollowsCall r (add_to_block reconstruct now d input block)
  add_to_block-Follows d r block same x p =
      let block' = with_shard block (pos_part input.index) input.payload in
      let shown : Shows session (retained d input block) r = record {
        window = x.window;
        blocks = λ k. find-change_found d.pending input.key (key session k) block' ∙ x.blocks k;
      } in
      elim (add_to_block-cases reconstruct now d input block) [
        | inl (d', answer, quiet, same, e) ↦ subst (FollowsCall r) (sym e) (
            subst (λ (o : Option (ℕ × List ℕ)). Follows session r d' (hits o)) (sym quiet)
              (unchanged session d d' r x (ap (λ (s : Decoder). s.replay) same)
                (ap (λ (s : Decoder). s.pending) same)))
        | inr (inl (empty, few, e)) ↦
            subst (FollowsCall r) (sym e) (still session (retained d input block) r shown)
        | inr (inr (empty, enough, e)) ↦
            subst (FollowsCall r) (sym e)
              (finish_block-Follows (retained d input block) r block' same shown p)
      ]

  validate_shard-IsOurs :
      (d : Decoder) (r : Receiver) (size : ℕ)
      → Shows session d r
      → validate_shard d input ≡ ok size
      → IsOurs
  unfolding validate_shard
  validate_shard-IsOurs d r size x valid =
      let known : foreign d.replay input.key ≡ false = ground (arith, valid) in
      let equal : not (bytes_eq input.key.session_id session) ≡ false = rw x.window at known in
      let e = bytes_eq→eq input.key.session_id session (ground (arith, equal)) in
      λ i. record { session_id = e i; packet_id = input.key.packet_id }

  open_block-Follows :
      (d : Decoder) (r : Receiver) (size : ℕ)
      → IsOurs
      → Shows session d r
      → find d.pending input.key ≡ none
      → FollowsCall r (open_block reconstruct now d input size)
  open_block-Follows d r size same x free =
      let id = input.key.packet_id in
      let idle : r.pending id ≡ false =
        sym (x.blocks id)
        ∙ ap (λ (k : BlockKey). is_found (find d.pending k)) (sym same)
        ∙ ap is_found free in
      elim (open_block-cases reconstruct now d input size) [
        | inl (d', answer, quiet, same, e) ↦ subst (FollowsCall r) (sym e) (
            subst (λ (o : Option (ℕ × List ℕ)). Follows session r d' (hits o)) (sym quiet)
              (unchanged session d d' r x (ap (λ (s : Decoder). s.replay) same)
                (ap (λ (s : Decoder). s.pending) same)))
        | inr (young, new, room, e) ↦
            let open_r : Receiver = record r {
              window = Replay.admit r.window id;
              pending = with_pending r id true;
            } in
            let young' : Replay.too_old r.window id ≡ false = rw x.window at young in
            let new' : Replay.contains r.window id ≡ false = rw x.window at new in
            let step : Step r open_r = opens id idle young' new' in
            let shown : Shows session (opened now d input size) open_r = record {
              window = ap (λ (w : Option (List ℕ × Replay.ReplayWindow)). admitted w id) x.window;
              blocks = λ k.
                  let b = x.blocks k in
                  let bytes = bytes_eq_refl session in
                  let block = new_block now d input size in
                  ap
                    (λ (q : BlockKey). is_found (
                      if same_key q (key session k)
                      then some block
                      else find d.pending (key session k)))
                    same
                  ∙ ground (arith, b, bytes);
            } in
            subst (FollowsCall r) (sym e) (
              then-Follows session r open_r _ _ (next here step) (λ k. refl)
                (add_to_block-Follows (opened now d input size) open_r (new_block now d input size)
                  same shown (ground arith)))
      ]

  pub add_verified_shard-Follows :
      (d : Decoder) (r : Receiver)
      → Shows session d r
      → FollowsCall r (add_verified_shard reconstruct now d input)
  add_verified_shard-Follows d r x = elim (add_verified_shard-cases reconstruct now d input) [
    | inl (cause, e) ↦ subst (FollowsCall r) (sym e) (still session d r x)
    | inr (size, live, valid, e) ↦
        let same = validate_shard-IsOurs d r size x valid in
        let (r', m, y, counted) = sweep_locked-Follows session now d r x in
        let s = (sweep_locked now d).0 in
        subst (FollowsCall r) (sym e) (elim (add_valid-cases reconstruct now s input size) [
          | inl (free, f) ↦ subst (FollowsCall r) (sym f) (
              then-Follows session r r' _ _ m (λ k. let c = counted k in omega arith)
                (open_block-Follows s r' size same y free))
          | inr (inl (block, found, f)) ↦ subst (FollowsCall r) (sym f) (r', m, y, counted)
          | inr (inr (block, found, _, _, f)) ↦
              let there : r'.pending input.key.packet_id ≡ true =
                sym (y.blocks input.key.packet_id)
                ∙ ap (λ (k : BlockKey). is_found (find s.pending k)) (sym same)
                ∙ ap is_found found in
              subst (FollowsCall r) (sym f) (
                then-Follows session r r' _ _ m (λ k. let c = counted k in omega arith)
                  (add_to_block-Follows s r' block same y there))
        ])
  ]
