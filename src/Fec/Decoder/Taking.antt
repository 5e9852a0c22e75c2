-- ===== src/Fec/Decoder/Taking.antt =====
-- internal/fec/decoder.go: a block that is not due, over a sweep and over a shard.
use mpudp.Prelude.{
  ℕ, zero, suc, ◌+◌, ◌<◌, ◌≡◌, ◌≢◌, refl, sym, ap, ◌∙◌, List, [], ◌∷◌, true, false, ltb, get_or,
  set, Option, none, some, ok, All, arith, Bool-cases, inl, inr,
}
use mpudp.Prelude.Int.{pos_part}
use mpudp.Fec.Expiry.{BlockKey, same_key}
use mpudp.Fec.Decoder.{
  IncomingShard, pending, PendingBlock, Decoder, find, data_shards, validate_shard,
}
use mpudp.Fec.Decoder.Expiration.{expire_pending, expire_completed, sweep_locked}
use mpudp.Fec.Decoder.Adding.{
  finish_block, with_shard, retained, add_to_block, add_valid, add_verified_shard,
}
use mpudp.Fec.Decoder.Maps.{same_key→eq, find-delete}
use mpudp.Fec.Decoder.Sweeping.{
  SameRules, sweep_locked-keeps, expire_pending-cases, expire_completed-cases,
}
use mpudp.Fec.Decoder.Runs.{Call, adds}

-- What a call needs of the Decoder to take a shard of `key`'s block.
pub record Takes (d : Decoder) (key : BlockKey) (block : PendingBlock) (s : Decoder) : Type 0 where
  pub live : s.closed ≡ d.closed
  pub accepts : (input : IncomingShard) → validate_shard s input ≡ validate_shard d input
  pub holds : find s.pending key ≡ some block

pub same-accepts :
    (d s : Decoder) (input : IncomingShard)
    → SameRules d s
    → validate_shard s input ≡ validate_shard d input
unfolding validate_shard
same-accepts d s input x = rw (x.params_eq, x.limits_eq, x.total_eq, x.replay_eq) refl

-- The sweep leaves a block alone before its deadline.
pub sweep-Takes :
    (now : ℕ) (d : Decoder) (key : BlockKey) (block : PendingBlock)
    → find d.pending key ≡ some block
    → now < block.expiry.deadline
    → Takes d key block (sweep_locked now d).0
sweep-Takes now d key block found early =
    sweep_locked-keeps (Takes d key block) now d
      (λ s top due x.
        let (same, outcome) = expire_pending-cases s top in
        record {
          live = same.closed_eq ∙ x.live;
          accepts = λ input. same-accepts s (expire_pending s top).0 input same ∙ x.accepts input;
          holds = elim outcome [
            | inl kept ↦ ap (λ (q : List (BlockKey × PendingBlock)). find q key) kept ∙ x.holds
            | inr (b, there, entry, gone) ↦
                ap (λ (q : List (BlockKey × PendingBlock)). find q key) gone
                ∙ find-delete s.pending top.key key
                ∙ elim (Bool-cases (same_key top.key key)) [
                  | inr other ↦ rw other x.holds
                  | inl same_k ↦
                      let there' : find s.pending key ≡ some b =
                        ap (find s.pending) (sym (same_key→eq top.key key same_k)) ∙ there in
                      let bb : b ≡ block = let h = x.holds in cc in
                      let at : b.expiry.deadline ≡ top.deadline = ground (arith, entry) in
                      let at' = ap (λ (p : PendingBlock). p.expiry.deadline) bb in
                      absurd (omega arith)
                ]
          ];
        })
      (λ s top x.
        let (same, kept) = expire_completed-cases s top in
        record {
          live = same.closed_eq ∙ x.live;
          accepts = λ input. same-accepts s (expire_completed s top).0 input same ∙ x.accepts input;
          holds = ap (λ (q : List (BlockKey × PendingBlock)). find q key) kept ∙ x.holds;
        })
      (record { live = refl; accepts = λ input. refl; holds = found })

pub get_or-set_ne {ℓ} :
    {A : Type ℓ} (xs : List A) (i j : ℕ) (v w : A) → j ≢ i → get_or (set xs i v) j w ≡ get_or xs j w
get_or-set_ne [] i j v w n = refl
get_or-set_ne (x ∷ xs) zero zero v w n = absurd (n refl)
get_or-set_ne (x ∷ xs) zero (suc j) v w n = refl
get_or-set_ne (x ∷ xs) (suc i) zero v w n = refl
get_or-set_ne (x ∷ xs) (suc i) (suc j) v w n = get_or-set_ne xs i j v w (λ e. n (ap suc e))

-- Shards with the times at which they come.
abbrev pub index_of : ℕ × IncomingShard → ℕ
index_of (t, input) = pos_part input.index

abbrev pub HasDistinct : List (ℕ × IncomingShard) → Type 0
HasDistinct [] = Unit
HasDistinct (x ∷ xs) = All (λ (y : ℕ × IncomingShard). index_of y ≢ index_of x) xs × HasDistinct xs

abbrev pub call_of : ℕ × IncomingShard → Call
call_of (t, input) = adds t input

module _ (reconstruct : List (List ℕ) → Option (List (List ℕ))) (now : ℕ) (d : Decoder)
    (input : IncomingShard) where
  pub add_to_block-few :
      (block : PendingBlock)
      → get_or block.shards (pos_part input.index) none ≡ none
      → ltb (block.present + 1) (data_shards d) ≡ true
      → add_to_block reconstruct now d input block
        ≡ (retained d input block, ok (record { outcome = pending; datagram = none }))
  unfolding add_to_block
  add_to_block-few block empty few = rw (empty, add_to_block) (rw few refl)

  pub add_to_block-enough :
      (block : PendingBlock)
      → get_or block.shards (pos_part input.index) none ≡ none
      → ltb (block.present + 1) (data_shards d) ≡ false
      → add_to_block reconstruct now d input block
        ≡ finish_block reconstruct now
            (retained d input block)
            input
            (with_shard block (pos_part input.index) input.payload)
  unfolding add_to_block
  add_to_block-enough block empty enough = rw (empty, add_to_block) (rw enough refl)

  -- A shard of a block that the sweep leaves.
  pub later_call :
      (block : PendingBlock) (size : ℕ)
      → d.closed ≡ false
      → validate_shard d input ≡ ok size
      → find (sweep_locked now d).0.pending input.key ≡ some block
      → block.original_length ≡ pos_part input.original_length
      → block.shard_size ≡ size
      → add_verified_shard reconstruct now d input
        ≡ add_to_block reconstruct now (sweep_locked now d).0 input block
  unfolding add_verified_shard add_valid
  later_call block size live valid found original sized =
      let whole : add_verified_shard reconstruct now d input
          ≡ add_valid reconstruct now (sweep_locked now d).0 input size =
        ground (arith, live, valid) in
      let s = (sweep_locked now d).0 in
      let known : add_valid reconstruct now s input size
          ≡ add_to_block reconstruct now s input block =
        rw (found, add_valid) (ground (arith, original, sized)) in
      whole ∙ known
