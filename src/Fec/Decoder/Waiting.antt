-- ===== src/Fec/Decoder/Waiting.antt =====
-- internal/fec/decoder.go: a block that waits for its last shards gets them.
use mpudp.Prelude.{
  ℕ, ◌+◌, ◌<◌, ◌≡◌, ◌≢◌, refl, sym, ap, ◌∙◌, subst, List, [], ◌∷◌, map, false, length, get_or,
  Option, none, some, ok, Result, All, arith,
}
use mpudp.Prelude.Int.{pos_part}
use mpudp.Fec.{Params, Error}
use mpudp.Fec.Parts.{IsPart}
use mpudp.Fec.Block.{IsSystematic}
use mpudp.Fec.Expiry.{BlockKey}
use mpudp.Fec.Decoder.{
  IncomingShard, Added, PendingBlock, Decoder, find, data_shards, validate_shard,
}
use mpudp.Fec.Decoder.Expiration.{sweep_locked}
use mpudp.Fec.Decoder.Adding.{with_shard, retained, add_to_block, add_verified_shard}
use mpudp.Fec.Decoder.Cases.{delivery}
use mpudp.Fec.Decoder.Maps.{find-change_self}
use mpudp.Fec.Decoder.Runs.{after, deliveries, prepend}
use mpudp.Fec.Decoder.Contents.{Rebuilds}
use mpudp.Fec.Decoder.Genuine.{
  IsGenuine, HasParts, sweep_locked-HasParts, finish_block-delivers, with_shard-IsPart,
  changed-HasParts,
}
use mpudp.Fec.Decoder.Taking.{
  sweep-Takes, get_or-set_ne, index_of, HasDistinct, call_of, add_to_block-few, add_to_block-enough,
  later_call,
}

-- A shard of the block with `key` that `d` accepts, before `limit`.
pub record Fits (codec reconstruct : List (List ℕ) → Option (List (List ℕ))) (params : Params)
    (n : ℕ) (payload_of : ℕ → List ℕ) (full_of : ℕ → List (List ℕ)) (key : BlockKey)
    (size limit : ℕ) (d : Decoder) (x : ℕ × IncomingShard) : Type 0 where
  pub early : x.0 < limit
  pub same_key : x.1.key ≡ key
  pub genuine : IsGenuine codec reconstruct params n payload_of full_of x.1
  pub accepted : validate_shard d x.1 ≡ ok size

module _ (codec reconstruct : List (List ℕ) → Option (List (List ℕ))) (params : Params) (n : ℕ)
    (payload_of : ℕ → List ℕ) (full_of : ℕ → List (List ℕ))
    (systematic : IsSystematic codec (pos_part params.data_shards) n)
    (library : Rebuilds codec reconstruct (pos_part params.data_shards) n) (key : BlockKey)
    (size limit : ℕ) where
  abbrev pub Fit : Decoder → ℕ × IncomingShard → Type 0
  Fit = Fits codec reconstruct params n payload_of full_of key size limit

  abbrev pub Free : PendingBlock → ℕ × IncomingShard → Type 0
  Free block x = get_or block.shards (index_of x) none ≡ none

  -- The block with `key` waits in `d`.
  pub record Waits (d : Decoder) (block : PendingBlock) : Type 0 where
    pub live : d.closed ≡ false
    pub parts : HasParts codec reconstruct params n payload_of full_of d
    pub found : find d.pending key ≡ some block
    pub original : block.original_length ≡ length (payload_of key.packet_id)
    pub sized : block.shard_size ≡ size
    pub until : block.expiry.deadline ≡ limit

  pub All-Fits :
      (d s : Decoder) (xs : List (ℕ × IncomingShard))
      → ((input : IncomingShard) → validate_shard s input ≡ validate_shard d input)
      → All (Fit d) xs
      → All (Fit s) xs
  All-Fits d s [] same h = tt
  All-Fits d s (x ∷ xs) same (f, fs) = (
    record {
      early = f.early;
      same_key = f.same_key;
      genuine = f.genuine;
      accepted = same x.1 ∙ f.accepted;
    },
    All-Fits d s xs same fs,
  )

  All-Free :
      (block : PendingBlock) (x : ℕ × IncomingShard) (xs : List (ℕ × IncomingShard))
      → All (λ (y : ℕ × IncomingShard). index_of y ≢ index_of x) xs
      → All (Free block) xs
      → All (Free (with_shard block (index_of x) x.1.payload)) xs
  All-Free block x [] apart h = tt
  All-Free block x (y ∷ xs) (ne, apart) (f, fs) = (
    get_or-set_ne block.shards (index_of x) (index_of y) (some x.1.payload) none ne ∙ f,
    All-Free block x xs apart fs,
  )

  Waits-retained :
      (s : Decoder) (block : PendingBlock) (x : ℕ × IncomingShard)
      → Waits s block
      → Fit s x
      → Free block x
      → Waits (retained s x.1 block) (with_shard block (index_of x) x.1.payload)
  Waits-retained s block x w f empty =
      let found' : find s.pending x.1.key ≡ some block = ap (find s.pending) f.same_key ∙ w.found in
      let block' = with_shard block (index_of x) x.1.payload in
      let good =
        with_shard-IsPart codec reconstruct params n payload_of full_of systematic library x.0 x.1
          f.genuine block (w.parts.parts x.1.key block found') empty in
      record {
        live = w.live;
        parts =
            changed-HasParts codec reconstruct params n payload_of full_of s (retained s x.1 block)
              x.1.key block block' w.parts refl refl found' refl good;
        found =
            ap (find (retained s x.1 block).pending) (sym f.same_key)
            ∙ find-change_self s.pending x.1.key block block' found';
        original = w.original;
        sized = w.sized;
        until = w.until;
      }

  Waits-swept :
      (t : ℕ) (d : Decoder) (block : PendingBlock)
      → Waits d block
      → t < limit
      → Waits (sweep_locked t d).0 block
  Waits-swept t d block w early =
      let x = sweep-Takes t d key block w.found (omega (arith, w.until)) in
      record {
        live = x.live ∙ w.live;
        parts = sweep_locked-HasParts codec reconstruct params n payload_of full_of t d w.parts;
        found = x.holds;
        original = w.original;
        sized = w.sized;
        until = w.until;
      }

  abbrev pub rest_of :
      Decoder × Result Error Added
      → ℕ × IncomingShard
      → List (ℕ × IncomingShard)
      → List (ℕ × List ℕ)
  rest_of answer x xs =
      prepend (delivery x.1 answer.1) (deliveries reconstruct answer.0 (map call_of xs))

  abbrev pub one_delivery : List (ℕ × List ℕ)
  one_delivery = (key.packet_id, payload_of key.packet_id) ∷ []

  pub deliveries-adds :
      (s : Decoder) (x : ℕ × IncomingShard) (xs : List (ℕ × IncomingShard))
      → deliveries reconstruct s (map call_of (x ∷ xs))
        ≡ rest_of (add_verified_shard reconstruct x.0 s x.1) x xs
  unfolding deliveries after
  deliveries-adds s x xs = refl

  needs :
      (s : Decoder) (block : PendingBlock)
      → Waits s block
      → data_shards s ≡ pos_part params.data_shards
  needs s block w = ap (λ (p : Params). pos_part p.data_shards) w.parts.same_params

  -- The last of the k shards.
  last_completes :
      (s : Decoder) (block : PendingBlock) (x : ℕ × IncomingShard)
      → Waits s block
      → Fit s x
      → Free block x
      → block.present + 1 ≡ pos_part params.data_shards
      → rest_of (add_to_block reconstruct x.0 s x.1 block) x [] ≡ one_delivery
  last_completes s block x w f empty last =
      let block' = with_shard block (index_of x) x.1.payload in
      let s' = retained s x.1 block in
      let w' = Waits-retained s block x w f empty in
      let (part, count) = w'.parts.parts key block' w'.found in
      let k_eq = needs s block w in
      let e = add_to_block-enough reconstruct x.0 s x.1 block empty (ground (arith, last, k_eq)) in
      let part' =
        subst (λ (q : BlockKey). IsPart block'.shards (full_of q.packet_id)) (sym f.same_key)
          part in
      let done =
        finish_block-delivers codec reconstruct params n payload_of full_of systematic library x.0
          x.1 f.genuine s' block' w.parts.same_params part' (omega (arith, count, last, k_eq)) in
      ap (λ (a : Decoder × Result Error Added). rest_of a x []) (e ∙ done)
      ∙ (unfold deliveries in
          ap (λ (q : BlockKey). (q.packet_id, payload_of q.packet_id) ∷ []) f.same_key)

  retained-accepts :
      (s : Decoder) (x : IncomingShard) (block : PendingBlock) (input : IncomingShard)
      → validate_shard (retained s x block) input ≡ validate_shard s input
  unfolding validate_shard
  retained-accepts s x block input = refl

  pub completes :
      (xs : List (ℕ × IncomingShard)) (s : Decoder) (block : PendingBlock) (x : ℕ × IncomingShard)
      → Waits s block
      → Fit s x
      → Free block x
      → All (Fit s) xs
      → All (Free block) xs
      → HasDistinct (x ∷ xs)
      → block.present + 1 + length xs ≡ pos_part params.data_shards
      → rest_of (add_to_block reconstruct x.0 s x.1 block) x xs ≡ one_delivery
  completes [] s block x w f empty fs free apart count =
      last_completes s block x w f empty (omega arith)
  completes (y ∷ ys) s block x w f empty (g, gs) (free_y, free) ((ne, apart), distinct) count =
      let block' = with_shard block (index_of x) x.1.payload in
      let s' = retained s x.1 block in
      let w' = Waits-retained s block x w f empty in
      let k_eq = needs s block w in
      let e = add_to_block-few reconstruct x.0 s x.1 block empty (ground (arith, count, k_eq)) in
      let t = (sweep_locked y.0 s').0 in
      let w'' = Waits-swept y.0 s' block' w' g.early in
      let takes = sweep-Takes y.0 s' key block' w'.found (omega (arith, w'.until, g.early)) in
      let g' = (All-Fits s s' (y ∷ []) (retained-accepts s x.1 block) (g, tt)).0 in
      let original : block'.original_length ≡ pos_part y.1.original_length =
        w'.original
        ∙ ap (λ (q : BlockKey). length (payload_of q.packet_id)) (sym g.same_key)
        ∙ sym g.genuine.original in
      let called =
        later_call reconstruct y.0 s' y.1 block' size w'.live g'.accepted
          (ap (find t.pending) g.same_key ∙ w''.found) original w'.sized in
      let more =
        completes ys t block' y w'' (All-Fits s' t (y ∷ []) takes.accepts (g', tt)).0
          (All-Free block x (y ∷ []) (ne, tt) (free_y, tt)).0
          (All-Fits s t ys (λ input. takes.accepts input ∙ retained-accepts s x.1 block input) gs)
          (All-Free block x ys apart free) distinct (omega arith) in
      ap (λ (a : Decoder × Result Error Added). rest_of a x (y ∷ ys)) e
      ∙ (deliveries-adds s' y ys
          ∙ ap (λ (a : Decoder × Result Error Added). rest_of a y ys) called
          ∙ more)
