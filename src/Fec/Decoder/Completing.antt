-- ===== src/Fec/Decoder/Completing.antt =====
-- internal/fec: any k shards of a block, in time, complete it.
use mpudp.Prelude.{
  ℕ, zero, suc, ◌+◌, ◌≤◌, ◌≡◌, refl, sym, ap, ◌∙◌, subst, List, [], ◌∷◌, map, Bool, false, leb,
  length, get_or, replicate, Option, none, some, ok, Result, All, arith, Option-cases, inl, inr,
}
use mpudp.Prelude.Int.{pos_part}
use mpudp.Fec.{Params, Limits, Error}
use mpudp.Fec.Block.{IsSystematic}
use mpudp.Fec.Replay
use mpudp.Fec.Expiry.{BlockKey}
use mpudp.Fec.Decoder.{
  IncomingShard, Added, Decoder, DecoderConfig, find, validate_shard, new_decoder, new_state,
  new_replay,
}
use mpudp.Fec.Decoder.Expiration.{sweep_pending, sweep_completed, sweep_locked}
use mpudp.Fec.Decoder.Adding.{
  is_too_old, is_contained, add_to_block, add_valid, open_block, opened, new_block,
  add_verified_shard,
}
use mpudp.Fec.Decoder.Cases.{delivery, new_decoder-parts}
use mpudp.Fec.Decoder.Maps.{same_key_refl}
use mpudp.Fec.Decoder.Runs.{deliveries, prepend}
use mpudp.Fec.Decoder.Contents.{Rebuilds, sent-length}
use mpudp.Fec.Decoder.Genuine.{HasParts, opened-HasParts}
use mpudp.Fec.Decoder.Waiting.{Fits, Waits, All-Fits, completes, deliveries-adds}
use mpudp.Fec.Decoder.Taking.{index_of, HasDistinct, call_of}

fresh-accepts :
    (direction : Option (List ℕ)) (id : ℕ)
    → (is_too_old (new_replay direction) id ≡ false)
      × (is_contained (new_replay direction) id ≡ false)
fresh-accepts none id = (refl, refl)
fresh-accepts (some session) id =
    (unfold Replay.too_old in ground arith, unfold Replay.contains in ground arith)

module _ (reconstruct : List (List ℕ) → Option (List (List ℕ))) (config : DecoderConfig)
    (limits : Limits) (count : ℕ) where
  abbrev fresh : Decoder
  fresh = new_state config limits count

  -- The first shard opens its block.
  first_call :
      (t size : ℕ) (input : IncomingShard)
      → 1 ≤ pos_part config.max_pending_blocks
      → validate_shard fresh input ≡ ok size
      → add_verified_shard reconstruct t fresh input
        ≡ add_to_block reconstruct t
            (opened t fresh input size)
            input
            (new_block t fresh input size)
  first_call t size input roomy valid =
      let swept : (sweep_locked t fresh).0 ≡ fresh =
        unfold sweep_locked sweep_pending sweep_completed in refl in
      let whole : add_verified_shard reconstruct t fresh input
          ≡ add_valid reconstruct t (sweep_locked t fresh).0 input size =
        unfold add_verified_shard in rw (valid, add_verified_shard) refl in
      let unknown : add_valid reconstruct t fresh input size
          ≡ open_block reconstruct t fresh input size =
        unfold add_valid in refl in
      let (young, new) = fresh-accepts config.replay_window input.key.packet_id in
      let room : leb (pos_part config.max_pending_blocks) 0 ≡ false = ground arith in
      let opens_it : open_block reconstruct t fresh input size
          ≡ add_to_block reconstruct t (opened t fresh input size) input
              (new_block t fresh input size) =
        unfold open_block in rw (young, open_block) (rw new (rw room refl)) in
      whole ∙ ap (λ (s : Decoder). add_valid reconstruct t s input size) swept ∙ unknown ∙ opens_it

module _ (codec reconstruct : List (List ℕ) → Option (List (List ℕ))) (params : Params) (n : ℕ)
    (payload_of : ℕ → List ℕ) (full_of : ℕ → List (List ℕ))
    (systematic : IsSystematic codec (pos_part params.data_shards) n)
    (library : Rebuilds codec reconstruct (pos_part params.data_shards) n) (key : BlockKey)
    (size : ℕ) (config : DecoderConfig) (limits : Limits) (count : ℕ) (p : config.params ≡ params)
    (counted : count ≡ n) where
  abbrev Start : Decoder
  Start = fresh reconstruct config limits count

  fresh-Waits :
      (t : ℕ) (input : IncomingShard)
      → Fits codec reconstruct params n payload_of full_of key size
          (t + pos_part config.decode_timeout)
          Start
          (t, input)
      → Waits codec reconstruct params n payload_of full_of systematic library key size
          (t + pos_part config.decode_timeout)
          (opened t Start input size)
          (new_block t Start input size)
  fresh-Waits t input f =
      let empty : HasParts codec reconstruct params n payload_of full_of Start = record {
        same_params = p;
        same_total = counted;
        parts = λ k b found. cc;
      } in
      let len =
        sent-length codec reconstruct params n systematic library input.key.packet_id
          (payload_of input.key.packet_id) (full_of input.key.packet_id) f.genuine.sent in
      let self = same_key_refl input.key in
      record {
        live = refl;
        parts =
            opened-HasParts codec reconstruct params n payload_of full_of Start t size input len
              empty;
        found =
            ap (find (opened t Start input size).pending) (sym f.same_key) ∙ ground (arith, self);
        original =
            f.genuine.original ∙ ap (λ (q : BlockKey). length (payload_of q.packet_id)) f.same_key;
        sized = refl;
        until = refl;
      }

  get_or-replicate : (m i : ℕ) → get_or {A = Option (List ℕ)} (replicate m none) i none ≡ none
  get_or-replicate zero i = refl
  get_or-replicate (suc m) zero = refl
  get_or-replicate (suc m) (suc i) = get_or-replicate m i

  All-fresh :
      (t : ℕ) (input : IncomingShard) (xs : List (ℕ × IncomingShard))
      → All
          (λ (x : ℕ × IncomingShard).
            get_or (new_block t Start input size).shards (index_of x) none ≡ none)
          xs
  All-fresh t input [] = tt
  All-fresh t input (x ∷ xs) = (get_or-replicate count (index_of x), All-fresh t input xs)

  opened-accepts :
      (t : ℕ) (input other : IncomingShard)
      → validate_shard (opened t Start input size) other ≡ validate_shard Start other
  opened-accepts t input other = elim (Option-cases config.replay_window) [
    | inl cached ↦ unfold validate_shard in rw cached refl
    | inr (session, windowed) ↦ unfold validate_shard in rw windowed refl
  ]

  fresh-completes :
      (t : ℕ) (input : IncomingShard) (xs : List (ℕ × IncomingShard))
      → 1 ≤ pos_part config.max_pending_blocks
      → All
          (Fits codec reconstruct params n payload_of full_of key size
            (t + pos_part config.decode_timeout)
            Start)
          ((t, input) ∷ xs)
      → HasDistinct ((t, input) ∷ xs)
      → length ((t, input) ∷ xs) ≡ pos_part params.data_shards
      → deliveries reconstruct Start (map call_of ((t, input) ∷ xs))
        ≡ (key.packet_id, payload_of key.packet_id) ∷ []
  fresh-completes t input xs roomy (f, fs) distinct enough =
      let limit = t + pos_part config.decode_timeout in
      let s = opened t Start input size in
      let block = new_block t Start input size in
      let fits =
        All-Fits codec reconstruct params n payload_of full_of systematic library key size limit
          Start s ((t, input) ∷ xs) (opened-accepts t input) (f, fs) in
      let first = first_call reconstruct config limits count t size input roomy f.accepted in
      let done =
        completes codec reconstruct params n payload_of full_of systematic library key size limit xs
          s block (t, input) (fresh-Waits t input f) fits.0
          (get_or-replicate count (pos_part input.index)) fits.1 (All-fresh t input xs) distinct
          (omega (arith, enough)) in
      deliveries-adds codec reconstruct params n payload_of full_of systematic library key size
        limit Start (t, input) xs
      ∙ ap
          (λ (a : Decoder × Result Error Added).
            prepend (delivery input a.1) (deliveries reconstruct a.0 (map call_of xs)))
          first
      ∙ done

-- On the library's terms: let a new Decoder be given, in any order, k different shards of one block that an Encoder
-- with its parameters made, at times before the first one's decode timeout is over, and let it accept each of them by
-- itself. Then it returns what was encoded, with its packet ID, and nothing else.
pub deliveries_complete :
    (codec reconstruct : List (List ℕ) → Option (List (List ℕ))) (params : Params) (n : ℕ)
    (payload_of : ℕ → List ℕ) (full_of : ℕ → List (List ℕ))
    → IsSystematic codec (pos_part params.data_shards) n
    → Rebuilds codec reconstruct (pos_part params.data_shards) n
    → (accepts : ℕ → ℕ → Bool) (config : DecoderConfig) (d : Decoder) (key : BlockKey) (size t : ℕ)
      (input : IncomingShard) (xs : List (ℕ × IncomingShard))
    → config.params ≡ params
    → new_decoder accepts config ≡ ok d
    → d.total ≡ n
    → All
        (Fits codec reconstruct params n payload_of full_of key size
          (t + pos_part config.decode_timeout)
          d)
        ((t, input) ∷ xs)
    → HasDistinct ((t, input) ∷ xs)
    → length ((t, input) ∷ xs) ≡ pos_part params.data_shards
    → deliveries reconstruct d (map call_of ((t, input) ∷ xs))
      ≡ (key.packet_id, payload_of key.packet_id) ∷ []
deliveries_complete codec reconstruct params n payload_of full_of systematic library accepts config
      d key size t input xs p made total_eq fits distinct enough =
    let (limits, count, _, _, roomy, _, same) = new_decoder-parts accepts config d made in
    let fits' =
      subst
        (λ (s : Decoder).
          All
            (Fits codec reconstruct params n payload_of full_of key size
              (t + pos_part config.decode_timeout) s)
            ((t, input) ∷ xs))
        same fits in
    ap (λ (s : Decoder). deliveries reconstruct s (map call_of ((t, input) ∷ xs))) same
    ∙ fresh-completes codec reconstruct params n payload_of full_of systematic library key size
        config limits count p (ap (λ (s : Decoder). s.total) (sym same) ∙ total_eq) t input xs roomy
        fits' distinct enough
