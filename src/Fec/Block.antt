-- ===== src/Fec/Block.antt =====
-- internal/fec: what the Encoder makes of a Datagram, and what the Decoder makes of that.
use mpudp.Prelude.{
  ℕ, ◌*◌, ◌/◌, ◌^◌, ◌≤◌, ◌<◌, ◌≡◌, ap, ◌∙◌, ◌↔◌, inl, inr, List, Bool, false, length, take, Option,
  some, Option-cases, Result-cases, ok, arith, All,
}
use mpudp.Prelude.Int.{pos_part}
use native.Mathlib.Nat.{mul-le-mul_right, le-div_iff_mul-le, mul_comm}
use mpudp.Fec.{Params, Budget, max_int, validate_params, derive_limits, shard_size_for_datagram}
use mpudp.Fec.Encoder.{
  EncodedBlock, Encoder, new_codec, new_encoder_at, backing, filled, slices, advance_id, encoded,
  check_block, encode, concat, join_data,
}
use mpudp.Fec.Bounds.{
  IsValid, IsSafe, validate_params-IsValid, derive_limits-IsSafe, shard_size-pos, shard_size-covers,
  shard_size-least,
}
use mpudp.Fec.Split.{data_slices-hold, slices-sized, length-slices, length-backing, take_all}

-- An Encoder that one of the constructors made, perhaps after some blocks.
pub record IsEncoder (e : Encoder) : Type 0 where
  pub valid : IsValid e.params e.total
  pub safe : IsSafe e.params e.total e.limits
  pub id_range : e.next < 2 ^ 64

new_encoder_at-parts :
    (accepts : ℕ → ℕ → Bool) (params : Params) (budget : Budget) (next : ℕ) (exhausted : Bool)
    (e : Encoder)
    → new_encoder_at accepts params budget next exhausted ≡ ok e
    → (derive_limits params budget ≡ ok e.limits)
      × (validate_params params ≡ ok e.total)
      × (params ≡ e.params)
      × (next ≡ e.next)
unfolding new_encoder_at new_codec
new_encoder_at-parts accepts params budget next exhausted e h =
    elim (Result-cases (derive_limits params budget)) [
      | inl (l, d) ↦ elim (Result-cases (validate_params params)) [
        | inl (t, v) ↦ (ground arith, ground arith, ground arith, ground arith)
        | inr (x, v) ↦ ground arith
      ]
      | inr (x, d) ↦ ground arith
    ]

-- A constructor's Encoder.
pub new_encoder_at-IsEncoder :
    (accepts : ℕ → ℕ → Bool) (params : Params) (budget : Budget) (next : ℕ) (exhausted : Bool)
    (e : Encoder)
    → next < 2 ^ 64
    → new_encoder_at accepts params budget next exhausted ≡ ok e
    → IsEncoder e
new_encoder_at-IsEncoder accepts params budget next exhausted e r h =
    let (d, v, same, at) = new_encoder_at-parts accepts params budget next exhausted e h in
    let (total, valid, safe) = derive_limits-IsSafe params budget e.limits d in
    let valid' = validate_params-IsValid params e.total v in
    let same_total : total ≡ e.total = omega (arith, valid.total_eq, valid'.total_eq) in
    record {
      valid = rw (← same) valid';
      safe = rw (← same, ← same_total) safe;
      id_range = omega (arith, at);
    }

module _ (e : Encoder) (payload : List ℕ) (x : IsEncoder e) where
  abbrev size : ℕ
  size = shard_size_for_datagram (length payload) (pos_part e.params.data_shards)

  -- The tests after the first two never fail.
  size-fits : length payload ≤ e.limits.effective_datagram_limit → size ≤ e.limits.shard_capacity
  size-fits h =
      let k = pos_part e.params.data_shards in
      shard_size-least (length payload) k e.limits.shard_capacity x.valid.some_data x.safe.room
        (omega (arith, x.safe.limit_le, x.safe.fec_limit_eq))

  size-small : length payload ≤ e.limits.effective_datagram_limit → size ≤ max_int / e.total
  size-small h =
      let some_total : 0 < e.total = omega (arith, x.valid.some_data, x.valid.total_eq) in
      let m = mul-le-mul_right e.total (size-fits h) in
      (le-div_iff_mul-le some_total).1
        (omega (arith, m, mul_comm e.limits.shard_capacity e.total, x.safe.block_fits))

  pub check_block-accepts :
      length payload ≤ e.limits.effective_datagram_limit
      → e.exhausted ≡ false
      → check_block e payload ≡ ok size
  unfolding check_block
  check_block-accepts h live = let fits = size-fits h in let small = size-small h in ground arith

pub check_block-size :
    (e : Encoder) (payload : List ℕ) (size : ℕ)
    → check_block e payload ≡ ok size
    → size ≡ shard_size_for_datagram (length payload) (pos_part e.params.data_shards)
unfolding check_block
check_block-size e payload size h = ground arith

pub check_block-accepted :
    (e : Encoder) (payload : List ℕ) (size : ℕ)
    → check_block e payload ≡ ok size
    → (length payload ≤ e.limits.effective_datagram_limit) × (e.exhausted ≡ false)
unfolding check_block
check_block-accepted e payload size h = (ground arith, ground arith)

-- What the Reed-Solomon library says of `Encode`: on shards of one size it does not fail, keeps the
-- number of shards, and leaves the first `k` as they are.
pub record IsSystematic (codec : List (List ℕ) → Option (List (List ℕ))) (k total : ℕ)
    : Type 0 where
  pub encodes :
      (size : ℕ) (shards : List (List ℕ))
      → 0 < size
      → length shards ≡ total
      → All (λ (s : List ℕ). length s ≡ size) shards
      → (out : List (List ℕ)) × (codec shards ≡ some out)
  pub keeps :
      (shards out : List (List ℕ))
      → codec shards ≡ some out
      → (length out ≡ length shards) × (take k out ≡ take k shards)

pub filled-eq :
    (e : Encoder) (payload : List ℕ) (size : ℕ)
    → length payload ≤ pos_part e.params.data_shards * size
    → filled e payload size ≡ backing payload (e.total * size)
filled-eq e payload size h =
    ap (λ (bytes : List ℕ). backing bytes (e.total * size)) (take_all payload _ h)

module _ (codec : List (List ℕ) → Option (List (List ℕ))) where
  pub encode-parts :
      (e e' : Encoder) (payload : List ℕ) (b : EncodedBlock)
      → encode codec e payload ≡ ok (b, e')
      → (size : ℕ) × (shards : List (List ℕ)) × (check_block e payload ≡ ok size)
        × (codec (slices e.total size (filled e payload size)) ≡ some shards)
        × (b ≡ encoded e payload shards)
        × (e' ≡ advance_id e)
  unfolding encode
  encode-parts e e' payload b h = elim (Result-cases (check_block e payload)) [
    | inl (size, c) ↦ elim (Option-cases (codec (slices e.total size (filled e payload size)))) [
      | inl n ↦ ground arith
      | inr (shards, s) ↦ (size, shards, c, s, ground arith, ground arith)
    ]
    | inr (cause, c) ↦ ground arith
  ]

  encode-computes :
      (e : Encoder) (payload : List ℕ) (s : ℕ) (out : List (List ℕ))
      → check_block e payload ≡ ok s
      → codec (slices e.total s (filled e payload s)) ≡ some out
      → encode codec e payload ≡ ok (encoded e payload out, advance_id e)
  unfolding encode
  encode-computes e payload s out checked coded = ground arith

  -- On the library's terms, an Encoder returns a block for exactly the Datagrams within its
  -- effective limit, as long as its packet IDs are not used up.
  pub encode_iff :
      (e : Encoder) (payload : List ℕ)
      → IsEncoder e
      → IsSystematic codec (pos_part e.params.data_shards) e.total
      → ((b : EncodedBlock) × (e' : Encoder) × (encode codec e payload ≡ ok (b, e')))
        ↔ ((length payload ≤ e.limits.effective_datagram_limit) × (e.exhausted ≡ false))
  encode_iff e payload x c = (
    λ (b, e', h).
        let (size, shards, checked, _, _, _) = encode-parts e e' payload b h in
        check_block-accepted e payload size checked,
    λ (fits, live).
        let k = pos_part e.params.data_shards in
        let s = shard_size_for_datagram (length payload) k in
        let all = filled e payload s in
        let some_size = shard_size-pos (length payload) k x.valid.some_data in
        let covers = shard_size-covers (length payload) k x.valid.some_data in
        let le_total : k ≤ e.total = omega (arith, x.valid.total_eq) in
        let room = mul-le-mul_right s le_total in
        let same = filled-eq e payload s covers in
        let long =
          ap length same ∙ length-backing payload (e.total * s) (omega (arith, covers, room)) in
        let (out, coded) =
          c.encodes s (slices e.total s all) some_size (length-slices e.total s all)
            (slices-sized e.total s all (omega (arith, long))) in
        (
          encoded e payload out,
          advance_id e,
          encode-computes e payload s out (check_block-accepts e payload x fits live) coded,
        ),
  )

  -- Let the library keep the first `k` shards. If an Encoder returns a block for a payload, then
  -- whatever shards the Decoder has at the end, if the first `k` are those of the block then it
  -- joins them to the very payload.
  pub join_data-encode :
      (e e' : Encoder) (payload : List ℕ) (b : EncodedBlock) (working : List (List ℕ))
      → IsEncoder e
      → IsSystematic codec (pos_part e.params.data_shards) e.total
      → encode codec e payload ≡ ok (b, e')
      → take (pos_part e.params.data_shards) working ≡ take (pos_part e.params.data_shards) b.shards
      → join_data (pos_part e.params.data_shards) b.original_length working ≡ ok payload
  unfolding join_data
  join_data-encode e e' payload b working x c h same =
      let k = pos_part e.params.data_shards in
      let (size, shards, checked, coded, made, _) = encode-parts e e' payload b h in
      let size_eq : size ≡ shard_size_for_datagram (length payload) k =
        check_block-size e payload size checked in
      let covers = shard_size-covers (length payload) k x.valid.some_data in
      let fits : length payload ≤ k * size = rw size_eq covers in
      let hold = data_slices-hold payload k e.total size (omega (arith, x.valid.total_eq)) fits in
      let start : take k working ≡ take k (slices e.total size (backing payload (e.total * size))) =
        same
        ∙ ap (λ (y : EncodedBlock). take k y.shards) made
        ∙ (c.keeps _ shards coded).1
        ∙ ap (λ (bytes : List ℕ). take k (slices e.total size bytes))
            (filled-eq e payload size fits) in
      let all : take b.original_length (concat (take k working)) ≡ payload =
        ap (λ (y : EncodedBlock). take y.original_length (concat (take k working))) made
        ∙ ap (λ (xs : List (List ℕ)). take (length payload) (concat xs)) start
        ∙ hold in
      let n : b.original_length ≡ length payload =
        ap (λ (y : EncodedBlock). y.original_length) made in
      ground arith
