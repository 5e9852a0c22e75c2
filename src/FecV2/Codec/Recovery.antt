-- ===== src/FecV2/Codec/Recovery.antt =====
-- internal/fecv2/group.go: `Decode` on the shards of a group that `Encode` returned.
use mpudp.Prelude.{
  ℕ, zero, suc, ◌-◌, ◌*◌, ◌/◌, ◌≤◌, ◌≡◌, refl, sym, ap, ◌∙◌, subst, List, [], ◌∷◌, map, Bool, true,
  leb, if◌then◌else◌, arith, length, take, replicate, all_zero, Option, none, some, ok, err, All,
  inl, inr, Bool-cases, take-append_exact, drop-append_exact,
}
use native.Mathlib.Nat.{mul-div_cancel, add-mul}
use mpudp.Fec.Encoder.{backing, slices}
use mpudp.Fec.Parts.{HasSize, IsPart, present, length-part, shard_or_empty}
use mpudp.Fec.Split.{length-backing, length-slices, slices-sized, take-slices}
use mpudp.FecV2.{
  Parameters, Fragment, validate, logical_size, manifest, insufficient_shards,
  max_descriptors_limit,
}
use mpudp.FecV2.Writing.{IsFragment, length-manifest, logical_size-bounds, parse_manifest-manifest}
use mpudp.FecV2.Codec.{
  Group, shard_slices, shard_count, prepared, encode, count_present, collect, decode,
}
use mpudp.FecV2.Codec.Padding.{collect-slices}

-- What the Reed-Solomon library documents, for `k` data shards among `n` of `size` bytes: `Encode` leaves the
-- data shards and the sizes as they are, `Reconstruct` fills any `n - k` absent shards in, and `Verify` accepts what
-- `Encode` returns.
pub record IsErasureCode (codec reconstruct : List (List ℕ) → Option (List (List ℕ)))
    (verify : List (List ℕ) → Option Bool) (k n size : ℕ) : Type 0 where
  pub keeps :
      (shards full : List (List ℕ))
      → length shards ≡ n
      → HasSize size shards
      → codec shards ≡ some full
      → (take k full ≡ take k shards) × (length full ≡ n) × HasSize size full
  pub restores :
      (shards full : List (List ℕ)) (parts : List (Option (List ℕ)))
      → length shards ≡ n
      → HasSize size shards
      → codec shards ≡ some full
      → IsPart parts full
      → k ≤ present parts
      → reconstruct (map shard_or_empty parts) ≡ some full
  pub verifies :
      (shards full : List (List ℕ))
      → length shards ≡ n
      → HasSize size shards
      → codec shards ≡ some full
      → verify full ≡ some true

count_present-part :
    (size : ℕ) (parts : List (Option (List ℕ))) (full : List (List ℕ))
    → HasSize size full
    → IsPart parts full
    → count_present size parts ≡ ok (present parts)
unfolding count_present
count_present-part size [] [] h p = refl
count_present-part size [] (s ∷ ss) h p = elim p [ ]
count_present-part size (x ∷ xs) [] h p = absurd (none_there x p)
  where
    none_there : (y : Option (List ℕ)) → IsPart (y ∷ xs) [] → ⊥
    none_there none q = q
    none_there (some z) q = q
count_present-part size (none ∷ xs) (s ∷ ss) h p = count_present-part size xs ss h.1 p
count_present-part size (some x ∷ xs) (s ∷ ss) h p =
    let e : length x ≡ size = ap length p.0 ∙ h.0 in
    let more = count_present-part size xs ss h.1 p.1 in ground (arith, e, more)

all_zero-replicate : (n : ℕ) → all_zero (replicate n 0) ≡ true
all_zero-replicate zero = refl
all_zero-replicate (suc n) = all_zero-replicate n

validate-parts :
    (p : Parameters)
    → validate p ≡ ok tt
    → (1 ≤ p.shard_bytes)
      × (p.max_descriptors ≤ max_descriptors_limit)
      × (p.max_logical_bytes ≤ p.data_shards * p.shard_bytes)
unfolding validate
validate-parts p h = (ground arith, ground arith, ground arith)

module _ (p : Parameters) (fs : List Fragment) (size : ℕ) (valid : validate p ≡ ok tt)
    (sized : logical_size p fs ≡ ok size) where
  array_fits :
      (size ≤ p.data_shards * p.shard_bytes)
      × (p.data_shards * p.shard_bytes ≤ shard_count p * p.shard_bytes)
  array_fits =
      let (b, d, m) = validate-parts p valid in
      let (lo, hi) = logical_size-bounds p fs size sized in
      (omega arith, omega (arith, add-mul p.data_shards p.parity_shards p.shard_bytes))

  length-array :
      length (backing (manifest fs) (shard_count p * p.shard_bytes)) ≡ shard_count p * p.shard_bytes
  length-array =
      let (a, b) = array_fits in
      length-backing (manifest fs) (shard_count p * p.shard_bytes)
        (omega (arith, length-manifest p fs size sized))

  prepared-eq :
      prepared p fs
      ≡ slices (shard_count p) p.shard_bytes (backing (manifest fs) (shard_count p * p.shard_bytes))
  unfolding prepared shard_slices
  prepared-eq =
      let (b, d, m) = validate-parts p valid in
      let all = backing (manifest fs) (shard_count p * p.shard_bytes) in
      ap (λ (n : ℕ). slices n p.shard_bytes all)
        (ap (λ (n : ℕ). n / p.shard_bytes) length-array
          ∙ mul-div_cancel (shard_count p) (omega arith))

  pub prepared-sized :
      (length (prepared p fs) ≡ shard_count p) × HasSize p.shard_bytes (prepared p fs)
  prepared-sized =
      let all = backing (manifest fs) (shard_count p * p.shard_bytes) in
      subst (λ (l : List (List ℕ)). (length l ≡ shard_count p) × HasSize p.shard_bytes l)
        (sym prepared-eq)
        (
          length-slices (shard_count p) p.shard_bytes all,
          slices-sized (shard_count p) p.shard_bytes all (omega (arith, length-array)),
        )

  collect-prepared :
      collect p.shard_bytes size (take p.data_shards (prepared p fs)) ≡ ok (manifest fs)
  unfolding backing
  collect-prepared =
      let all = backing (manifest fs) (shard_count p * p.shard_bytes) in
      let zeros : List ℕ = replicate (shard_count p * p.shard_bytes - length (manifest fs)) 0 in
      let (a, b) = array_fits in
      let len = length-manifest p fs size sized in
      ap (λ (l : List (List ℕ)). collect p.shard_bytes size (take p.data_shards l)) prepared-eq
      ∙ ap (collect p.shard_bytes size)
          (take-slices p.data_shards (shard_count p) p.shard_bytes all (omega arith))
      ∙ collect-slices p.data_shards p.shard_bytes size all a (
          ap all_zero (drop-append_exact (manifest fs) zeros size len)
          ∙ all_zero-replicate (shard_count p * p.shard_bytes - length (manifest fs)))
      ∙ ap ok (take-append_exact (manifest fs) zeros size len)

encode-parts :
    (codec : List (List ℕ) → Option (List (List ℕ))) (p : Parameters) (fs : List Fragment)
    (g : Group)
    → encode codec p fs ≡ ok g
    → (logical_size p fs ≡ ok g.logical_bytes) × (codec (prepared p fs) ≡ some g.shards)
unfolding encode
encode-parts codec p fs g h = (ground arith, ground arith)

module _ (codec reconstruct : List (List ℕ) → Option (List (List ℕ)))
    (verify : List (List ℕ) → Option Bool) where
  -- With an erasure code, what is left of an encoded group of shards is decoded to the fragments where at
  -- least `data_shards` of them are left, and to `insufficient_shards` otherwise.
  pub decode-encode :
      (p : Parameters) (fs : List Fragment) (g : Group) (parts : List (Option (List ℕ)))
      → IsErasureCode codec reconstruct verify p.data_shards (shard_count p) p.shard_bytes
      → validate p ≡ ok tt
      → All IsFragment fs
      → encode codec p fs ≡ ok g
      → IsPart parts g.shards
      → decode reconstruct verify p g.logical_bytes parts
        ≡ (if leb p.data_shards (present parts) then ok fs else err insufficient_shards)
  unfolding decode
  decode-encode p fs g parts c valid r h part =
      let (sized, coded) = encode-parts codec p fs g h in
      let (small, few, room) = validate-parts p valid in
      let (lo, hi) = logical_size-bounds p fs g.logical_bytes sized in
      let (n, full) = prepared-sized p fs g.logical_bytes valid sized in
      let (kept, count, size) = c.keeps (prepared p fs) g.shards n full coded in
      let counted = count_present-part p.shard_bytes parts g.shards size part in
      let len = length-part parts g.shards part ∙ count in
      let read : collect p.shard_bytes g.logical_bytes (take p.data_shards g.shards)
          ≡ ok (manifest fs) =
        ap (collect p.shard_bytes g.logical_bytes) kept
        ∙ collect-prepared p fs g.logical_bytes valid sized in
      let parsed = parse_manifest-manifest p fs g.logical_bytes few r sized in
      let verified = c.verifies (prepared p fs) g.shards n full coded in
      elim (Bool-cases (leb p.data_shards (present parts))) [
        | inl enough ↦
            let restored =
              c.restores (prepared p fs) g.shards parts n full coded part (ground arith) in
            ground (arith, counted, len, restored, verified, read, parsed, enough)
        | inr short ↦ ground (arith, counted, len, short)
      ]
