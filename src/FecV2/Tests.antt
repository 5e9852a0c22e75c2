-- ===== src/FecV2/Tests.antt =====
-- internal/fecv2: a pair of fragments through `Encode`, `Decode` and `EncodePrefix`, with a code of two equal shards.
use mpudp.Prelude.{
  ℕ, ◌+◌, ◌≤◌, ◌<◌, ◌≡◌, ◌⊎◌, refl, sym, ap, subst, ◌∙◌, List, [], ◌∷◌, ◌++◌, map, Bool, ◌==◌,
  if◌then◌else◌, arith, length, take, replicate, total, bytes_eq, bytes_eq_refl, Option, none, some,
  ok, err, ◌>>=◌, All,
}
use mpudp.FecV2.{
  Parameters, Fragment, validate, validate_fragment, size_from, logical_size, descriptor,
  descriptors, payloads, manifest, fragment_at, check_fragments, read_fragments, parse_manifest,
  manifest_bytes, descriptor_bytes, no_payload_capacity, insufficient_shards,
}
use mpudp.FecV2.Writing.{IsFragment, parse_manifest-manifest}
use mpudp.FecV2.Reading.{manifest-parse_manifest}
use mpudp.Fec.Encoder.{backing, slices}
use mpudp.FecV2.Codec.{Group, shard_slices, prepared, encode, decode}
use mpudp.FecV2.Codec.Recovery.{IsErasureCode, decode-encode}
use mpudp.Fec.Parts.{shard_or_empty, IsPart, HasSize, present}
use mpudp.FecV2.Packing.{validate_fragments, is_full, plan, planned, encode_prefix}
use mpudp.FecV2.Packing.Consumed.{consumed, unconsumed, weight, encode_prefix-progress}
use mpudp.FecV2.Packing.Fitting.{encode_prefix-outcome}

abbrev params : Parameters
params = record {
  data_shards = 1;
  parity_shards = 1;
  shard_bytes = 60;
  max_descriptors = 2;
  max_logical_bytes = 50;
  max_datagram_bytes = 1000;
}

abbrev first : Fragment
first = record { datagram_id = 1; total_bytes = 3; offset = 0; payload = 7 ∷ 8 ∷ 9 ∷ [] }

abbrev second : Fragment
second = record { datagram_id = 5; total_bytes = 700; offset = 10; payload = 4 ∷ 5 ∷ 6 ∷ [] }

abbrev pair : List Fragment
pair = first ∷ second ∷ []

abbrev copies : List (List ℕ) → Option (List (List ℕ))
copies (a ∷ b ∷ []) = some (a ∷ a ∷ [])
copies _ = none

abbrev restored : List (List ℕ) → Option (List (List ℕ))
restored (a ∷ b ∷ []) = if length a == 0 then some (b ∷ b ∷ []) else some (a ∷ a ∷ [])
restored _ = none

abbrev verified : List (List ℕ) → Option Bool
verified (a ∷ b ∷ []) = some (bytes_eq a b)
verified _ = none

valid : validate params ≡ ok tt
unfolding validate
valid = refl

sized : logical_size params pair ≡ ok 50
unfolding logical_size size_from validate_fragment
sized = refl

in_range : All IsFragment pair
in_range = omega arith

parse_manifest-manifest_example : parse_manifest params (manifest pair) ≡ ok pair
parse_manifest-manifest_example =
    parse_manifest-manifest params pair 50 (omega arith) in_range sized

abbrev written : List ℕ
written =
    0 ∷ 1 ∷ 0 ∷ 1 ∷ 0 ∷ 0 ∷ 0 ∷ 0 ∷ 0 ∷ 0 ∷ 0 ∷ 1 ∷ 0 ∷ 0 ∷ 0 ∷ 3 ∷ 0 ∷ 0 ∷ 0 ∷ 0 ∷ 0 ∷ 0 ∷ 0 ∷ 3
    ∷ 7 ∷ 8 ∷ 9 ∷ []

written_read : parse_manifest params written ≡ ok (first ∷ [])
unfolding parse_manifest check_fragments read_fragments fragment_at validate_fragment
written_read = refl

manifest-parse_manifest_example :
    (manifest (first ∷ []) ≡ written) × (logical_size params (first ∷ []) ≡ ok 27)
manifest-parse_manifest_example =
    manifest-parse_manifest params written (first ∷ []) (omega arith) (omega arith) written_read

copies_inverted :
    (shards full : List (List ℕ))
    → copies shards ≡ some full
    → (a : List ℕ) × (b : List ℕ) × (shards ≡ a ∷ b ∷ []) × (full ≡ a ∷ a ∷ [])
copies_inverted [] full e = cc
copies_inverted (a ∷ []) full e = cc
copies_inverted (a ∷ b ∷ []) full e = (a, b, refl, ground arith)
copies_inverted (a ∷ b ∷ c ∷ more) full e = cc

restored_part :
    (a : List ℕ) (parts : List (Option (List ℕ)))
    → length a ≡ 60
    → IsPart parts (a ∷ a ∷ [])
    → 1 ≤ present parts
    → restored (map shard_or_empty parts) ≡ some (a ∷ a ∷ [])
restored_part a [] l p h = elim p [ ]
restored_part a (none ∷ []) l p h = elim p [ ]
restored_part a (some x ∷ []) l p h = elim p.1 [ ]
restored_part a (none ∷ none ∷ []) l p h = absurd (omega arith)
restored_part a (none ∷ some x ∷ []) l p h = rw p.0
restored_part a (some x ∷ none ∷ []) l p h = rw p.0 (ground (arith, l))
restored_part a (some x ∷ some y ∷ []) l p h = rw (p.0) (ground (arith, l))
restored_part a (none ∷ none ∷ z ∷ more) l p h = absurd (omega arith)
restored_part a (none ∷ some x ∷ z ∷ more) l p h = absurd (omega arith)
restored_part a (some x ∷ none ∷ z ∷ more) l p h = absurd (omega arith)
restored_part a (some x ∷ some y ∷ z ∷ more) l p h = absurd (omega arith)

copies-IsErasureCode : IsErasureCode copies restored verified 1 2 60
copies-IsErasureCode = record {
  keeps = λ shards full n s e.
      let (a, b, same, made) = copies_inverted shards full e in
      let l : length a ≡ 60 = (subst (HasSize 60) same s).0 in
      (
        ap (take 1) made ∙ ap (take 1) (sym same),
        ap length made,
        subst (HasSize 60) (sym made) (l, (l, tt)),
      );
  restores = λ shards full parts n s e p h.
      let (a, b, same, made) = copies_inverted shards full e in
      let l : length a ≡ 60 = (subst (HasSize 60) same s).0 in
      restored_part a parts l (subst (IsPart parts) made p) h ∙ ap some (sym made);
  verifies = λ shards full n s e.
      let (a, b, same, made) = copies_inverted shards full e in
      ap verified made ∙ ap some (bytes_eq_refl a);
}

abbrev group : Group
group = record {
  logical_bytes = 50;
  shards = (manifest pair ++ replicate 10 0) ∷ (manifest pair ++ replicate 10 0) ∷ [];
}

encoded : encode copies params pair ≡ ok group
unfolding encode prepared shard_slices slices backing logical_size size_from validate_fragment
    manifest descriptors descriptor payloads
encoded = refl

decode-encode_example :
    decode restored verified params 50 (none ∷ some (manifest pair ++ replicate 10 0) ∷ [])
    ≡ ok pair
decode-encode_example =
    decode-encode copies restored verified params pair group
      (none ∷ some (manifest pair ++ replicate 10 0) ∷ []) copies-IsErasureCode valid in_range
      encoded (refl, tt)

decode-encode_lost : decode restored verified params 50 (none ∷ none ∷ []) ≡ err insufficient_shards
decode-encode_lost =
    decode-encode copies restored verified params pair group (none ∷ none ∷ []) copies-IsErasureCode
      valid in_range encoded tt

-- Only two bytes of the second fragment fit.
abbrev long_pair : List Fragment
long_pair = first ∷ record second { payload = 4 ∷ 5 ∷ 6 ∷ 7 ∷ [] } ∷ []

packed : encode_prefix copies params long_pair ≡ ok (group, record { next = 1; bytes = 3 })
unfolding encode_prefix validate_fragments plan is_full encode prepared shard_slices slices backing
    logical_size size_from validate_fragment manifest descriptors descriptor payloads
packed = refl

encode_prefix-progress_example :
    (encode copies params (consumed 1 3 long_pair) ≡ ok group)
    × (payloads (consumed 1 3 long_pair) ++ payloads (unconsumed 1 3 long_pair)
        ≡ payloads long_pair)
    × (total weight (unconsumed 1 3 long_pair) < total weight long_pair)
    × (validate_fragments params 0 (unconsumed 1 3 long_pair) ≡ ok tt)
    × (◌≤◌ 1 2)
encode_prefix-progress_example =
    encode_prefix-progress copies params long_pair group (record { next = 1; bytes = 3 }) packed

long_valid : validate_fragments params 0 long_pair ≡ ok tt
unfolding validate_fragments validate_fragment
long_valid = refl

encode_prefix-outcome_example :
    (let result = encode_prefix copies params long_pair in
      let (fragments, cursor) = planned params long_pair in
      ((params.max_logical_bytes ≡ manifest_bytes + descriptor_bytes)
        × (1 ≤ length first.payload)
        × (result ≡ err no_payload_capacity))
      ⊎ ((size : ℕ) × (logical_size params fragments ≡ ok size)
          × ((cursor ≡ record { next = length long_pair; bytes = 0 })
              ⊎ ((length fragments ≡ params.max_descriptors)
                  ⊎ (params.max_logical_bytes ≤ size + descriptor_bytes)))
          × (result ≡ (encode copies params fragments >>= λ g. ok (g, cursor)))))
encode_prefix-outcome_example =
    encode_prefix-outcome copies params first (record second { payload = 4 ∷ 5 ∷ 6 ∷ 7 ∷ [] } ∷ [])
      valid (omega arith) long_valid
