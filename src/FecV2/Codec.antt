-- ===== src/FecV2/Codec.antt =====
-- internal/fecv2/group.go: `Encode` and `Decode`. `codec`, `reconstruct` and `verify` stand for `Encode`,
-- `Reconstruct` and `Verify` of the Reed-Solomon library, `none` for an error; an absent shard is empty there.
pub mod Padding
pub mod Recovery
use mpudp.Prelude.{
  ℕ, zero, suc, ◌+◌, ◌-◌, ◌*◌, ◌/◌, List, [], ◌∷◌, ◌++◌, map, Bool, true, false, not, ◌||◌, ◌==◌,
  ltb, length, take, drop, min, all_zero, Option, none, some, Result, ok, err, ◌>>=◌, ◌>>◌,
  reject_if,
}
use mpudp.Fec.Encoder.{backing, slices}
use mpudp.Fec.Parts.{shard_or_empty}
use mpudp.FecV2.{
  Error, Parameters, Fragment, logical_size, manifest, parse_manifest, manifest_bytes,
  descriptor_bytes, invalid, insufficient_shards,
}

pub record Group : Type 0 where
  pub logical_bytes : ℕ  -- uint32
  pub shards : List (List ℕ)

unfoldable pub shard_slices : List ℕ → ℕ → List (List ℕ)
shard_slices bytes size = slices (length bytes / size) size bytes

abbrev pub shard_count : Parameters → ℕ
shard_count p = p.data_shards + p.parity_shards

-- The shards that `Encode` hands to the library.
unfoldable pub prepared : Parameters → List Fragment → List (List ℕ)
prepared p fs = shard_slices (backing (manifest fs) (shard_count p * p.shard_bytes)) p.shard_bytes

module _ (codec : List (List ℕ) → Option (List (List ℕ))) where
  unfoldable pub encode : Parameters → List Fragment → Result Error Group
  encode p fs = do
    size ← logical_size p fs
    elim (codec (prepared p fs)) [
      | none ↦ err invalid
      | some shards ↦ ok (record { logical_bytes = size; shards = shards })
    ]

-- The first loop of `Decode`; `none` is a nil shard.
unfoldable pub count_present : ℕ → List (Option (List ℕ)) → Result Error ℕ
count_present size [] = ok 0
count_present size (none ∷ input) = count_present size input
count_present size (some shard ∷ input) = do
  reject_if (not (length shard == size)) invalid
  present ← count_present size input
  ok (present + 1)

-- The last loop of `Decode`, with `left` logical bytes to come.
unfoldable pub collect : ℕ → ℕ → List (List ℕ) → Result Error (List ℕ)
collect size left [] = ok []
collect size left (shard ∷ shards) = do
  let used = min left size
  reject_if (not (all_zero (drop used shard))) invalid
  more ← collect size (left - used) shards
  ok (take used shard ++ more)

abbrev pub or_invalid {ℓ} : {A : Type ℓ} → Option A → Result Error A
or_invalid none = err invalid
or_invalid (some x) = ok x

module _ (reconstruct : List (List ℕ) → Option (List (List ℕ)))
    (verify : List (List ℕ) → Option Bool) where
  unfoldable pub decode : Parameters → ℕ → List (Option (List ℕ)) → Result Error (List Fragment)
  decode p logical_bytes input = do
    reject_if
        (ltb logical_bytes (manifest_bytes + descriptor_bytes)
          || ltb p.max_logical_bytes logical_bytes
          || not (length input == shard_count p))
        invalid
    present ← count_present p.shard_bytes input
    reject_if (ltb present p.data_shards) insufficient_shards
    shards ← or_invalid (reconstruct (map shard_or_empty input))
    valid ← or_invalid (verify shards)
    reject_if (not valid) invalid
    logical ← collect p.shard_bytes logical_bytes (take p.data_shards shards)
    parse_manifest p logical
