-- ===== src/FecV2/Packing.antt =====
-- internal/fecv2/packing.go: `EncodePrefix`.
pub mod Consumed
pub mod Fitting
use mpudp.Prelude.{
  ℕ, zero, suc, ◌+◌, ◌-◌, List, [], ◌∷◌, Bool, ◌&&◌, ◌||◌, ◌==◌, ltb, if◌then◌else◌, length, take,
  min, Option, Result, ok, err, ◌>>=◌, ◌>>◌, reject_if,
}
use mpudp.FecV2.{
  Error, Parameters, Fragment, validate_fragment, manifest_bytes, descriptor_bytes,
  max_descriptors_limit, invalid, no_payload_capacity,
}
use mpudp.FecV2.Codec.{Group, encode}

pub record Cursor : Type 0 where
  pub next : ℕ
  pub bytes : ℕ

-- The first loop.
unfoldable pub validate_fragments : Parameters → ℕ → List Fragment → Result Error (Unit {0})
validate_fragments p previous [] = ok tt
validate_fragments p previous (f ∷ fs) = do
  validate_fragment p f previous
  validate_fragments p f.datagram_id fs

-- The test that ends the second loop; `room` in the source is negative in its second part.
unfoldable pub is_full : Parameters → ℕ → ℕ → Fragment → Bool
is_full p count used f =
    count == p.max_descriptors
    || ltb p.max_logical_bytes (used + descriptor_bytes)
    || (p.max_logical_bytes - used - descriptor_bytes == 0 && ltb 0 (length f.payload))

-- The bytes of `f` that are taken.
abbrev pub taken : Parameters → ℕ → Fragment → ℕ
taken p used f = min (p.max_logical_bytes - used - descriptor_bytes) (length f.payload)

abbrev pub prefix : Fragment → ℕ → Fragment
prefix f n = record f { payload = take n f.payload }

-- The second loop, from fragment `i` on: the fragments of the group that are still to be added, and
-- the cursor at the end.
unfoldable pub plan : Parameters → ℕ → ℕ → ℕ → Cursor → List Fragment → List Fragment × Cursor
plan p count used i cursor [] = ([], cursor)
plan p count used i cursor (f ∷ fs) =
    let n = taken p used f in
    let (more, end) =
      plan p (count + 1) (used + descriptor_bytes + n) (i + 1) (record { next = i + 1; bytes = 0 })
        fs in
    if is_full p count used f
    then ([], cursor)
    else if ltb n (length f.payload)
    then (prefix f n ∷ [], record { next = i; bytes = n })
    else (prefix f n ∷ more, end)

abbrev pub start : Cursor
start = record { next = 0; bytes = 0 }

abbrev pub planned : Parameters → List Fragment → List Fragment × Cursor
planned p input = plan p 0 manifest_bytes 0 start input

module _ (codec : List (List ℕ) → Option (List (List ℕ))) where
  unfoldable pub encode_prefix : Parameters → List Fragment → Result Error (Group × Cursor)
  encode_prefix p input = do
    reject_if (length input == 0 || ltb max_descriptors_limit (length input)) invalid
    validate_fragments p 0 input
    let (fragments, cursor) = planned p input
    reject_if (length fragments == 0) no_payload_capacity
    group ← encode codec p fragments
    ok (group, cursor)
