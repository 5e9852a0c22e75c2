-- ===== src/Fec/Decoder/Contents.antt =====
-- internal/fec: a Decoder that is given shards of encoded blocks returns what was encoded.
use mpudp.Prelude.{
  ℕ, zero, suc, ◌+◌, ◌*◌, ◌≤◌, ◌≡◌, refl, sym, ap, ◌∙◌, List, [], ◌∷◌, map, Option, none, some, ok,
  length, get_or, get_elem?, set, take, replicate, arith,
}
use mpudp.Prelude.Int.{pos_part}
use mpudp.Fec.{Params}
use mpudp.Fec.Encoder.{EncodedBlock, Encoder, slices, filled, check_block, encode, join_data}
use mpudp.Fec.Bounds.{shard_size-pos, shard_size-covers}
use mpudp.Fec.Split.{length-slices, slices-sized, length-backing}
use native.Mathlib.Nat.{mul-le-mul_right}
use mpudp.Fec.Block.{
  check_block-size, filled-eq, IsEncoder, IsSystematic, encode-parts, join_data-encode,
}
use mpudp.Fec.Parts.{HasSize, IsPart, present, shard_or_empty}

pub IsPart-absent :
    (full : List (List ℕ)) (n : ℕ)
    → length full ≡ n
    → IsPart (replicate n none) full × (present (replicate n none) ≡ 0)
IsPart-absent [] zero h = (tt, refl)
IsPart-absent [] (suc n) h = absurd (omega arith)
IsPart-absent (s ∷ full) zero h = absurd (omega arith)
IsPart-absent (s ∷ full) (suc n) h = IsPart-absent full n (omega arith)

-- A shard is put where there was none.
pub IsPart-set :
    (parts : List (Option (List ℕ))) (full : List (List ℕ)) (i : ℕ) (shard : List ℕ)
    → IsPart parts full
    → get_elem? full i ≡ some shard
    → get_or parts i none ≡ none
    → IsPart (set parts i (some shard)) full
      × (present (set parts i (some shard)) ≡ present parts + 1)
IsPart-set [] [] i shard p g e = cc
IsPart-set [] (s ∷ full) i shard p g e = elim p [ ]
IsPart-set (none ∷ parts) [] i shard p g e = elim p [ ]
IsPart-set (some x ∷ parts) [] i shard p g e = elim p [ ]
IsPart-set (none ∷ parts) (s ∷ full) zero shard p g e = ((cc, p), refl)
IsPart-set (some x ∷ parts) (s ∷ full) zero shard p g e = cc
IsPart-set (none ∷ parts) (s ∷ full) (suc i) shard p g e = IsPart-set parts full i shard p g e
IsPart-set (some x ∷ parts) (s ∷ full) (suc i) shard p g e =
    let (part, count) = IsPart-set parts full i shard p.1 g e in ((p.0, part), omega arith)

-- What the Reed-Solomon library documents of `ReconstructData`: with any `k` of the `n` shards of an encoded block
-- it fills the absent data shards in.
pub record Rebuilds (codec reconstruct : List (List ℕ) → Option (List (List ℕ))) (k n : ℕ)
    : Type 0 where
  pub rebuilds :
      (size : ℕ) (shards full : List (List ℕ)) (parts : List (Option (List ℕ)))
      → 1 ≤ size
      → length shards ≡ n
      → HasSize size shards
      → codec shards ≡ some full
      → IsPart parts full
      → k ≤ present parts
      → (working : List (List ℕ)) × (reconstruct (map shard_or_empty parts) ≡ some working)
        × (take k working ≡ take k full)

-- An Encoder with the parameters `params` has made `full` of `payload`, as the block `id`.
pub record IsSent (codec : List (List ℕ) → Option (List (List ℕ))) (params : Params) (total id : ℕ)
    (payload : List ℕ) (full : List (List ℕ)) : Type 0 where
  pub encoder : Encoder
  pub next : Encoder
  pub block : EncodedBlock
  pub valid : IsEncoder encoder
  pub made : encode codec encoder payload ≡ ok (block, next)
  pub same_params : encoder.params ≡ params
  pub same_total : encoder.total ≡ total
  pub same_id : block.packet_id ≡ id
  pub same_shards : block.shards ≡ full

-- What the Encoder hands to the library.
prepared-sized :
    (e : Encoder) (payload : List ℕ) (s : ℕ)
    → IsEncoder e
    → check_block e payload ≡ ok s
    → (1 ≤ s)
      × (length (slices e.total s (filled e payload s)) ≡ e.total)
      × HasSize s (slices e.total s (filled e payload s))
prepared-sized e payload s x checked =
    let k = pos_part e.params.data_shards in
    let s_eq = check_block-size e payload s checked in
    let all = filled e payload s in
    let covers = shard_size-covers (length payload) k x.valid.some_data in
    let fits : length payload ≤ k * s = rw s_eq covers in
    let le_total : k ≤ e.total = omega (arith, x.valid.total_eq) in
    let room = mul-le-mul_right s le_total in
    let same = filled-eq e payload s fits in
    let long = ap length same ∙ length-backing payload (e.total * s) (omega (arith, fits, room)) in
    (
      omega (arith, s_eq, shard_size-pos (length payload) k x.valid.some_data),
      length-slices e.total s all,
      slices-sized e.total s all (omega (arith, long)),
    )

module _ (codec reconstruct : List (List ℕ) → Option (List (List ℕ))) (params : Params) (n : ℕ)
    (systematic : IsSystematic codec (pos_part params.data_shards) n)
    (library : Rebuilds codec reconstruct (pos_part params.data_shards) n) where
  abbrev k : ℕ
  k = pos_part params.data_shards

  pub sent-length :
      (id : ℕ) (payload : List ℕ) (full : List (List ℕ))
      → IsSent codec params n id payload full
      → length full ≡ n
  sent-length id payload full x =
      let (s, shards, checked, coded, made, _) =
        encode-parts codec x.encoder x.next payload x.block x.made in
      let (_, count, _) = prepared-sized x.encoder payload s x.valid checked in
      let (kept, _) = systematic.keeps _ shards coded in
      ap length (sym x.same_shards)
      ∙ ap (λ (b : EncodedBlock). length b.shards) made
      ∙ kept
      ∙ count
      ∙ x.same_total

  -- From `k` shards of what was sent, the payload is joined again.
  pub sent-joins :
      (id : ℕ) (payload : List ℕ) (full : List (List ℕ)) (parts : List (Option (List ℕ)))
      → IsSent codec params n id payload full
      → IsPart parts full
      → k ≤ present parts
      → (working : List (List ℕ)) × (reconstruct (map shard_or_empty parts) ≡ some working)
        × (join_data k (length payload) working ≡ ok payload)
  sent-joins id payload full parts x part enough =
      let e = x.encoder in
      let (s, shards, checked, coded, made, _) =
        encode-parts codec e x.next payload x.block x.made in
      let (some_size, count, sized) = prepared-sized e payload s x.valid checked in
      let shards_eq : shards ≡ full =
        ap (λ (b : EncodedBlock). b.shards) (sym made) ∙ x.same_shards in
      let (working, restored, start) =
        library.rebuilds s _ full parts some_size (count ∙ x.same_total) sized
          (coded ∙ ap some shards_eq) part enough in
      let k_eq : pos_part e.params.data_shards ≡ k =
        ap (λ (p : Params). pos_part p.data_shards) x.same_params in
      let systematic' : IsSystematic codec (pos_part e.params.data_shards) e.total =
        rw (k_eq, x.same_total) systematic in
      let start' : take (pos_part e.params.data_shards) working
          ≡ take (pos_part e.params.data_shards) x.block.shards =
        rw (k_eq, x.same_shards) start in
      let joined =
        join_data-encode codec e x.next payload x.block working x.valid systematic' x.made start' in
      let original : x.block.original_length ≡ length payload =
        ap (λ (b : EncodedBlock). b.original_length) made in
      (
        working,
        restored,
        ap (λ (m : ℕ). join_data k m working) (sym original)
            ∙ ap (λ (m : ℕ). join_data m x.block.original_length working) (sym k_eq)
            ∙ joined,
      )
