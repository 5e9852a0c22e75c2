-- ===== src/Fec/Decoder/Counting.antt =====
-- internal/fec/decoder.go: what the Decoder counts is what its blocks hold, within its bounds.
use mpudp.Prelude.{
  All, ℕ, zero, suc, ◌+◌, ◌-◌, ◌*◌, ◌≤◌, ◌<◌, ◌≡◌, refl, ◌∙◌, List, [], ◌∷◌, length, set, get_or,
  replicate, Option, none, some, total, arith,
}
use mpudp.Fec.Parts.{shard_or_empty, present}
use mpudp.Fec.Expiry.{BlockKey}
use mpudp.Fec.Decoder.{PendingBlock, find, delete, change}
use mpudp.Fec.Decoder.Adding.{with_shard}
use mpudp.Fec.Decoder.Keys.{
  HasUniqueKeys, delete-HasUniqueKeys, change-HasUniqueKeys, total_of, total_of-delete,
  total_of-change, length-delete, length-change, AllValues, AllValues-delete, AllValues-change,
}

-- The bytes of the shards that are there.
abbrev pub held : List (Option (List ℕ)) → ℕ
held shards = total (λ (o : Option (List ℕ)). length (shard_or_empty o)) shards

pub set-absent :
    (parts : List (Option (List ℕ))) (i : ℕ) (shard : List ℕ)
    → i < length parts
    → get_or parts i none ≡ none
    → (length (set parts i (some shard)) ≡ length parts)
      × (present (set parts i (some shard)) ≡ present parts + 1)
      × (held (set parts i (some shard)) ≡ held parts + length shard)
set-absent [] i shard h e = absurd (omega arith)
set-absent (none ∷ parts) zero shard h e = (refl, refl, omega arith)
set-absent (some x ∷ parts) zero shard h e = cc
set-absent (none ∷ parts) (suc i) shard h e =
    let (a, b, c) = set-absent parts i shard (omega arith) e in
    (omega arith, omega arith, omega arith)
set-absent (some x ∷ parts) (suc i) shard h e =
    let (a, b, c) = set-absent parts i shard (omega arith) e in
    (omega arith, omega arith, omega arith)

abbrev nothing : ℕ → List (Option (List ℕ))
nothing n = replicate n none

pub replicate-absent :
    (n : ℕ) → (length (nothing n) ≡ n) × (present (nothing n) ≡ 0) × (held (nothing n) ≡ 0)
replicate-absent zero = (refl, refl, refl)
replicate-absent (suc n) =
    let (a, b, c) = replicate-absent n in (omega arith, omega arith, omega arith)

-- Every shard that is there has at most `capacity` bytes.
abbrev pub AreSmall : ℕ → List (Option (List ℕ)) → Type 0
AreSmall capacity parts = All (λ (o : Option (List ℕ)). length (shard_or_empty o) ≤ capacity) parts

set-AreSmall :
    (capacity : ℕ) (parts : List (Option (List ℕ))) (i : ℕ) (shard : List ℕ)
    → AreSmall capacity parts
    → length shard ≤ capacity
    → AreSmall capacity (set parts i (some shard))
set-AreSmall capacity [] i shard h le = tt
set-AreSmall capacity (x ∷ parts) zero shard h le = (le, h.1)
set-AreSmall capacity (x ∷ parts) (suc i) shard h le =
    (h.0, set-AreSmall capacity parts i shard h.1 le)

pub replicate-AreSmall : (capacity n : ℕ) → AreSmall capacity (nothing n)
replicate-AreSmall capacity zero = tt
replicate-AreSmall capacity (suc n) = (omega arith, replicate-AreSmall capacity n)

-- A Decoder for blocks of `n` shards, at most `most` blocks at a time, of at most `m` shards each, of at most
-- `capacity` bytes each.
module _ (n most m capacity : ℕ) where
  pub record IsSound (block : PendingBlock) : Type 0 where
    pub places : length block.shards ≡ n
    pub shards : present block.shards ≡ block.present
    pub holds : held block.shards ≡ block.bytes
    pub few : block.present ≤ m
    pub each_small : AreSmall capacity block.shards
    pub small : block.bytes ≤ block.present * capacity

  pub record IsCounted (p : List (BlockKey × PendingBlock)) (shards bytes : ℕ) : Type 0 where
    pub unique : HasUniqueKeys p
    pub room : length p ≤ most
    pub sound : AllValues IsSound p
    pub shards_eq : shards ≡ total_of (λ (b : PendingBlock). b.present) p
    pub bytes_eq : bytes ≡ total_of (λ (b : PendingBlock). b.bytes) p

  pub with_shard-IsSound :
      (block : PendingBlock) (i : ℕ) (payload : List ℕ)
      → IsSound block
      → i < n
      → get_or block.shards i none ≡ none
      → length payload ≤ capacity
      → block.present + 1 ≤ m
      → IsSound (with_shard block i payload)
  with_shard-IsSound block i payload x inside empty fits less =
      let places = x.places in
      let (a, b, c) = set-absent block.shards i payload (omega arith) empty in
      let shards = x.shards in
      let holds = x.holds in
      let small = x.small in
      record {
        places = a ∙ x.places;
        shards = omega arith;
        holds = omega arith;
        few = less;
        each_small = set-AreSmall capacity block.shards i payload x.each_small fits;
        small = ground arith;
      }

  pub empty-IsCounted : IsCounted [] 0 0
  empty-IsCounted = record {
    unique = tt;
    room = omega arith;
    sound = tt;
    shards_eq = refl;
    bytes_eq = refl;
  }

  pub delete-IsCounted :
      (p : List (BlockKey × PendingBlock)) (shards bytes : ℕ) (k : BlockKey) (v : PendingBlock)
      → IsCounted p shards bytes
      → find p k ≡ some v
      → IsCounted (delete p k) (shards - v.present) (bytes - v.bytes)
  delete-IsCounted p shards bytes k v x found =
      let a = total_of-delete (λ (b : PendingBlock). b.present) p k v x.unique found in
      let b = total_of-delete (λ (b : PendingBlock). b.bytes) p k v x.unique found in
      let s = x.shards_eq in
      let t = x.bytes_eq in
      let shorter = length-delete p k in
      let room = x.room in
      record {
        unique = delete-HasUniqueKeys p k x.unique;
        room = omega arith;
        sound = AllValues-delete IsSound p k x.sound;
        shards_eq = omega arith;
        bytes_eq = omega arith;
      }

  pub change-IsCounted :
      (p : List (BlockKey × PendingBlock)) (shards bytes : ℕ) (k : BlockKey) (v : PendingBlock)
      (i : ℕ) (payload : List ℕ)
      → IsCounted p shards bytes
      → find p k ≡ some v
      → IsSound (with_shard v i payload)
      → IsCounted (change p k (with_shard v i payload)) (shards + 1) (bytes + length payload)
  change-IsCounted p shards bytes k v i payload x found good =
      let w = with_shard v i payload in
      let a = total_of-change (λ (b : PendingBlock). b.present) p k v w x.unique found in
      let b = total_of-change (λ (b : PendingBlock). b.bytes) p k v w x.unique found in
      let s = x.shards_eq in
      let t = x.bytes_eq in
      let same = length-change p k w in
      let room = x.room in
      record {
        unique = change-HasUniqueKeys p k w x.unique;
        room = omega arith;
        sound = AllValues-change IsSound p k w x.sound good;
        shards_eq = omega arith;
        bytes_eq = omega arith;
      }

  pub open-IsCounted :
      (p : List (BlockKey × PendingBlock)) (shards bytes : ℕ) (k : BlockKey) (v : PendingBlock)
      → IsCounted p shards bytes
      → find p k ≡ none
      → length p < most
      → IsSound v
      → v.present ≡ 0
      → v.bytes ≡ 0
      → IsCounted ((k, v) ∷ p) shards bytes
  open-IsCounted p shards bytes k v x free room good no_shards no_bytes =
      let s = x.shards_eq in
      let t = x.bytes_eq in
      record {
        unique = (free, x.unique);
        room = omega arith;
        sound = (good, x.sound);
        shards_eq = omega arith;
        bytes_eq = omega arith;
      }
