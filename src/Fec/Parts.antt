-- ===== src/Fec/Parts.antt =====
-- internal/fec and internal/fecv2: a block's shards, some of which are absent.
use mpudp.Prelude.{ℕ, suc, ◌+◌, ◌≡◌, refl, ap, List, [], ◌∷◌, length, Option, none, some, All}

abbrev pub shard_or_empty : Option (List ℕ) → List ℕ
shard_or_empty none = []
shard_or_empty (some shard) = shard

abbrev pub HasSize : ℕ → List (List ℕ) → Type 0
HasSize size shards = All (λ (s : List ℕ). length s ≡ size) shards

-- Each shard is absent or as it was.
abbrev pub IsPart : List (Option (List ℕ)) → List (List ℕ) → Type 0
IsPart [] [] = Unit
IsPart [] (s ∷ ss) = ⊥
IsPart (x ∷ xs) [] = ⊥
IsPart (none ∷ xs) (s ∷ ss) = IsPart xs ss
IsPart (some x ∷ xs) (s ∷ ss) = (x ≡ s) × IsPart xs ss

-- The number of shards that are there.
abbrev pub present : List (Option (List ℕ)) → ℕ
present [] = 0
present (none ∷ xs) = present xs
present (some x ∷ xs) = present xs + 1

pub length-part :
    (parts : List (Option (List ℕ))) (full : List (List ℕ))
    → IsPart parts full
    → length parts ≡ length full
length-part [] [] p = refl
length-part [] (s ∷ ss) p = elim p [ ]
length-part (none ∷ xs) [] p = elim p [ ]
length-part (some x ∷ xs) [] p = elim p [ ]
length-part (none ∷ xs) (s ∷ ss) p = ap suc (length-part xs ss p)
length-part (some x ∷ xs) (s ∷ ss) p = ap suc (length-part xs ss p.1)
