-- ===== src/Fec/Decoder/SumCode.antt =====
-- The tests' stand-in for the Reed-Solomon library: two data shards and their sum.
use mpudp.Prelude.{
  ℕ, ◌+◌, ◌-◌, ◌≤◌, ◌≡◌, refl, sym, ap, subst, List, [], ◌∷◌, map, length, take, Option, none, some,
  arith,
}
use mpudp.Fec.Block.{IsSystematic}
use mpudp.Fec.Parts.{HasSize, IsPart, present, length-part, shard_or_empty}
use mpudp.Fec.Decoder.Contents.{Rebuilds}

-- A stand-in for the Reed-Solomon library: the parity is the sum of the data.
abbrev plus : List ℕ → List ℕ → List ℕ
plus (a ∷ xs) (b ∷ ys) = (a + b) ∷ plus xs ys
plus (a ∷ xs) [] = []
plus [] ys = []

abbrev minus : List ℕ → List ℕ → List ℕ
minus (a ∷ xs) (b ∷ ys) = (a - b) ∷ minus xs ys
minus (a ∷ xs) [] = []
minus [] ys = []

abbrev pub summed : List (List ℕ) → Option (List (List ℕ))
summed (a ∷ b ∷ c ∷ []) = some (a ∷ b ∷ plus a b ∷ [])
summed (a ∷ b ∷ c ∷ d ∷ rest) = none
summed (a ∷ b ∷ []) = none
summed (a ∷ []) = none
summed [] = none

abbrev pub restored : List (List ℕ) → Option (List (List ℕ))
restored ([] ∷ b ∷ c ∷ []) = some (minus c b ∷ b ∷ c ∷ [])
restored ((x ∷ a) ∷ [] ∷ c ∷ []) = some ((x ∷ a) ∷ minus c (x ∷ a) ∷ c ∷ [])
restored ((x ∷ a) ∷ (y ∷ b) ∷ c ∷ []) = some ((x ∷ a) ∷ (y ∷ b) ∷ c ∷ [])
restored shards = none

minus-plus : (a b : List ℕ) → length a ≡ length b → minus (plus a b) b ≡ a
minus-plus [] [] h = refl
minus-plus [] (b ∷ ys) h = absurd (omega arith)
minus-plus (a ∷ xs) [] h = absurd (omega arith)
minus-plus (a ∷ xs) (b ∷ ys) h =
    let rest = minus-plus xs ys (omega arith) in
    let first : a + b - b ≡ a = omega arith in λ i. first i ∷ rest i

minus-plus_left : (a b : List ℕ) → length a ≡ length b → minus (plus a b) a ≡ b
minus-plus_left [] [] h = refl
minus-plus_left [] (b ∷ ys) h = absurd (omega arith)
minus-plus_left (a ∷ xs) [] h = absurd (omega arith)
minus-plus_left (a ∷ xs) (b ∷ ys) h =
    let rest = minus-plus_left xs ys (omega arith) in
    let first : a + b - a ≡ b = omega arith in λ i. first i ∷ rest i

summed-encodes :
    (shards : List (List ℕ))
    → length shards ≡ 3
    → (out : List (List ℕ)) × (summed shards ≡ some out)
summed-encodes (a ∷ b ∷ c ∷ []) h = (a ∷ b ∷ plus a b ∷ [], refl)
summed-encodes (a ∷ b ∷ c ∷ d ∷ rest) h = absurd (omega arith)
summed-encodes (a ∷ b ∷ []) h = absurd (omega arith)
summed-encodes (a ∷ []) h = absurd (omega arith)
summed-encodes [] h = absurd (omega arith)

summed-keeps :
    (shards out : List (List ℕ))
    → summed shards ≡ some out
    → (length out ≡ length shards) × (take 2 out ≡ take 2 shards)
summed-keeps (a ∷ b ∷ c ∷ []) out h = ground arith
summed-keeps (a ∷ b ∷ c ∷ d ∷ rest) out h = ground arith
summed-keeps (a ∷ b ∷ []) out h = ground arith
summed-keeps (a ∷ []) out h = ground arith
summed-keeps [] out h = ground arith

pub summed-IsSystematic : IsSystematic summed 2 3
summed-IsSystematic = record {
  encodes = λ size shards _ h _. summed-encodes shards h;
  keeps = summed-keeps;
}

abbrev Restores : List (Option (List ℕ)) → List (List ℕ) → Type 0
Restores parts full =
    (working : List (List ℕ)) × (restored (map shard_or_empty parts) ≡ some working)
    × (take 2 working ≡ take 2 full)

module _ (a b : List ℕ) (same : length a ≡ length b) where
  abbrev whole : List (List ℕ)
  whole = a ∷ b ∷ plus a b ∷ []

  without_first : Restores (none ∷ some b ∷ some (plus a b) ∷ []) whole
  without_first = (
    minus (plus a b) b ∷ b ∷ plus a b ∷ [],
    refl,
    ap (λ (x : List ℕ). x ∷ b ∷ []) (minus-plus a b same),
  )

  without_second : 1 ≤ length a → Restores (some a ∷ none ∷ some (plus a b) ∷ []) whole
  without_second h = (
    a ∷ minus (plus a b) a ∷ plus a b ∷ [],
    nonempty a (plus a b) h,
    ap (λ (x : List ℕ). a ∷ x ∷ []) (minus-plus_left a b same),
  )
    where
      nonempty :
          (x z : List ℕ) → 1 ≤ length x → restored (x ∷ [] ∷ z ∷ []) ≡ some (x ∷ minus z x ∷ z ∷ [])
      nonempty [] z h = absurd (omega arith)
      nonempty (u ∷ x) z h = refl

  with_both :
      (c : List ℕ) → 1 ≤ length a → 1 ≤ length b → restored (a ∷ b ∷ c ∷ []) ≡ some (a ∷ b ∷ c ∷ [])
  with_both c h k = filled_in a b h k
    where
      filled_in :
          (x y : List ℕ)
          → 1 ≤ length x
          → 1 ≤ length y
          → restored (x ∷ y ∷ c ∷ []) ≡ some (x ∷ y ∷ c ∷ [])
      filled_in [] y h k = absurd (omega arith)
      filled_in (u ∷ x) [] h k = absurd (omega arith)
      filled_in (u ∷ x) (v ∷ y) h k = refl

  filled_three :
      (p q r : Option (List ℕ))
      → 1 ≤ length a
      → IsPart (p ∷ q ∷ r ∷ []) whole
      → 2 ≤ present (p ∷ q ∷ r ∷ [])
      → Restores (p ∷ q ∷ r ∷ []) whole
  filled_three none none none n h two = absurd (omega arith)
  filled_three none none (some z) n h two = absurd (omega arith)
  filled_three none (some y) none n h two = absurd (omega arith)
  filled_three (some x) none none n h two = absurd (omega arith)
  filled_three none (some y) (some z) n (e, (f, _)) two = rw (e, f) without_first
  filled_three (some x) none (some z) n (e, (f, _)) two = rw (e, f) (without_second n)
  filled_three (some x) (some y) none n (e, (f, _)) two =
      rw (e, f) (a ∷ b ∷ [] ∷ [], with_both [] n (omega arith), refl)
  filled_three (some x) (some y) (some z) n (e, (f, (g, _))) two =
      rw (e, f) (a ∷ b ∷ z ∷ [], with_both z n (omega arith), refl)

  filled_any :
      (parts : List (Option (List ℕ)))
      → 1 ≤ length a
      → IsPart parts whole
      → 2 ≤ present parts
      → Restores parts whole
  filled_any (p ∷ q ∷ r ∷ []) n h two = filled_three p q r n h two
  filled_any [] n h two = elim h [ ]
  filled_any (p ∷ []) n h two = let e = length-part (p ∷ []) whole h in absurd (omega arith)
  filled_any (p ∷ q ∷ []) n h two = let e = length-part (p ∷ q ∷ []) whole h in absurd (omega arith)
  filled_any (p ∷ q ∷ r ∷ t ∷ more) n h two =
      let e = length-part (p ∷ q ∷ r ∷ t ∷ more) whole h in absurd (omega arith)

pub summed-Rebuilds : Rebuilds summed restored 2 3
summed-Rebuilds = record { rebuilds = rebuilt }
  where
    rebuilt :
        (size : ℕ) (shards full : List (List ℕ)) (parts : List (Option (List ℕ)))
        → 1 ≤ size
        → length shards ≡ 3
        → HasSize size shards
        → summed shards ≡ some full
        → IsPart parts full
        → 2 ≤ present parts
        → Restores parts full
    rebuilt size (a ∷ b ∷ c ∷ []) full parts n len (la, (lb, _)) e h two =
        let made : a ∷ b ∷ plus a b ∷ [] ≡ full = ground arith in
        subst (Restores parts) made
          (filled_any a b (omega arith) parts (omega arith) (subst (IsPart parts) (sym made) h) two)
    rebuilt size (a ∷ b ∷ c ∷ d ∷ rest) full parts n len s e h two = absurd (omega arith)
    rebuilt size (a ∷ b ∷ []) full parts n len s e h two = absurd (omega arith)
    rebuilt size (a ∷ []) full parts n len s e h two = absurd (omega arith)
    rebuilt size [] full parts n len s e h two = absurd (omega arith)
