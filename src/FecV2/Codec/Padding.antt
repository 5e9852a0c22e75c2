-- ===== src/FecV2/Codec/Padding.antt =====
-- internal/fecv2/group.go: the data shards that hold the logical bytes and zeros behind them.
use mpudp.Prelude.{
  ℕ, zero, suc, ◌+◌, ◌-◌, ◌*◌, ◌≤◌, ◌<◌, ◌≡◌, refl, sym, ap, ◌∙◌, subst, List, [], ◌∷◌, ◌++◌,
  append-nil, true, arith, length, length-take, take, drop, min, ◌⊎◌, inl, inr, all_zero, ok, leb,
  Bool-cases,
}
use native.Mathlib.Nat.{suc-mul}
use mpudp.Fec.Encoder.{slices}
use mpudp.Fec.Split.{take-add}
use mpudp.FecV2.Writing.{drop-add}
use mpudp.FecV2.Codec.{collect}

pub all_zero-drop : (n : ℕ) (xs : List ℕ) → all_zero xs ≡ true → all_zero (drop n xs) ≡ true
all_zero-drop zero xs h = h
all_zero-drop (suc n) [] h = refl
all_zero-drop (suc n) (x ∷ xs) h = all_zero-drop n xs (ground arith)

all_zero-drop-take :
    (n m : ℕ) (xs : List ℕ) → all_zero (drop n xs) ≡ true → all_zero (drop n (take m xs)) ≡ true
all_zero-drop-take zero zero xs h = refl
all_zero-drop-take (suc n) zero xs h = refl
all_zero-drop-take zero (suc m) [] h = refl
all_zero-drop-take (suc n) (suc m) [] h = refl
all_zero-drop-take zero (suc m) (x ∷ xs) h = ground (arith, all_zero-drop-take zero m xs)
all_zero-drop-take (suc n) (suc m) (x ∷ xs) h = all_zero-drop-take n m xs h

all_zero-drop_short : (n : ℕ) (xs : List ℕ) → length xs ≤ n → all_zero (drop n xs) ≡ true
all_zero-drop_short zero [] h = refl
all_zero-drop_short zero (x ∷ xs) h = absurd (omega arith)
all_zero-drop_short (suc n) [] h = refl
all_zero-drop_short (suc n) (x ∷ xs) h = all_zero-drop_short n xs (omega arith)

take-take : (n m : ℕ) (xs : List ℕ) → n ≤ m → take n (take m xs) ≡ take n xs
take-take zero m xs h = refl
take-take (suc n) zero xs h = absurd (omega arith)
take-take (suc n) (suc m) [] h = refl
take-take (suc n) (suc m) (x ∷ xs) h = ap (λ (l : List ℕ). x ∷ l) (take-take n m xs (omega arith))

min_cases : (a b : ℕ) → ((min a b ≡ a) × (a ≤ b)) ⊎ ((min a b ≡ b) × (b < a))
min_cases a b = elim (Bool-cases (leb a b)) [
  | inl h ↦ inl (ground arith, ground arith)
  | inr h ↦ inr (ground arith, ground arith)
]

-- One round of the loop, at a slice of the array `bytes` whose rest is zeros.
module _ (size left : ℕ) (bytes : List ℕ) (padded : all_zero (drop left bytes) ≡ true) where
  slice-padded : all_zero (drop (min left size) (take size bytes)) ≡ true
  slice-padded = elim (min_cases left size) [
    | inl (e, h) ↦ rw e (all_zero-drop-take left size bytes padded)
    | inr (e, h) ↦
        rw e (all_zero-drop_short size (take size bytes) (omega (arith, length-take size bytes)))
  ]

  rest-padded : all_zero (drop (left - min left size) (drop size bytes)) ≡ true
  rest-padded = elim (min_cases left size) [
    | inl (e, h) ↦
        let k : left - min left size ≡ 0 = omega arith in
        let s : size ≡ left + (size - left) = omega arith in
        rw k (
          subst (λ (n : ℕ). all_zero (drop n bytes) ≡ true) (sym s)
            (rw (drop-add left (size - left) bytes)
              (all_zero-drop (size - left) (drop left bytes) padded)))
    | inr (e, h) ↦
        let s : left ≡ size + (left - min left size) = omega arith in
        rw (← drop-add size (left - min left size) bytes)
          (subst (λ (n : ℕ). all_zero (drop n bytes) ≡ true) s padded)
  ]

  slice-joined :
      take (min left size) (take size bytes) ++ take (left - min left size) (drop size bytes)
      ≡ take left bytes
  slice-joined = elim (min_cases left size) [
    | inl (e, h) ↦
        let k : left - min left size ≡ 0 = omega arith in
        rw (k, e) (append-nil (take left (take size bytes)) ∙ take-take left size bytes h)
    | inr (e, h) ↦
        let s : size + (left - size) ≡ left = omega arith in
        rw e (
          ap (λ (l : List ℕ). l ++ take (left - size) (drop size bytes))
            (take-take size size bytes (omega arith))
          ∙ take-add size (left - size) bytes
          ∙ ap (λ (n : ℕ). take n bytes) s)
  ]

pub collect-slices :
    (count size left : ℕ) (bytes : List ℕ)
    → left ≤ count * size
    → all_zero (drop left bytes) ≡ true
    → collect size left (slices count size bytes) ≡ ok (take left bytes)
unfolding collect slices
collect-slices zero size left bytes h z = let e : left ≡ 0 = omega arith in rw e
collect-slices (suc count) size left bytes h z =
    let m = suc-mul count size in
    let more =
      collect-slices count size (left - min left size) (drop size bytes) (omega (arith, m))
        (rest-padded size left bytes z) in
    rw (slice-padded size left bytes z, more) (ap ok (slice-joined size left bytes z))
