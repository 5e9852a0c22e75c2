-- ===== src/ReassemblyV2/Ranges.antt =====
-- internal/reassemblyv2/reassembly.go: the ranges of an assembly, in order and apart.
use mpudp.Prelude.{
  ℕ, zero, suc, ◌+◌, ◌-◌, ◌≤◌, ◌<◌, ◌≡◌, refl, ap, ◌∙◌, List, [], ◌∷◌, arith, length, byte_at, ◌⊎◌,
  inl, inr,
}
use mpudp.ReassemblyV2.{Interval, copy}

-- The bytes that the ranges hold.
abbrev pub covered : List Interval → ℕ
covered [] = 0
covered (r ∷ rs) = r.end - r.start + covered rs

-- Ranges with bytes in them, in order, apart, between `low` and `high`.
abbrev pub IsSpread : ℕ → ℕ → List Interval → Type 0
IsSpread low high [] = low ≤ high
IsSpread low high (r ∷ rs) = (low ≤ r.start) × (r.start < r.end) × IsSpread r.end high rs

pub IsSpread-le :
    (low high : ℕ) (rs : List Interval) → IsSpread low high rs → low + covered rs ≤ high
IsSpread-le low high [] h = omega arith
IsSpread-le low high (r ∷ rs) h = omega (arith, IsSpread-le r.end high rs h.2, h.0, h.1)

-- Two buffers agree on the ranges.
abbrev pub AgreeOn : List ℕ → List ℕ → List Interval → Type 0
AgreeOn xs ys [] = Unit
AgreeOn xs ys (r ∷ rs) =
    ((k : ℕ) → r.start ≤ k → k < r.end → byte_at xs k ≡ byte_at ys k) × AgreeOn xs ys rs

-- Ranges that cover all there is leave no byte out.
covered-agree :
    (xs ys : List ℕ) (low high : ℕ) (rs : List Interval)
    → IsSpread low high rs
    → low + covered rs ≡ high
    → AgreeOn xs ys rs
    → (k : ℕ) → low ≤ k
    → k < high
    → byte_at xs k ≡ byte_at ys k
covered-agree xs ys low high [] s c a k lo hi = absurd (omega arith)
covered-agree xs ys low high (r ∷ rs) s c a k lo hi =
    let rest = IsSpread-le r.end high rs s.2 in
    let split : (k < r.end) ⊎ (r.end ≤ k) = omega arith in
    elim split [
      | inl lt ↦ a.0 k (omega (arith, s.0, s.1)) lt
      | inr ge ↦ covered-agree xs ys r.end high rs s.2 (omega (arith, s.0, s.1)) a.1 k ge hi
    ]

bytes_ext :
    (xs ys : List ℕ)
    → length xs ≡ length ys
    → ((k : ℕ) → k < length xs → byte_at xs k ≡ byte_at ys k)
    → xs ≡ ys
bytes_ext [] [] l h = refl
bytes_ext [] (y ∷ ys) l h = absurd (omega arith)
bytes_ext (x ∷ xs) [] l h = absurd (omega arith)
bytes_ext (x ∷ xs) (y ∷ ys) l h =
    let first : x ≡ y = h 0 (omega arith) in
    λ j. first j ∷ bytes_ext xs ys (omega arith) (λ k lt. h (suc k) (omega arith)) j

-- A buffer whose ranges cover it all is the other.
pub covered-eq :
    (xs ys : List ℕ) (rs : List Interval)
    → length xs ≡ length ys
    → IsSpread 0 (length xs) rs
    → covered rs ≡ length xs
    → AgreeOn xs ys rs
    → xs ≡ ys
covered-eq xs ys rs l s c a =
    bytes_ext xs ys l
      (λ k lt. covered-agree xs ys 0 (length xs) rs s (omega arith) a k (omega arith) lt)

pub length-copy :
    (xs : List ℕ) (offset : ℕ) (payload : List ℕ) → length (copy xs offset payload) ≡ length xs
unfolding copy
length-copy [] offset payload = refl
length-copy (x ∷ xs) (suc offset) payload = ap suc (length-copy xs offset payload)
length-copy (x ∷ xs) zero [] = refl
length-copy (x ∷ xs) zero (p ∷ payload) = ap suc (length-copy xs zero payload)

pub copy_outside :
    (xs : List ℕ) (offset : ℕ) (payload : List ℕ) (k : ℕ)
    → (k < offset) ⊎ (offset + length payload ≤ k)
    → byte_at (copy xs offset payload) k ≡ byte_at xs k
unfolding copy
copy_outside [] offset payload k h = refl
copy_outside (x ∷ xs) (suc offset) payload zero h = refl
copy_outside (x ∷ xs) (suc offset) payload (suc k) h =
    copy_outside xs offset payload k (omega arith)
copy_outside (x ∷ xs) zero [] k h = refl
copy_outside (x ∷ xs) zero (p ∷ payload) zero h = absurd (omega arith)
copy_outside (x ∷ xs) zero (p ∷ payload) (suc k) h = copy_outside xs zero payload k (omega arith)

pub copy_inside :
    (xs : List ℕ) (offset : ℕ) (payload : List ℕ) (k : ℕ)
    → offset + length payload ≤ length xs
    → k < length payload
    → byte_at (copy xs offset payload) (offset + k) ≡ byte_at payload k
unfolding copy
copy_inside [] offset payload k fits h = absurd (omega arith)
copy_inside (x ∷ xs) (suc offset) payload k fits h =
    let e : suc offset + k ≡ suc (offset + k) = omega arith in
    ap (byte_at (x ∷ copy xs offset payload)) e ∙ copy_inside xs offset payload k (omega arith) h
copy_inside (x ∷ xs) zero [] k fits h = absurd (omega arith)
copy_inside (x ∷ xs) zero (p ∷ payload) zero fits h = refl
copy_inside (x ∷ xs) zero (p ∷ payload) (suc k) fits h =
    let e : 0 + suc k ≡ suc (0 + k) = omega arith in
    ap (byte_at (p ∷ copy xs 0 payload)) e
    ∙ copy_inside xs zero payload k (omega arith) (omega arith)
