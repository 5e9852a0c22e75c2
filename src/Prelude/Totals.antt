-- ===== src/Prelude/Totals.antt =====
-- Sums over lists, and what a write or an addition at the end does to them and to lookups.
use Prim.Native.Nat.{ℕ, zero, suc, ◌+◌, ◌≤◌, ◌<◌}
use mathlib.Core.Path.{◌≡◌, refl, ap}
use mathlib.Core.Logic.{◌≢◌, ◌⊎◌, inl, inr}
use mathlib.Core.Option.{some}
use mathlib.Core.List.{List, [], ◌∷◌, ◌++◌}
use native.Mathlib.Omega.{arith}
use mpudp.Prelude.Lists.{length, get_elem?, set}

module _ {ℓ} {A : Type ℓ} where
  abbrev pub total : (A → ℕ) → List A → ℕ
  total f [] = 0
  total f (x ∷ xs) = f x + total f xs

  pub total-append : (f : A → ℕ) (xs ys : List A) → total f (xs ++ ys) ≡ total f xs + total f ys
  total-append f [] ys = omega arith
  total-append f (x ∷ xs) ys = omega (arith, total-append f xs ys)

  pub total-set :
      (f : A → ℕ) (xs : List A) (i : ℕ) (x v : A)
      → get_elem? xs i ≡ some x
      → total f (set xs i v) + f x ≡ total f xs + f v
  total-set f [] i x v e = cc
  total-set f (y ∷ xs) zero x v e = ground arith
  total-set f (y ∷ xs) (suc i) x v e = omega (arith, total-set f xs i x v e)

  pub le-total :
      (f : A → ℕ) (xs : List A) (i : ℕ) (x : A) → get_elem? xs i ≡ some x → f x ≤ total f xs
  le-total f [] i x e = cc
  le-total f (y ∷ xs) zero x e = ground arith
  le-total f (y ∷ xs) (suc i) x e = omega (arith, le-total f xs i x e)

  pub total-eq-zero :
      (f : A → ℕ) (xs : List A)
      → ((i : ℕ) (x : A) → get_elem? xs i ≡ some x → f x ≡ 0)
      → total f xs ≡ 0
  total-eq-zero f [] h = refl
  total-eq-zero f (x ∷ xs) h =
      omega (arith, h 0 x refl, total-eq-zero f xs (λ i y e. h (suc i) y e))

  pub get_elem?-lt : (xs : List A) (i : ℕ) (x : A) → get_elem? xs i ≡ some x → i < length xs
  get_elem?-lt [] i x e = cc
  get_elem?-lt (y ∷ xs) zero x e = omega arith
  get_elem?-lt (y ∷ xs) (suc i) x e = omega (arith, get_elem?-lt xs i x e)

  pub get_elem?-set_cases :
      (xs : List A) (i j : ℕ) (v y : A)
      → get_elem? (set xs i v) j ≡ some y
      → ((j ≡ i) × (v ≡ y)) ⊎ ((j ≢ i) × (get_elem? xs j ≡ some y))
  get_elem?-set_cases [] i j v y e = cc
  get_elem?-set_cases (x ∷ xs) zero zero v y e = inl (refl, ground arith)
  get_elem?-set_cases (x ∷ xs) zero (suc j) v y e = inr (omega arith, e)
  get_elem?-set_cases (x ∷ xs) (suc i) zero v y e = inr (omega arith, e)
  get_elem?-set_cases (x ∷ xs) (suc i) (suc j) v y e = elim (get_elem?-set_cases xs i j v y e) [
    | inl (p, q) ↦ inl (ap suc p, q)
    | inr (p, q) ↦ inr (omega arith, q)
  ]

  pub get_elem?-append_cases :
      (xs : List A) (j : ℕ) (v y : A)
      → get_elem? (xs ++ (v ∷ [])) j ≡ some y
      → ((j ≡ length xs) × (v ≡ y)) ⊎ (get_elem? xs j ≡ some y)
  get_elem?-append_cases [] zero v y e = inl (refl, ground arith)
  get_elem?-append_cases [] (suc j) v y e = cc
  get_elem?-append_cases (x ∷ xs) zero v y e = inr e
  get_elem?-append_cases (x ∷ xs) (suc j) v y e = elim (get_elem?-append_cases xs j v y e) [
    | inl (p, q) ↦ inl (ap suc p, q)
    | inr q ↦ inr q
  ]

  pub get_elem?-append_last :
      (xs : List A) (v : A) → get_elem? (xs ++ (v ∷ [])) (length xs) ≡ some v
  get_elem?-append_last [] v = refl
  get_elem?-append_last (x ∷ xs) v = get_elem?-append_last xs v

  pub set-get_elem? : (xs : List A) (i : ℕ) (x : A) → get_elem? xs i ≡ some x → set xs i x ≡ xs
  set-get_elem? [] i x e = cc
  set-get_elem? (y ∷ xs) zero x e = ground arith
  set-get_elem? (y ∷ xs) (suc i) x e = ap (λ (t : List A). y ∷ t) (set-get_elem? xs i x e)

  pub get_elem?-set_here :
      (xs : List A) (i : ℕ) (x v : A) → get_elem? xs i ≡ some x → get_elem? (set xs i v) i ≡ some v
  get_elem?-set_here [] i x v e = cc
  get_elem?-set_here (y ∷ xs) zero x v e = refl
  get_elem?-set_here (y ∷ xs) (suc i) x v e = get_elem?-set_here xs i x v e

  pub set-set : (xs : List A) (i : ℕ) (u v : A) → set (set xs i u) i v ≡ set xs i v
  set-set [] i u v = refl
  set-set (x ∷ xs) zero u v = refl
  set-set (x ∷ xs) (suc i) u v = ap (λ (t : List A). x ∷ t) (set-set xs i u v)

  pub set-append_last :
      (xs : List A) (u v : A) → set (xs ++ (u ∷ [])) (length xs) v ≡ xs ++ (v ∷ [])
  set-append_last [] u v = refl
  set-append_last (x ∷ xs) u v = ap (λ (t : List A). x ∷ t) (set-append_last xs u v)
