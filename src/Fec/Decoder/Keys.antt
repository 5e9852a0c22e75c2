-- ===== src/Fec/Decoder/Keys.antt =====
-- internal/fec/decoder.go: the Decoder's maps hold a key once, and sums over their values.
use mpudp.Prelude.{
  ℕ, suc, ◌+◌, ◌≤◌, ◌*◌, ◌≡◌, refl, sym, ap, ◌∙◌, subst, List, [], ◌∷◌, length, Bool-cases,
  Option-cases, inl, inr, none, some, arith,
}
use mpudp.Fec.Expiry.{BlockKey, same_key}
use mpudp.Fec.Decoder.{find, delete, change}
use mpudp.Fec.Decoder.Maps.{find-delete, find-change_found, same_key→eq}

module _ {V : Type 0} where
  abbrev pub HasUniqueKeys : List (BlockKey × V) → Type 0
  HasUniqueKeys [] = Unit
  HasUniqueKeys ((k, v) ∷ p) = (find p k ≡ none) × HasUniqueKeys p

  pub delete-absent : (p : List (BlockKey × V)) (k : BlockKey) → find p k ≡ none → delete p k ≡ p
  delete-absent [] k h = refl
  delete-absent ((j, v) ∷ p) k h = elim (Bool-cases (same_key j k)) [
    | inl same ↦ absurd (ground (arith, same))
    | inr other ↦
        rw other
          (ap (λ (q : List (BlockKey × V)). (j, v) ∷ q) (delete-absent p k (ground (arith, other))))
  ]

  pub delete-HasUniqueKeys :
      (p : List (BlockKey × V)) (k : BlockKey) → HasUniqueKeys p → HasUniqueKeys (delete p k)
  delete-HasUniqueKeys [] k h = tt
  delete-HasUniqueKeys ((j, v) ∷ p) k (free, h) = elim (Bool-cases (same_key j k)) [
    | inl same ↦ rw same (delete-HasUniqueKeys p k h)
    | inr other ↦
        let f = find-delete p k j in rw other (ground (arith, f, free), delete-HasUniqueKeys p k h)
  ]

  pub change-HasUniqueKeys :
      (p : List (BlockKey × V)) (k : BlockKey) (w : V)
      → HasUniqueKeys p
      → HasUniqueKeys (change p k w)
  change-HasUniqueKeys [] k w h = tt
  change-HasUniqueKeys ((j, v) ∷ p) k w (free, h) =
      let f = find-change_found p k j w in
      let free' : find (change p k w) j ≡ none = elim (Option-cases (find (change p k w) j)) [
        | inl nothing ↦ nothing
        | inr (u, found) ↦ ground (arith, f, found, free)
      ] in
      elim (Bool-cases (same_key j k)) [
        | inl same ↦ rw same (free', change-HasUniqueKeys p k w h)
        | inr other ↦ rw other (free', change-HasUniqueKeys p k w h)
      ]

  abbrev pub total_of : (V → ℕ) → List (BlockKey × V) → ℕ
  total_of f [] = 0
  total_of f ((k, v) ∷ p) = f v + total_of f p

  pub total_of-delete :
      (f : V → ℕ) (p : List (BlockKey × V)) (k : BlockKey) (v : V)
      → HasUniqueKeys p
      → find p k ≡ some v
      → total_of f (delete p k) + f v ≡ total_of f p
  total_of-delete f [] k v h e = cc
  total_of-delete f ((j, u) ∷ p) k v (free, h) e = elim (Bool-cases (same_key j k)) [
    | inl same ↦
        let jk = same_key→eq j k same in
        let gone = delete-absent p k (ap (find p) (sym jk) ∙ free) in
        let uv : u ≡ v = ground (arith, same) in rw same (rw (gone, uv) (omega arith))
    | inr other ↦
        let rest = total_of-delete f p k v h (ground (arith, other)) in rw other (omega arith)
  ]

  pub length-delete : (p : List (BlockKey × V)) (k : BlockKey) → length (delete p k) ≤ length p
  length-delete [] k = omega arith
  length-delete ((j, u) ∷ p) k =
      let rest = length-delete p k in
      elim (Bool-cases (same_key j k)) [
        | inl same ↦ rw same (omega arith)
        | inr other ↦ rw other (omega arith)
      ]

  pub change-absent :
      (p : List (BlockKey × V)) (k : BlockKey) (w : V) → find p k ≡ none → change p k w ≡ p
  change-absent [] k w h = refl
  change-absent ((j, v) ∷ p) k w h = elim (Bool-cases (same_key j k)) [
    | inl same ↦ absurd (ground (arith, same))
    | inr other ↦
        rw other (
          ap (λ (q : List (BlockKey × V)). (j, v) ∷ q)
            (change-absent p k w (ground (arith, other))))
  ]

  pub total_of-change :
      (f : V → ℕ) (p : List (BlockKey × V)) (k : BlockKey) (v w : V)
      → HasUniqueKeys p
      → find p k ≡ some v
      → total_of f (change p k w) + f v ≡ total_of f p + f w
  total_of-change f [] k v w h e = cc
  total_of-change f ((j, u) ∷ p) k v w (free, h) e = elim (Bool-cases (same_key j k)) [
    | inl same ↦
        let jk = same_key→eq j k same in
        let kept = change-absent p k w (ap (find p) (sym jk) ∙ free) in
        let uv : u ≡ v = ground (arith, same) in rw same (rw (kept, uv) (omega arith))
    | inr other ↦
        let rest = total_of-change f p k v w h (ground (arith, other)) in rw other (omega arith)
  ]

  pub length-change :
      (p : List (BlockKey × V)) (k : BlockKey) (w : V) → length (change p k w) ≡ length p
  length-change [] k w = refl
  length-change ((j, u) ∷ p) k w = ap suc (length-change p k w)

  pub delete-change :
      (p : List (BlockKey × V)) (k : BlockKey) (w : V) → delete (change p k w) k ≡ delete p k
  delete-change [] k w = refl
  delete-change ((j, u) ∷ p) k w = elim (Bool-cases (same_key j k)) [
    | inl same ↦ rw same (rw same (delete-change p k w))
    | inr other ↦
        rw other (rw other (ap (λ (q : List (BlockKey × V)). (j, u) ∷ q) (delete-change p k w)))
  ]

  abbrev pub AllValues : (V → Type 0) → List (BlockKey × V) → Type 0
  AllValues P [] = Unit
  AllValues P ((k, v) ∷ p) = P v × AllValues P p

  pub AllValues-delete :
      (P : V → Type 0) (p : List (BlockKey × V)) (k : BlockKey)
      → AllValues P p
      → AllValues P (delete p k)
  AllValues-delete P [] k h = tt
  AllValues-delete P ((j, u) ∷ p) k (x, h) = elim (Bool-cases (same_key j k)) [
    | inl same ↦ rw same (AllValues-delete P p k h)
    | inr other ↦ rw other (x, AllValues-delete P p k h)
  ]

  pub AllValues-change :
      (P : V → Type 0) (p : List (BlockKey × V)) (k : BlockKey) (w : V)
      → AllValues P p
      → P w
      → AllValues P (change p k w)
  AllValues-change P [] k w h y = tt
  AllValues-change P ((j, u) ∷ p) k w (x, h) y = elim (Bool-cases (same_key j k)) [
    | inl same ↦ rw same (y, AllValues-change P p k w h y)
    | inr other ↦ rw other (x, AllValues-change P p k w h y)
  ]

  pub AllValues-find :
      (P : V → Type 0) (p : List (BlockKey × V)) (k : BlockKey) (v : V)
      → AllValues P p
      → find p k ≡ some v
      → P v
  AllValues-find P [] k v h e = cc
  AllValues-find P ((j, u) ∷ p) k v (x, h) e = elim (Bool-cases (same_key j k)) [
    | inl same ↦ let uv : u ≡ v = ground (arith, same) in subst P uv x
    | inr other ↦ AllValues-find P p k v h (ground (arith, other))
  ]

  -- Each of the values counts for `m` at most.
  pub total_of-le :
      (f : V → ℕ) (m : ℕ) (p : List (BlockKey × V))
      → AllValues (λ (v : V). f v ≤ m) p
      → total_of f p ≤ length p * m
  total_of-le f m [] h = omega arith
  total_of-le f m ((k, v) ∷ p) (x, h) = let rest = total_of-le f m p h in ground arith

  pub AllValues-imply :
      (P Q : V → Type 0) (p : List (BlockKey × V))
      → ((v : V) → P v → Q v)
      → AllValues P p
      → AllValues Q p
  AllValues-imply P Q [] h all = tt
  AllValues-imply P Q ((k, v) ∷ p) h (x, all) = (h v x, AllValues-imply P Q p h all)

  pub total_of-eq :
      (f g : V → ℕ) (p : List (BlockKey × V))
      → AllValues (λ (v : V). f v ≡ g v) p
      → total_of f p ≡ total_of g p
  total_of-eq f g [] h = refl
  total_of-eq f g ((k, v) ∷ p) (e, h) = let rest = total_of-eq f g p h in omega arith
