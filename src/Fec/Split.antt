-- ===== src/Fec/Split.antt =====
-- internal/fec/encoder.go: the slices of the backing array.
use mpudp.Prelude.{
  ℕ, zero, suc, ◌+◌, ◌-◌, ◌*◌, ◌≤◌, ◌≡◌, refl, ap, ◌∙◌, List, [], ◌∷◌, ◌++◌, length, length-append,
  length-drop, length-take, length-replicate, take, drop, replicate, arith, All,
}
use native.Mathlib.Nat.{suc-mul}
use mpudp.Fec.Encoder.{backing, slices, concat}

take_nil : (n : ℕ) → take {A = ℕ} n [] ≡ []
take_nil zero = refl
take_nil (suc n) = refl

pub take-add : (m n : ℕ) (xs : List ℕ) → take m xs ++ take n (drop m xs) ≡ take (m + n) xs
take-add zero n xs = let e : n ≡ 0 + n = omega arith in ap (λ (t : ℕ). take t xs) e
take-add (suc m) n [] =
    let e : suc (m + n) ≡ suc m + n = omega arith in
    take_nil n ∙ ap (λ (t : ℕ). take {A = ℕ} t []) e
take-add (suc m) n (x ∷ xs) =
    let e : suc (m + n) ≡ suc m + n = omega arith in
    ap (λ (ys : List ℕ). x ∷ ys) (take-add m n xs) ∙ ap (λ (t : ℕ). take t (x ∷ xs)) e

concat-slices :
    (count size : ℕ) (bytes : List ℕ) → concat (slices count size bytes) ≡ take (count * size) bytes
unfolding slices
concat-slices zero size bytes = let e : 0 ≡ 0 * size = omega arith in ap (λ (t : ℕ). take t bytes) e
concat-slices (suc count) size bytes =
    let e : size + count * size ≡ suc count * size = omega (arith, suc-mul count size) in
    ap (λ (ys : List ℕ). take size bytes ++ ys) (concat-slices count size (drop size bytes))
    ∙ take-add size (count * size) bytes
    ∙ ap (λ (t : ℕ). take t bytes) e

pub take_all : (xs : List ℕ) (n : ℕ) → length xs ≤ n → take n xs ≡ xs
take_all [] n h = take_nil n
take_all (x ∷ xs) zero h = absurd (omega arith)
take_all (x ∷ xs) (suc n) h = ap (λ (ys : List ℕ). x ∷ ys) (take_all xs n (omega arith))

pub take-slices :
    (k n size : ℕ) (bytes : List ℕ) → k ≤ n → take k (slices n size bytes) ≡ slices k size bytes
unfolding slices
take-slices zero n size bytes h = refl
take-slices (suc k) zero size bytes h = absurd (omega arith)
take-slices (suc k) (suc n) size bytes h =
    ap (λ (ys : List (List ℕ)). take size bytes ∷ ys)
      (take-slices k n size (drop size bytes) (omega arith))

take-take-append :
    (xs ys : List ℕ) (n : ℕ) → length xs ≤ n → take (length xs) (take n (xs ++ ys)) ≡ xs
take-take-append [] ys n h = refl
take-take-append (x ∷ xs) ys zero h = absurd (omega arith)
take-take-append (x ∷ xs) ys (suc n) h =
    ap (λ (zs : List ℕ). x ∷ zs) (take-take-append xs ys n (omega arith))

pub length-slices : (count size : ℕ) (bytes : List ℕ) → length (slices count size bytes) ≡ count
unfolding slices
length-slices zero size bytes = refl
length-slices (suc count) size bytes = ap suc (length-slices count size (drop size bytes))

-- The data shards of a block hold the payload.
pub data_slices-hold :
    (payload : List ℕ) (k total size : ℕ)
    → k ≤ total
    → length payload ≤ k * size
    → take (length payload) (concat (take k (slices total size (backing payload (total * size)))))
      ≡ payload
unfolding backing
data_slices-hold payload k total size le fits =
    let all = backing payload (total * size) in
    ap (λ (xs : List (List ℕ)). take (length payload) (concat xs)) (take-slices k total size all le)
    ∙ ap (take (length payload)) (concat-slices k size all)
    ∙ take-take-append payload (replicate (total * size - length payload) 0) (k * size) fits

-- Every slice of an array that is long enough has the full size.
pub slices-sized :
    (count size : ℕ) (bytes : List ℕ)
    → count * size ≤ length bytes
    → All (λ (s : List ℕ). length s ≡ size) (slices count size bytes)
unfolding slices
slices-sized zero size bytes h = tt
slices-sized (suc count) size bytes h =
    let e = suc-mul count size in
    (
      omega (arith, e, length-take size bytes),
      slices-sized count size (drop size bytes) (omega (arith, e, length-drop size bytes)),
    )

pub length-backing :
    (payload : List ℕ) (n : ℕ) → length payload ≤ n → length (backing payload n) ≡ n
unfolding backing
length-backing payload n h = omega (
  arith,
  length-append payload (replicate {A = ℕ} (n - length payload) 0),
  length-replicate {A = ℕ} (n - length payload) 0,
)
