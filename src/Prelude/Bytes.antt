-- ===== src/Prelude/Bytes.antt =====
-- encoding/binary: big-endian integers as lists of bytes, and the predicates on lists.
use Prim.Native.Nat.{ℕ, zero, suc, ◌+◌, ◌*◌, ◌/◌, ◌%◌, ◌≤◌, ◌<◌, ◌^◌}
use mathlib.Core.Path.{◌≡◌, refl}
use mathlib.Core.List.{List, [], ◌∷◌, ◌++◌}
use mathlib.Core.Bool.{Bool, true, false, ◌&&◌}
use native.Mathlib.Omega.{arith}
use mpudp.Prelude.Lists.{length, get_or, drop, take}
use mpudp.Prelude.Tests.{◌==◌}

abbrev pub IsByte : ℕ → Type 0
IsByte b = b < 256

abbrev pub All {ℓ κ} : {A : Type ℓ} → (A → Type κ) → List A → Type κ
All P [] = Unit
All P (x ∷ xs) = P x × All P xs

-- A read at a position that the caller has checked; 0 stands for Go's panic out of range.
abbrev pub byte_at : List ℕ → ℕ → ℕ
byte_at bs i = get_or bs i 0

-- `bs[i:j]`.
abbrev pub slice {ℓ} : {A : Type ℓ} → List A → ℕ → ℕ → List A
slice bs i j = drop i (take j bs)

-- `==` on two byte arrays or slices.
abbrev pub bytes_eq : List ℕ → List ℕ → Bool
bytes_eq [] [] = true
bytes_eq [] (y ∷ ys) = false
bytes_eq (x ∷ xs) [] = false
bytes_eq (x ∷ xs) (y ∷ ys) = x == y && bytes_eq xs ys

-- Whether every byte is 0: a comparison with the zero array.
abbrev pub all_zero : List ℕ → Bool
all_zero [] = true
all_zero (x ∷ xs) = x == 0 && all_zero xs

abbrev pub put16 : ℕ → List ℕ
put16 v = (v / 256 % 256) ∷ (v % 256) ∷ []

abbrev pub put32 : ℕ → List ℕ
put32 v = put16 (v / 65536) ++ put16 (v % 65536)

abbrev pub put64 : ℕ → List ℕ
put64 v = put32 (v / 4294967296) ++ put32 (v % 4294967296)

abbrev pub get16 : List ℕ → ℕ
get16 bs = byte_at bs 0 * 256 + byte_at bs 1

abbrev pub get32 : List ℕ → ℕ
get32 bs = get16 bs * 65536 + get16 (drop 2 bs)

abbrev pub get64 : List ℕ → ℕ
get64 bs = get32 bs * 4294967296 + get32 (drop 4 bs)

pub get16-put16 : (v : ℕ) (rest : List ℕ) → v < 2 ^ 16 → get16 (put16 v ++ rest) ≡ v
get16-put16 v rest h = omega arith

pub get32-put32 : (v : ℕ) (rest : List ℕ) → v < 2 ^ 32 → get32 (put32 v ++ rest) ≡ v
get32-put32 v rest h = omega arith

pub get64-put64 : (v : ℕ) (rest : List ℕ) → v < 2 ^ 64 → get64 (put64 v ++ rest) ≡ v
get64-put64 v rest h = omega arith

pub put16-get16 :
    (a b : ℕ) (rest : List ℕ) → IsByte a → IsByte b → put16 (get16 (a ∷ b ∷ rest)) ≡ a ∷ b ∷ []
put16-get16 a b rest ha hb = ground arith

pub bytes_eq→eq : (xs ys : List ℕ) → bytes_eq xs ys ≡ true → xs ≡ ys
bytes_eq→eq [] [] h = refl
bytes_eq→eq [] (y ∷ ys) h = cc
bytes_eq→eq (x ∷ xs) [] h = cc
bytes_eq→eq (x ∷ xs) (y ∷ ys) h = ground (arith, bytes_eq→eq xs ys)

pub bytes_eq_refl : (xs : List ℕ) → bytes_eq xs xs ≡ true
bytes_eq_refl [] = refl
bytes_eq_refl (x ∷ xs) = ground (arith, bytes_eq_refl xs)

module _ {ℓ} {A : Type ℓ} where
  pub take-append_exact : (xs ys : List A) (n : ℕ) → length xs ≡ n → take n (xs ++ ys) ≡ xs
  take-append_exact [] ys n h = rw (← h)
  take-append_exact (x ∷ xs) ys zero h = absurd (omega arith)
  take-append_exact (x ∷ xs) ys (suc n) h = rw (take-append_exact xs ys n (omega arith))

  pub drop-append_exact : (xs ys : List A) (n : ℕ) → length xs ≡ n → drop n (xs ++ ys) ≡ ys
  drop-append_exact [] ys n h = rw (← h)
  drop-append_exact (x ∷ xs) ys zero h = absurd (omega arith)
  drop-append_exact (x ∷ xs) ys (suc n) h = drop-append_exact xs ys n (omega arith)

pub put32-get32 :
    (a b c d : ℕ) (rest : List ℕ)
    → All IsByte (a ∷ b ∷ c ∷ d ∷ [])
    → put32 (get32 (a ∷ b ∷ c ∷ d ∷ rest)) ≡ a ∷ b ∷ c ∷ d ∷ []
put32-get32 a b c d rest h = ground arith

pub put64-get64 :
    (a b c d e f g i : ℕ) (rest : List ℕ)
    → All IsByte (a ∷ b ∷ c ∷ d ∷ e ∷ f ∷ g ∷ i ∷ [])
    → put64 (get64 (a ∷ b ∷ c ∷ d ∷ e ∷ f ∷ g ∷ i ∷ rest)) ≡ a ∷ b ∷ c ∷ d ∷ e ∷ f ∷ g ∷ i ∷ []
put64-get64 a b c d e f g i rest h = ground arith

module _ {ℓ} {A : Type ℓ} where
  pub take-append-slice : (i j : ℕ) (xs : List A) → i ≤ j → take i xs ++ slice xs i j ≡ take j xs
  take-append-slice zero j xs h = refl
  take-append-slice (suc i) zero xs h = absurd (omega arith)
  take-append-slice (suc i) (suc j) [] h = refl
  take-append-slice (suc i) (suc j) (x ∷ xs) h = rw (take-append-slice i j xs (omega arith))

  pub All-take {κ} : (P : A → Type κ) (n : ℕ) (xs : List A) → All P xs → All P (take n xs)
  All-take P zero xs h = tt
  All-take P (suc n) [] h = tt
  All-take P (suc n) (x ∷ xs) h = (h.0, All-take P n xs h.1)

  pub All-drop {κ} : (P : A → Type κ) (n : ℕ) (xs : List A) → All P xs → All P (drop n xs)
  All-drop P zero xs h = h
  All-drop P (suc n) [] h = tt
  All-drop P (suc n) (x ∷ xs) h = All-drop P n xs h.1

pub byte_at-IsByte : (bs : List ℕ) (i : ℕ) → All IsByte bs → IsByte (byte_at bs i)
byte_at-IsByte [] i h = omega arith
byte_at-IsByte (b ∷ bs) zero h = h.0
byte_at-IsByte (b ∷ bs) (suc i) h = byte_at-IsByte bs i h.1

pub get16-lt : (bs : List ℕ) → All IsByte bs → get16 bs < 2 ^ 16
get16-lt bs h = omega (arith, byte_at-IsByte bs 0 h, byte_at-IsByte bs 1 h)
