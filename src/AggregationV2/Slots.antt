-- ===== src/AggregationV2/Slots.antt =====
-- internal/aggregationv2/queue.go: the ring's slots as the list of queued entries.
use mpudp.Prelude.{
  ℕ, zero, suc, ◌+◌, ◌%◌, ◌<◌, ◌≡◌, ◌≢◌, refl, sym, ap, ◌∙◌, List, [], ◌∷◌, ◌++◌, arith, length,
  length-set, set, get_or, ◌⊎◌, inl, inr,
}
use native.Mathlib.Nat.{mod-add-mod, mod-lt, mod-eq_of_lt}
use mpudp.RecvWindow.Slots.{slots_apart}
use mpudp.AggregationV2.{Entry, no_entry, slot, at, entries}

get_or-set_self :
    (xs : List Entry) (i : ℕ) (v : Entry) → i < length xs → get_or (set xs i v) i no_entry ≡ v
get_or-set_self [] i v h = absurd (omega arith)
get_or-set_self (x ∷ xs) zero v h = refl
get_or-set_self (x ∷ xs) (suc i) v h = get_or-set_self xs i v (omega arith)

get_or-set_ne :
    (xs : List Entry) (i j : ℕ) (v : Entry)
    → i ≢ j
    → get_or (set xs i v) j no_entry ≡ get_or xs j no_entry
get_or-set_ne [] i j v h = refl
get_or-set_ne (x ∷ xs) zero zero v h = absurd (h refl)
get_or-set_ne (x ∷ xs) zero (suc j) v h = refl
get_or-set_ne (x ∷ xs) (suc i) zero v h = refl
get_or-set_ne (x ∷ xs) (suc i) (suc j) v h = get_or-set_ne xs i j v (λ e. h (ap suc e))

-- The slots of one window of the ring are apart.
slot-ne :
    (ring : List Entry) (head i j : ℕ)
    → i ≢ j
    → i < length ring
    → j < length ring
    → slot ring head i ≢ slot ring head j
slot-ne ring head i j ne a b e =
    let order : (i < j) ⊎ (j < i) = omega arith in
    elim order [
      | inl lt ↦ slots_apart (head + i) (head + j) (length ring) (omega arith) (omega arith) e
      | inr gt ↦ slots_apart (head + j) (head + i) (length ring) (omega arith) (omega arith) (sym e)
    ]

module _ (ring : List Entry) (head : ℕ) where
  pub at-set_self :
      (i : ℕ) (v : Entry) → i < length ring → at (set ring (slot ring head i) v) head i ≡ v
  at-set_self i v h =
      ap (λ (n : ℕ). get_or (set ring (slot ring head i) v) ((head + i) % n) no_entry)
        (length-set ring (slot ring head i) v)
      ∙ get_or-set_self ring (slot ring head i) v
          (mod-lt (head + i) {m = length ring} (omega arith))

  pub at-set_ne :
      (i j : ℕ) (v : Entry)
      → i ≢ j
      → i < length ring
      → j < length ring
      → at (set ring (slot ring head i) v) head j ≡ at ring head j
  at-set_ne i j v ne a b =
      ap (λ (n : ℕ). get_or (set ring (slot ring head i) v) ((head + j) % n) no_entry)
        (length-set ring (slot ring head i) v)
      ∙ get_or-set_ne ring (slot ring head i) (slot ring head j) v (slot-ne ring head i j ne a b)

  -- The head moved up by one.
  pub at-next : (i : ℕ) → at ring ((head + 1) % length ring) i ≡ at ring head (i + 1)
  at-next i =
      let e : head + 1 + i ≡ head + (i + 1) = omega arith in
      ap (λ (n : ℕ). get_or ring n no_entry)
        (mod-add-mod (head + 1) (length ring) i ∙ ap (λ (n : ℕ). n % length ring) e)

-- Two stretches of slots that agree hold the same entries.
pub entries_cong :
    (ring ring' : List Entry) (head head' i i' n : ℕ)
    → ((k : ℕ) → k < n → at ring head (i + k) ≡ at ring' head' (i' + k))
    → entries ring head i n ≡ entries ring' head' i' n
entries_cong ring ring' head head' i i' zero h = refl
entries_cong ring ring' head head' i i' (suc n) h =
    let first : at ring head i ≡ at ring' head' i' =
      ap (at ring head) (plus_zero i)
      ∙ h 0 (omega arith)
      ∙ ap (at ring' head') (sym (plus_zero i')) in
    λ j.
      first j
      ∷ entries_cong ring ring' head head' (i + 1) (i' + 1) n
          (λ k lt.
            ap (at ring head) (plus_suc i k)
            ∙ h (suc k) (omega arith)
            ∙ ap (at ring' head') (sym (plus_suc i' k)))
          j
  where
    plus_zero : (m : ℕ) → m ≡ m + 0
    plus_zero m = omega arith

    plus_suc : (m k : ℕ) → m + 1 + k ≡ m + suc k
    plus_suc m k = omega arith

pub entries-append :
    (ring : List Entry) (head i m n : ℕ)
    → entries ring head i (m + n) ≡ entries ring head i m ++ entries ring head (i + m) n
entries-append ring head i zero n =
    let e : 0 + n ≡ n = omega arith in
    let f : i ≡ i + 0 = omega arith in
    ap (entries ring head i) e ∙ ap (λ (k : ℕ). entries ring head k n) f
entries-append ring head i (suc m) n =
    let e : suc m + n ≡ suc (m + n) = omega arith in
    let f : i + 1 + m ≡ i + suc m = omega arith in
    ap (entries ring head i) e
    ∙ ap (λ (l : List Entry). at ring head i ∷ l)
        (entries-append ring head (i + 1) m n
          ∙ ap (λ (k : ℕ). entries ring head (i + 1) m ++ entries ring head k n) f)

pub length-entries : (ring : List Entry) (head i n : ℕ) → length (entries ring head i n) ≡ n
length-entries ring head i zero = refl
length-entries ring head i (suc n) = ap suc (length-entries ring head (i + 1) n)

-- A new entry behind `n` others.
pub entries-set_last :
    (ring : List Entry) (head n : ℕ) (e : Entry)
    → n < length ring
    → entries (set ring (slot ring head n) e) head 0 (n + 1) ≡ entries ring head 0 n ++ (e ∷ [])
entries-set_last ring head n e h =
    let ring' = set ring (slot ring head n) e in
    let z : 0 + n ≡ n = omega arith in
    entries-append ring' head 0 n 1
    ∙ ap (λ (l : List Entry). l ++ (at ring' head (0 + n) ∷ []))
        (entries_cong ring' ring head head 0 0 n
          (λ k lt. at-set_ne ring head n (0 + k) e (omega arith) h (omega arith)))
    ∙ ap (λ (x : Entry). entries ring head 0 n ++ (x ∷ []))
        (ap (at ring' head) z ∙ at-set_self ring head n e h)

slot_head : (ring : List Entry) (head : ℕ) → head < length ring → slot ring head 0 ≡ head
slot_head ring head lt =
    let z : head + 0 ≡ head = omega arith in ap (λ (n : ℕ). n % length ring) z ∙ mod-eq_of_lt lt

-- A write to the head does not reach the other entries.
at-set_head :
    (ring : List Entry) (head k : ℕ) (e : Entry)
    → head < length ring
    → k + 1 < length ring
    → at (set ring head e) head (k + 1) ≡ at ring head (k + 1)
at-set_head ring head k e lt h =
    ap (λ (s : ℕ). at (set ring s e) head (k + 1)) (sym (slot_head ring head lt))
    ∙ at-set_ne ring head 0 (k + 1) e (omega arith) (omega arith) h

-- The head's entry is gone, and the head has moved up.
pub entries-drop_head :
    (ring : List Entry) (head n : ℕ) (e : Entry)
    → n < length ring
    → head < length ring
    → entries (set ring head e) ((head + 1) % length (set ring head e)) 0 n ≡ entries ring head 1 n
entries-drop_head ring head n e h lt =
    let ring' = set ring head e in
    entries_cong ring' ring ((head + 1) % length ring') head 0 1 n (λ k less.
      let swap : k + 1 ≡ 1 + k = omega arith in
      let same : 0 + k ≡ k = omega arith in
      ap (at ring' ((head + 1) % length ring')) same
      ∙ at-next ring' head k
      ∙ at-set_head ring head k e lt (omega arith)
      ∙ ap (at ring head) swap)

-- The head's entry is rewritten.
pub entries-set_head :
    (ring : List Entry) (head n : ℕ) (e : Entry)
    → n < length ring
    → head < length ring
    → entries (set ring head e) head 0 (suc n) ≡ e ∷ entries ring head 1 n
entries-set_head ring head n e h lt =
    let first : at (set ring head e) head 0 ≡ e =
      ap (λ (s : ℕ). at (set ring s e) head 0) (sym (slot_head ring head lt))
      ∙ at-set_self ring head 0 e (omega arith) in
    let rest : entries (set ring head e) head 1 n ≡ entries ring head 1 n =
      entries_cong (set ring head e) ring head head 1 1 n (λ k less.
        let swap : 1 + k ≡ k + 1 = omega arith in
        ap (at (set ring head e) head) swap
        ∙ at-set_head ring head k e lt (omega arith)
        ∙ ap (at ring head) (sym swap)) in
    λ j. first j ∷ rest j
