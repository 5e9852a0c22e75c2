-- ===== src/Fec/Decoder/Heap.antt =====
-- internal/fec/expiry_heap.go: the least entry of a heap, and the entries without it.
use mpudp.Prelude.{
  ◌+◌, ◌≤◌, ◌≡◌, refl, sym, ap, ◌∙◌, List, [], ◌∷◌, length, Bool, true, false, ◌||◌, ◌==◌,
  Bool-cases, inl, inr, arith,
}
use mpudp.Fec.Expiry.{ExpiryEntry, entry_less, least, same_entry, without}
use mpudp.Fec.Decoder.Maps.{same_key→eq, same_key_refl}

abbrev pub has : List ExpiryEntry → ExpiryEntry → Bool
has [] e = false
has (f ∷ fs) e = same_entry f e || has fs e

pub same_entry→eq : (a b : ExpiryEntry) → same_entry a b ≡ true → a ≡ b
same_entry→eq a b h =
    let keys = same_key→eq a.key b.key (ground (arith, h)) in
    let deadlines : a.deadline ≡ b.deadline = ground (arith, h) in
    λ i. record { key = keys i; deadline = deadlines i }

pub same_entry_refl : (a : ExpiryEntry) → same_entry a a ≡ true
same_entry_refl a = let e = same_key_refl a.key in ground (arith, e)

pub has-without :
    (es : List ExpiryEntry) (t e : ExpiryEntry)
    → same_entry e t ≡ false
    → has es e ≡ true
    → has (without t es) e ≡ true
has-without [] t e apart h = cc
has-without (f ∷ fs) t e apart h = elim (Bool-cases (same_entry f t)) [
  | inl taken ↦ elim (Bool-cases (same_entry f e)) [
    | inl here ↦
        let fe = same_entry→eq f e here in
        let both : same_entry e t ≡ true =
          ap (λ (x : ExpiryEntry). same_entry x t) (sym fe) ∙ taken in
        cc
    | inr there ↦ rw taken (ground (arith, there, h))
  ]
  | inr other ↦ elim (Bool-cases (same_entry f e)) [
    | inl here ↦ rw other (rw here refl)
    | inr there ↦
        let rest = has-without fs t e apart (ground (arith, there, h)) in rw other (rw there rest)
  ]
]

pub length-without :
    (es : List ExpiryEntry) (t : ExpiryEntry)
    → has es t ≡ true
    → length (without t es) + 1 ≡ length es
length-without [] t h = cc
length-without (f ∷ fs) t h = elim (Bool-cases (same_entry f t)) [
  | inl taken ↦ rw taken (omega arith)
  | inr other ↦ let rest = length-without fs t (ground (arith, other, h)) in rw other (omega arith)
]

entry_less-le : (a b : ExpiryEntry) → entry_less a b ≡ true → a.deadline ≤ b.deadline
unfolding entry_less
entry_less-le a b h = elim (Bool-cases (a.deadline == b.deadline)) [
  | inl same ↦ ground (arith, same)
  | inr other ↦ ground (arith, other, h)
]

not_less-le : (a b : ExpiryEntry) → entry_less a b ≡ false → b.deadline ≤ a.deadline
unfolding entry_less
not_less-le a b h = elim (Bool-cases (a.deadline == b.deadline)) [
  | inl same ↦ ground (arith, same)
  | inr other ↦ ground (arith, other, h)
]

-- The least entry is one of the heap.
pub has-least : (es : List ExpiryEntry) (e : ExpiryEntry) → has (e ∷ es) (least e es) ≡ true
unfolding least
has-least [] e = rw (same_entry_refl e) refl
has-least (f ∷ fs) e = elim (Bool-cases (entry_less f e)) [
  | inl less ↦ let rest = has-least fs f in rw less (ground (arith, rest))
  | inr more ↦ let rest = has-least fs e in rw more (ground (arith, rest))
]

-- Its deadline is not behind any other's.
pub least-le :
    (es : List ExpiryEntry) (e x : ExpiryEntry)
    → has (e ∷ es) x ≡ true
    → (least e es).deadline ≤ x.deadline
unfolding least
least-le [] e x h =
    let ex = same_entry→eq e x (ground (arith, h)) in
    let same = ap (λ (y : ExpiryEntry). y.deadline) ex in omega arith
least-le (f ∷ fs) e x h = elim (Bool-cases (entry_less f e)) [
  | inl less ↦
      let le = entry_less-le f e less in
      elim (Bool-cases (same_entry e x)) [
        | inl here ↦
            let same = ap (λ (y : ExpiryEntry). y.deadline) (same_entry→eq e x here) in
            let first = least-le fs f f (rw (same_entry_refl f) refl) in
            rw (less, least) (omega arith)
        | inr there ↦ rw (less, least) (least-le fs f x (ground (arith, there, h)))
      ]
  | inr more ↦
      let le = not_less-le f e more in
      elim (Bool-cases (same_entry f x)) [
        | inl here ↦
            let same = ap (λ (y : ExpiryEntry). y.deadline) (same_entry→eq f x here) in
            let first = least-le fs e e (rw (same_entry_refl e) refl) in
            rw (more, least) (omega arith)
        | inr there ↦ rw (more, least) (least-le fs e x (ground (arith, there, h)))
      ]
]
