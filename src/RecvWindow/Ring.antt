-- ===== src/RecvWindow/Ring.antt =====
-- internal/recvwindow/window.go: what the loop of `Admit` clears.
use mpudp.Prelude.{
  ℕ, zero, suc, ◌+◌, ◌-◌, ◌%◌, ◌≤◌, ◌<◌, ◌≡◌, refl, sym, ap, ◌∙◌, Bool, false, not, ◌&&◌, ◌||◌,
  ◌==◌, ltb, leb, ◌⊎◌, inl, inr, arith, Bool-cases,
}
use native.Mathlib.Nat.{mod-eq_of_lt, mod-lt, mod_self}
use mpudp.RecvWindow.{
  Bitmap, ones_count, in_mask, clear_mask, set_bit, no_bits, chunk_width, clear_ring,
}

ones_count-ext :
    (f g : ℕ → Bool) (p n : ℕ)
    → ((i : ℕ) → p ≤ i → i < p + n → f i ≡ g i)
    → ones_count f p n ≡ ones_count g p n
unfolding ones_count
ones_count-ext f g p zero h = refl
ones_count-ext f g p (suc n) h =
    let here = h p (omega arith) (omega arith) in
    let rest = ones_count-ext f g (p + 1) n (λ i a b. h i (omega arith) (omega arith)) in
    ground (arith, here, rest)

ones_count-add :
    (f : ℕ → Bool) (p m n : ℕ) → ones_count f p (m + n) ≡ ones_count f p m + ones_count f (p + m) n
unfolding ones_count
ones_count-add f p zero n =
    let e : p ≡ p + 0 = omega arith in
    let z : 0 + n ≡ n = omega arith in
    omega (arith, ap (ones_count f p) z, ap (λ (q : ℕ). ones_count f q n) e)
ones_count-add f p (suc m) n =
    let e : p + 1 + m ≡ p + suc m = omega arith in
    let e' : suc m + n ≡ suc (m + n) = omega arith in
    omega (
      arith,
      ap (ones_count f p) e',
      ones_count-add f (p + 1) m n,
      ap (λ (q : ℕ). ones_count f q n) e,
    )

ones_count-none :
    (f : ℕ → Bool) (p n : ℕ) → ((i : ℕ) → p ≤ i → i < p + n → f i ≡ false) → ones_count f p n ≡ 0
unfolding ones_count
ones_count-none f p zero h = refl
ones_count-none f p (suc n) h =
    let here = h p (omega arith) (omega arith) in
    let rest = ones_count-none f (p + 1) n (λ i a b. h i (omega arith) (omega arith)) in
    ground (arith, here, rest)

-- A window of `span` bits, cut at `p` and `p + w`.
ones_count-cut :
    (f : ℕ → Bool) (p w span : ℕ)
    → p + w ≤ span
    → ones_count f 0 span
      ≡ ones_count f 0 p + ones_count f p w + ones_count f (p + w) (span - (p + w))
ones_count-cut f p w span h =
    let e : span ≡ p + (w + (span - (p + w))) = omega arith in
    let z : 0 + p ≡ p = omega arith in
    let first = ones_count-add f 0 p (w + (span - (p + w))) in
    let low = ap (λ (q : ℕ). ones_count f q (w + (span - (p + w)))) z in
    let second = ones_count-add f p w (span - (p + w)) in
    ap (ones_count f 0) e ∙ omega (arith, first, low, second)

-- The count of a bitmap is the number of its set bits.
abbrev pub IsCounted : ℕ → Bitmap → Type 0
IsCounted span b = b.count ≡ ones_count b.bits 0 span

clear_mask-IsCounted :
    (span : ℕ) (b : Bitmap) (p w : ℕ)
    → p + w ≤ span
    → IsCounted span b
    → IsCounted span (clear_mask b p w)
unfolding clear_mask
clear_mask-IsCounted span b p w h c =
    let f = b.bits in
    let g : ℕ → Bool = λ i. f i && not (in_mask p w i) in
    let low = ones_count-ext f g 0 p (λ i a l. ground arith) in
    let mid = ones_count-none g p w (λ i a l. ground arith) in
    let high = ones_count-ext f g (p + w) (span - (p + w)) (λ i a l. ground arith) in
    omega (arith, c, ones_count-cut f p w span h, ones_count-cut g p w span h, low, mid, high)

pub set_bit-IsCounted :
    (span : ℕ) (b : Bitmap) (p : ℕ)
    → p < span
    → b.bits p ≡ false
    → IsCounted span b
    → IsCounted span (set_bit b p)
unfolding set_bit
set_bit-IsCounted span b p h free c =
    let f = b.bits in
    let g : ℕ → Bool = λ i. f i || i == p in
    let low = ones_count-ext f g 0 p (λ i a l. ground arith) in
    let high = ones_count-ext f g (p + 1) (span - (p + 1)) (λ i a l. ground arith) in
    let here : ones_count g p 1 ≡ ones_count f p 1 + 1 = unfold ones_count in ground arith in
    omega (
      arith,
      c,
      ones_count-cut f p 1 span (omega arith),
      ones_count-cut g p 1 span (omega arith),
      low,
      here,
      high,
    )

pub no_bits-IsCounted : (span : ℕ) → IsCounted span no_bits
no_bits-IsCounted span = sym (ones_count-none (λ _. false) 0 span (λ i a l. refl))

-- Bit `i` is one of the `r` bits from `p` on, round a ring of `span` bits.
abbrev pub in_arc : ℕ → ℕ → ℕ → ℕ → Bool
in_arc span p r i = (leb p i && ltb i (p + r)) || ltb (i + span) (p + r)

-- `b'` is `b` without the arc.
pub record IsCleared (span p r : ℕ) (b b' : Bitmap) : Type 0 where
  pub exact : (i : ℕ) → i < span → b'.bits i ≡ (b.bits i && not (in_arc span p r i))
  pub counted : IsCounted span b → IsCounted span b'

wrap : (a span : ℕ) → a ≤ span → ((a < span) × (a % span ≡ a)) ⊎ ((a ≡ span) × (a % span ≡ 0))
wrap a span h =
    let d : (a < span) ⊎ (a ≡ span) = omega arith in
    elim d [ inl lt ↦ inl (lt, mod-eq_of_lt lt) | inr e ↦ inr (e, rw e (mod_self span)) ]

-- One round's chunk and the rest of the ring make up the arc.
arc-step :
    (span p w r i : ℕ) (b : Bool)
    → p < span
    → r ≤ span
    → w ≤ r
    → p + w ≤ span
    → i < span
    → ((b && not (in_mask p w i)) && not (in_arc span ((p + w) % span) (r - w) i))
      ≡ (b && not (in_arc span p r i))
arc-step span p w r i b hp hr hw hc hi = elim (wrap (p + w) span hc) [
  | inl (lt, e) ↦ rw e (ground arith)
  | inr (eq, e) ↦ rw e (ground arith)
]

chunk_width-bounds :
    (span p r : ℕ)
    → p < span
    → 0 < r
    → let w = chunk_width span p r in (0 < w) × (w ≤ r) × (p + w ≤ span)
chunk_width-bounds span p r hp hr = ground arith

step-IsCleared :
    (span p w r : ℕ) (b b' : Bitmap)
    → p < span
    → r ≤ span
    → w ≤ r
    → p + w ≤ span
    → IsCleared span ((p + w) % span) (r - w) (clear_mask b p w) b'
    → IsCleared span p r b b'
step-IsCleared span p w r b b' hp hr hw hc x = record {
  exact =
      λ i hi. x.exact i hi ∙ unfold clear_mask in arc-step span p w r i (b.bits i) hp hr hw hc hi;
  counted = λ c. x.counted (clear_mask-IsCounted span b p w hc c);
}

no_arc-IsCleared : (span p r : ℕ) (b : Bitmap) → p < span → r ≡ 0 → IsCleared span p r b b
no_arc-IsCleared span p r b hp e = record { exact = λ i hi. ground arith; counted = λ c. c }

-- On enough fuel the loop clears the arc and nothing else, in both bitmaps.
pub clear_ring-IsCleared :
    (fuel span : ℕ) (done lost : Bitmap) (p r : ℕ)
    → p < span
    → r ≤ span
    → r ≤ fuel
    → let (done', lost') = clear_ring fuel span done lost p r in
      IsCleared span p r done done' × IsCleared span p r lost lost'
unfolding clear_ring
clear_ring-IsCleared zero span done lost p r hp hr hf = (
  no_arc-IsCleared span p r done hp (omega arith),
  no_arc-IsCleared span p r lost hp (omega arith),
)
clear_ring-IsCleared (suc fuel) span done lost p r hp hr hf = elim (Bool-cases (r == 0)) [
  | inl z ↦
      rw (z, clear_ring)
        (
          no_arc-IsCleared span p r done hp (ground arith),
          no_arc-IsCleared span p r lost hp (ground arith),
        )
  | inr n ↦
      let w = chunk_width span p r in
      let (w_pos, w_le, fits) = chunk_width-bounds span p r hp (ground arith) in
      let (x, y) =
        clear_ring-IsCleared fuel span (clear_mask done p w) (clear_mask lost p w) ((p + w) % span)
          (r - w) (mod-lt (p + w) (omega arith)) (omega arith) (omega arith) in
      rw (n, clear_ring)
        (
          step-IsCleared span p w r done _ hp hr w_le fits x,
          step-IsCleared span p w r lost _ hp hr w_le fits y,
        )
]
