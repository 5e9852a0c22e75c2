-- ===== src/RecvWindow/Slots.antt =====
-- internal/recvwindow/window.go: the bits that the IDs of a window stand in.
use mpudp.Prelude.{
  ℕ, ◌+◌, ◌-◌, ◌%◌, ◌≤◌, ◌<◌, ◌≡◌, ◌≢◌, sym, ap, ◌∙◌, true, false, ◌⊎◌, inl, inr, arith,
}
use native.Mathlib.Nat.{mod-add-mod, mod-lt, mod-eq_of_lt, mod-eq-sub-mod}
use mpudp.RecvWindow.Ring.{in_arc}

-- `d` places on from an ID's bit, round the ring.
mod-step :
    (a d m : ℕ)
    → d < m
    → (((a + d) % m ≡ a % m + d) × (a % m + d < m)) ⊎ (((a + d) % m + m ≡ a % m + d) × (a % m < m))
mod-step a d m h =
    let r = mod-lt a {m = m} (omega arith) in
    let same = mod-add-mod a m d in
    let split : (a % m + d < m) ⊎ (m ≤ a % m + d) = omega arith in
    elim split [
      | inl lt ↦ inl (sym same ∙ mod-eq_of_lt lt, lt)
      | inr ge ↦
          let back = mod-eq-sub-mod ge in
          let small = mod-eq_of_lt {n = a % m + d - m} {m = m} (omega arith) in
          inr (omega (arith, same, back, small), r)
    ]

-- IDs of one window stand in different bits.
pub slots_apart : (j k m : ℕ) → j < k → k < j + m → j % m ≢ k % m
slots_apart j k m lt near =
    let e : j + (k - j) ≡ k = omega arith in
    elim (mod-step j (k - j) m (omega arith)) [
      | inl (x, _) ↦ omega (arith, x, ap (λ (n : ℕ). n % m) e)
      | inr (x, _) ↦ omega (arith, x, ap (λ (n : ℕ). n % m) e)
    ]

-- The IDs that an advance from `low` to `high` brings in stand in the arc that it clears.
pub new_id-in_arc :
    (low high k m : ℕ)
    → low < k
    → k ≤ high
    → high - low < m
    → in_arc m ((low + 1) % m) (high - low) (k % m) ≡ true
new_id-in_arc low high k m a b near =
    let e : low + 1 + (k - (low + 1)) ≡ k = omega arith in
    let f = ap (λ (n : ℕ). n % m) e in
    elim (mod-step (low + 1) (k - (low + 1)) m (omega arith)) [
      | inl (x, _) ↦ ground (arith, x, f)
      | inr (x, _) ↦ ground (arith, x, f)
    ]

-- The IDs that stay in the window do not.
pub old_id-in_arc :
    (low high k m : ℕ)
    → k ≤ low
    → low < high
    → high < k + m
    → in_arc m ((low + 1) % m) (high - low) (k % m) ≡ false
old_id-in_arc low high k m a b near =
    let e : k + (low + 1 - k) ≡ low + 1 = omega arith in
    let f = ap (λ (n : ℕ). n % m) e in
    elim (mod-step k (low + 1 - k) m (omega arith)) [
      | inl (x, _) ↦ ground (arith, x, f)
      | inr (x, _) ↦ ground (arith, x, f)
    ]
