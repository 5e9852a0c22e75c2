-- ===== src/Scheduler/Balance.antt =====
-- internal/scheduler/scheduler.go: `Assign` spreads a block's shards evenly.
use mpudp.Prelude.{
  ℕ, zero, suc, ◌+◌, ◌-◌, ◌/◌, ◌%◌, ◌≤◌, ◌<◌, ◌≡◌, refl, ap, ◌∙◌, List, [], ◌∷◌, arith, ◌==◌,
  if◌then◌else◌, length, ltb, ok, All, get_elem?, some,
}
use native.Mathlib.Nat.{div-add-mod, mod-add-mod, mul-add-div, div-eq_of_lt-le}
use mpudp.Prelude.Int.{ℤ, pos, negsuc, pos_part}
use mpudp.Scheduler.{fill, assign, max_shards, max_paths}

-- How many shards a path carries.
abbrev pub load : ℕ → List ℕ → ℕ
load path [] = 0
load path (p ∷ ps) = let rest = load path ps in if p == path then suc rest else rest

length-fill : (m start shard n : ℕ) → length (fill m start shard n) ≡ n
unfolding fill
length-fill m start shard zero = refl
length-fill m start shard (suc n) = ap suc (length-fill m start (shard + 1) n)

fill-All : (m start shard n : ℕ) → 0 < m → All (λ p. p < m) (fill m start shard n)
unfolding fill
fill-All m start shard zero h = tt
fill-All m start shard (suc n) h = (omega arith, fill-All m start (shard + 1) n h)

-- How many of the numbers below `x` leave the remainder `p`.
below : ℕ → ℕ → ℕ → ℕ
below m p x = (x + (m - 1 - p)) / m

-- A sum's quotient, by the quotient and the remainder of its first part.
div-add_split : (m x s : ℕ) → 0 < m → (x + s) / m ≡ x / m + (x % m + s) / m
div-add_split m x s h =
    ap (λ (t : ℕ). t / m) (omega (arith, div-add-mod x m)) ∙ mul-add-div h (x / m) (x % m + s)

small-div : (m s : ℕ) → s < m + m → s / m ≡ (if ltb s m then 0 else 1)
small-div m s h = grind (arith, div-eq_of_lt-le)

below-step :
    (m p x : ℕ)
    → p < m
    → below m p (x + 1) ≡ (if x % m == p then suc (below m p x) else below m p x)
unfolding below
below-step m p x h =
    let r : x % m < m = omega arith in
    let c : x + 1 + (m - 1 - p) ≡ x + (1 + (m - 1 - p)) = omega arith in
    rw c (
      ground (
        arith,
        div-add_split m x (m - 1 - p),
        div-add_split m x (1 + (m - 1 - p)),
        small-div m (x % m + (m - 1 - p)),
        small-div m (x % m + (1 + (m - 1 - p))),
      ))

load-fill :
    (m p start shard n : ℕ)
    → p < m
    → load p (fill m start shard n) + below m p (start + shard) ≡ below m p (start + shard + n)
unfolding fill
load-fill m p start shard zero h =
    let e : start + shard + 0 ≡ start + shard = omega arith in omega (arith, ap (below m p) e)
load-fill m p start shard (suc n) h = ground (
  arith,
  load-fill m p start (shard + 1) n h,
  below-step m p (start + shard) h,
  ap (below m p) e,
  ap (below m p) e',
)
  where
    e : start + (shard + 1) ≡ start + shard + 1
    e = omega arith

    e' : start + (shard + 1) + n ≡ start + shard + suc n
    e' = omega arith

div-add_bounds :
    (m a n : ℕ) → 0 < m → (a / m + n / m ≤ (a + n) / m) × ((a + n) / m ≤ a / m + n / m + 1)
div-add_bounds m a n h =
    let r : a % m < m = omega arith in
    let r' : n % m < m = omega arith in
    let c : a % m + n ≡ n + a % m = omega arith in
    ground (
      arith,
      div-add_split m a n h,
      ap (λ (t : ℕ). t / m) c,
      div-add_split m n (a % m) h,
      small-div m (n % m + a % m),
    )

load_bounds :
    (m p start n : ℕ)
    → p < m
    → (n / m ≤ load p (fill m start 0 n)) × (load p (fill m start 0 n) ≤ n / m + 1)
unfolding below
load_bounds m p start n h =
    let c : start + 0 + n + (m - 1 - p) ≡ start + 0 + (m - 1 - p) + n = omega arith in
    ground (
      arith,
      load-fill m p start 0 n h,
      div-add_bounds m (start + 0 + (m - 1 - p)) n (omega arith),
      ap (λ (t : ℕ). t / m) c,
    )

get_elem?-fill :
    (m start shard n i : ℕ)
    → i < n
    → get_elem? (fill m start shard n) i ≡ some ((start + (shard + i)) % m)
unfolding fill
get_elem?-fill m start shard zero i h = absurd (omega arith)
get_elem?-fill m start shard (suc n) zero h =
    let e : start + shard ≡ start + (shard + 0) = omega arith in rw e
get_elem?-fill m start shard (suc n) (suc i) h =
    let e : start + (shard + 1 + i) ≡ start + (shard + suc i) = omega arith in
    get_elem?-fill m start (shard + 1) n i (omega arith) ∙ ap (λ (t : ℕ). some (t % m)) e

-- What a valid plan for `s` shards over `m` paths is, whatever the packet.
pub record IsPlan (s m : ℕ) (plan : List ℕ) : Type 0 where
  pub complete : length plan ≡ s
  pub in_range : All (λ p. p < m) plan
  pub balanced : (path : ℕ) → path < m → (s / m ≤ load path plan) × (load path plan ≤ s / m + 1)

-- Every plan that `assign` returns has one path index for each shard, each index names a path, and
-- every path carries the rounded down or the rounded up share of the shards. The counts are then
-- between 1 and 256.
pub assign-IsPlan :
    (packet_id : ℕ) (shards paths : ℤ) (plan : List ℕ)
    → assign packet_id shards paths ≡ ok plan
    → (0 < pos_part shards)
      × (pos_part shards ≤ max_shards)
      × (0 < pos_part paths)
      × (pos_part paths ≤ max_paths)
      × IsPlan (pos_part shards) (pos_part paths) plan
unfolding assign
assign-IsPlan id (pos s) (pos m) plan e =
    let made : plan ≡ fill m (id % m) 0 s = ground arith in
    let some_paths : 0 < m = ground arith in
    (
      ground arith,
      ground arith,
      ground arith,
      ground arith,
      rw made (record {
        complete = length-fill m (id % m) 0 s;
        in_range = fill-All m (id % m) 0 s some_paths;
        balanced = λ path h. load_bounds m path (id % m) s h;
      }),
    )
assign-IsPlan id (pos s) (negsuc m) plan e = ground arith
assign-IsPlan id (negsuc s) paths plan e = ground arith

-- With both counts between 1 and 256 `assign` returns a plan, and gives shard `i` the path
-- `(packet_id + i) % m`: one packet's shards go round the paths, from the path of its id on.
pub assign-rotates :
    (packet_id s m i : ℕ)
    → 0 < s
    → s ≤ max_shards
    → 0 < m
    → m ≤ max_paths
    → i < s
    → (plan : List ℕ) × (assign packet_id (pos s) (pos m) ≡ ok plan)
      × (get_elem? plan i ≡ some ((packet_id + i) % m))
unfolding assign
assign-rotates id s m i hs hs' hm hm' hi = (
  fill m (id % m) 0 s,
  ground arith,
  get_elem?-fill m (id % m) 0 s i hi ∙ ap (λ (t : ℕ). some t) rest,
)
  where
    rest : (id % m + (0 + i)) % m ≡ (id + i) % m
    rest = let z : id % m + (0 + i) ≡ id % m + i = omega arith in rw z (mod-add-mod id m i)
