-- ===== src/Fec/Bounds.antt =====
-- internal/fec/limits.go: the derived limits are safe.
use mpudp.Prelude.{
  ℕ, suc, ◌+◌, ◌*◌, ◌/◌, ◌%◌, ◌≤◌, ◌<◌, ◌≡◌, ap, ◌∙◌, inl, inr, Bool-cases, ◌==◌, ok, arith,
  Result-cases,
}
use native.Mathlib.Nat.{
  div-add-mod, mod-lt, mul-div-le, mul-le-mul_left, mul-pos, mul-suc, mul-zero,
  le_of_mul-le-mul_left, lt_of_mul-lt-mul_left,
}
use mpudp.Prelude.Int.{pos_part}
use mpudp.Fec.{
  Params, Budget, Limits, max_total_shards, max_wire_original_length, max_int, validate_params,
  check_budget, derive_limits, shard_size_for_datagram, smaller,
}

pub record IsValid (params : Params) (total : ℕ) : Type 0 where
  pub some_data : 0 < pos_part params.data_shards
  pub some_parity : 0 < pos_part params.parity_shards
  pub total_eq : total ≡ pos_part params.data_shards + pos_part params.parity_shards
  pub total_le : total ≤ max_total_shards

pub validate_params-IsValid :
    (params : Params) (total : ℕ) → validate_params params ≡ ok total → IsValid params total
unfolding validate_params
validate_params-IsValid params total e = record {
  some_data = ground arith;
  some_parity = ground arith;
  total_eq = ground arith;
  total_le = ground arith;
}

mul-add_one : (a b : ℕ) → a * (b + 1) ≡ a * b + a
mul-add_one a b = let e : b + 1 ≡ suc b = omega arith in ap (λ (t : ℕ). a * t) e ∙ mul-suc a b

-- What a caller can rely on.
pub record IsSafe (params : Params) (total : ℕ) (l : Limits) : Type 0 where
  pub room : 0 < l.shard_capacity
  pub udp_fits : l.shard_capacity + l.data_shard_wire_overhead ≡ l.max_udp_payload
  pub block_fits : total * l.shard_capacity ≤ max_int
  pub fec_limit_eq : l.fec_derived_datagram_limit ≡ pos_part params.data_shards * l.shard_capacity
  pub limit_pos : 0 < l.effective_datagram_limit
  pub limit_le : l.effective_datagram_limit ≤ l.fec_derived_datagram_limit
  pub wire_fits : l.effective_datagram_limit ≤ max_wire_original_length

pub limits-parts :
    (params : Params) (budget : Budget) (l : Limits)
    → derive_limits params budget ≡ ok l
    → (total : ℕ) × (validate_params params ≡ ok total)
      × (0 < l.shard_capacity)
      × (l.shard_capacity + l.data_shard_wire_overhead ≡ l.max_udp_payload)
      × (l.shard_capacity ≤ max_int / total)
      × (l.fec_derived_datagram_limit ≡ pos_part params.data_shards * l.shard_capacity)
      × (l.effective_datagram_limit
          ≡ smaller (l.fec_derived_datagram_limit) (pos_part budget.max_datagram_size))
      × (0 < pos_part budget.max_datagram_size)
      × (pos_part budget.max_datagram_size ≤ max_wire_original_length)
unfolding derive_limits check_budget
limits-parts params budget l e = elim (Result-cases (validate_params params)) [
  | inl (total, v) ↦ (
    total,
    v,
    ground arith,
    ground arith,
    ground arith,
    ground arith,
    ground arith,
    ground arith,
    ground arith,
  )
  | inr (x, v) ↦ ground arith
]

-- The limits that `derive_limits` accepts are safe: a shard has room, a whole block's size is an
-- `int`, and a Datagram within the effective limit fits the data shards and the wire's length field.
pub derive_limits-IsSafe :
    (params : Params) (budget : Budget) (l : Limits)
    → derive_limits params budget ≡ ok l
    → (total : ℕ) × IsValid params total × IsSafe params total l
derive_limits-IsSafe params budget l e =
    let (total, v, room, udp, cap, fec, eff, some_size, wire) = limits-parts params budget l e in
    let valid = validate_params-IsValid params total v in
    let k = pos_part params.data_shards in
    let pos : 0 < k * l.shard_capacity = mul-pos valid.some_data room in
    (
      total,
      valid,
      record {
        room = room;
        udp_fits = udp;
        block_fits = omega (arith, mul-le-mul_left total cap, mul-div-le max_int total);
        fec_limit_eq = fec;
        limit_pos = ground (arith, fec, eff, pos);
        limit_le = ground (arith, eff);
        wire_fits = ground (arith, eff);
      },
    )

pub shard_size-pos : (n k : ℕ) → 0 < k → 0 < shard_size_for_datagram n k
unfolding shard_size_for_datagram
shard_size-pos n k h =
    let d = div-add-mod n k in
    elim (Bool-cases (n / k == 0)) [
      | inl none_full ↦
          let z : k * (n / k) ≡ 0 = ap (λ (t : ℕ). k * t) (ground arith) ∙ mul-zero k in
          ground (arith, d)
      | inr full ↦ ground arith
    ]

pub shard_size-covers : (n k : ℕ) → 0 < k → n ≤ k * shard_size_for_datagram n k
unfolding shard_size_for_datagram
shard_size-covers n k h =
    let d = div-add-mod n k in
    let r = mod-lt n {m = k} h in
    let s : k * (n / k + 1) ≡ k * (n / k) + k = mul-add_one k (n / k) in ground (arith, d, r, s)

pub shard_size-least : (n k c : ℕ) → 0 < k → 0 < c → n ≤ k * c → shard_size_for_datagram n k ≤ c
unfolding shard_size_for_datagram
shard_size-least n k c h hc le =
    let d = div-add-mod n k in
    elim (Bool-cases (n % k == 0)) [
      | inl exact ↦
          let q : k * (n / k) ≤ k * c = ground (arith, d) in
          let z = le_of_mul-le-mul_left q h in ground (arith, z)
      | inr more ↦
          let q : k * (n / k) < k * c = ground (arith, d) in
          let z = lt_of_mul-lt-mul_left k q in ground (arith, z)
    ]

-- The size of a shard is positive, `k` shards of that size hold the Datagram, and any positive size
-- of which `k` shards do is no smaller.
pub shard_size_minimal :
    (n k c : ℕ)
    → 0 < k
    → 0 < c
    → n ≤ k * c
    → let size = shard_size_for_datagram n k in (0 < size) × (n ≤ k * size) × (size ≤ c)
shard_size_minimal n k c h hc le =
    (shard_size-pos n k h, shard_size-covers n k h, shard_size-least n k c h hc le)
