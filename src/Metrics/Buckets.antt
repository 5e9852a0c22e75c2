-- ===== src/Metrics/Buckets.antt =====
-- internal/metrics/metrics.go: which bucket a duration falls in, and what the buckets add up to.
use mpudp.Prelude.{
  ℕ, zero, suc, ◌+◌, ◌-◌, ◌*◌, ◌%◌, ◌^◌, ◌≤◌, ◌<◌, ◌≡◌, refl, subst, ◌∙◌, ◌⊎◌, inl, inr, List, [],
  ◌∷◌, ltb, length, get_elem?, some, get_or, length-set, total, total-set, le-total, arith,
  Bool-cases,
}
use mpudp.Prelude.Int.{ℤ, pos_part}
use mpudp.Metrics.{Latency, no_latency, bucket_count, find_bucket, observe}

-- The buckets' documented upper bounds, in nanoseconds: one microsecond, doubled each time.
abbrev pub upper_bound : ℕ → ℕ
upper_bound zero = 1000
upper_bound (suc b) = upper_bound b * 2

upper_bound-le_last : (k b : ℕ) → k + b ≡ 23 → upper_bound b ≤ upper_bound 23
upper_bound-le_last zero b h = let e : b ≡ 23 = omega arith in rw e (omega arith)
upper_bound-le_last (suc k) b h = omega (arith, upper_bound-le_last k (suc b) (omega arith))

-- A bucket from `low` on that `ns` falls in.
abbrev pub IsBucket : ℕ → ℕ → ℕ → Type 0
IsBucket low ns b =
    (low ≤ b)
    × (b ≤ 23)
    × ((b ≡ 23) ⊎ (ns ≤ upper_bound b))
    × ((b ≡ low) ⊎ (upper_bound (b - 1) < ns))

IsBucket-lower : (low ns b : ℕ) → IsBucket (suc low) ns b → upper_bound low < ns → IsBucket low ns b
IsBucket-lower low ns b (a, c, d, e) above = (
  omega arith,
  c,
  d,
  inr (elim e [
    | inl at ↦
        let here : low ≡ b - 1 = omega arith in subst (λ (i : ℕ). upper_bound i < ns) here above
    | inr after ↦ after
  ]),
)

find_bucket-IsBucket_from :
    (rounds bucket ns : ℕ)
    → rounds + bucket ≡ 23
    → IsBucket bucket ns (find_bucket rounds bucket (upper_bound bucket) ns)
unfolding find_bucket
find_bucket-IsBucket_from zero bucket ns h = (omega arith, omega arith, inl (omega arith), inl refl)
find_bucket-IsBucket_from (suc rounds) bucket ns h =
    elim (Bool-cases (ltb (upper_bound bucket) ns)) [
      | inr fits ↦ rw (fits, find_bucket) (omega arith, omega arith, inr (ground arith), inl refl)
      | inl above ↦
          let small = upper_bound-le_last rounds (suc bucket) (omega arith) in
          let e : upper_bound bucket * 2 % 2 ^ 64 ≡ upper_bound (suc bucket) =
            omega (arith, small) in
          let e' : bucket + 1 ≡ suc bucket = omega arith in
          let x = find_bucket-IsBucket_from rounds (suc bucket) ns (omega arith) in
          rw (above, find_bucket, e, e') (IsBucket-lower bucket ns _ x (ground arith))
    ]

-- A duration's bucket is one of the 24; the duration is within the bucket's bound, unless that is
-- the last bucket, and is above the bound of the bucket before it, unless that is the first.
pub find_bucket-IsBucket :
    (ns : ℕ)
    → let b = find_bucket (bucket_count - 1) 0 1000 ns in
      (b < bucket_count)
      × ((b ≡ 23) ⊎ (ns ≤ upper_bound b))
      × ((b ≡ 0) ⊎ (upper_bound (b - 1) < ns))
find_bucket-IsBucket ns =
    let (a, c, d, e) = find_bucket-IsBucket_from 23 0 ns (omega arith) in (omega arith, d, e)

-- The calls of `Observe`, one after the other.
unfoldable pub observe_all : Latency → List ℤ → Latency
observe_all l [] = l
observe_all l (d ∷ ds) = observe_all (observe l d) ds

record IsHistogram (l : Latency) (n : ℕ) : Type 0 where
  count_eq : l.count ≡ n
  all_counted : total (λ (x : ℕ). x) l.buckets ≡ n
  size : length l.buckets ≡ bucket_count

in_range : (xs : List ℕ) (i : ℕ) → i < length xs → get_elem? xs i ≡ some (get_or xs i 0)
in_range [] i h = absurd (omega arith)
in_range (x ∷ xs) zero h = refl
in_range (x ∷ xs) (suc i) h = in_range xs i (omega arith)

observe-IsHistogram :
    (l : Latency) (n : ℕ) (d : ℤ)
    → n + 1 < 2 ^ 64
    → IsHistogram l n
    → IsHistogram (observe l d) (n + 1)
unfolding observe
observe-IsHistogram l n d small x =
    let b = find_bucket (bucket_count - 1) 0 1000 (pos_part d) in
    let (lt, _, _) = find_bucket-IsBucket (pos_part d) in
    let at = in_range l.buckets b (omega (arith, x.size)) in
    let v = get_or l.buckets b 0 in
    let le = le-total (λ (y : ℕ). y) l.buckets b v at in
    let changed = total-set (λ (y : ℕ). y) l.buckets b v ((v + 1) % 2 ^ 64) at in
    record {
      count_eq = omega (arith, x.count_eq);
      all_counted = omega (arith, changed, le, x.all_counted);
      size = length-set l.buckets b _ ∙ x.size;
    }

observe_all-IsHistogram :
    (ds : List ℤ) (l : Latency) (n : ℕ)
    → n + length ds < 2 ^ 64
    → IsHistogram l n
    → IsHistogram (observe_all l ds) (n + length ds)
unfolding observe_all
observe_all-IsHistogram [] l n small x =
    let e : n ≡ n + 0 = omega arith in subst (IsHistogram l) e x
observe_all-IsHistogram (d ∷ ds) l n small x =
    let e : n + 1 + length ds ≡ n + suc (length ds) = omega arith in
    subst (IsHistogram (observe_all (observe l d) ds)) e (
      observe_all-IsHistogram ds (observe l d) (n + 1) (omega arith)
        (observe-IsHistogram l n d (omega arith) x))

-- After fewer than 2^64 observations the count is their number, and so is the sum of the buckets:
-- every duration is in just one.
pub observe_all-counts :
    (ds : List ℤ)
    → length ds < 2 ^ 64
    → let l = observe_all no_latency ds in
      (l.count ≡ length ds) × (total (λ (x : ℕ). x) l.buckets ≡ length ds)
observe_all-counts ds small =
    let x =
      observe_all-IsHistogram ds no_latency 0 (omega arith)
        (record { count_eq = refl; all_counted = refl; size = refl }) in
    let e : 0 + length ds ≡ length ds = omega arith in (x.count_eq ∙ e, x.all_counted ∙ e)
