-- ===== src/FecV2/Packing/Consumed.antt =====
-- internal/fecv2/packing.go: the cursor tells what the group has taken of the input.
use mpudp.Prelude.{
  ℕ, zero, suc, ◌+◌, ◌-◌, ◌≤◌, ◌<◌, ◌≡◌, ◌≢◌, refl, sym, ap, ◌∙◌, subst, List, [], ◌∷◌, ◌++◌,
  append_assoc, true, false, ◌==◌, ltb, if◌then◌else◌, Bool-cases, ◌⊎◌, inl, inr, arith, length,
  length-drop, take, drop, take-append-drop, Option, Result-cases, ok, total,
}
use mpudp.Fec.Split.{take_all}
use mpudp.FecV2.{
  Parameters, Fragment, payloads, descriptor_bytes, manifest_bytes, validate_fragment,
  max_descriptors_limit,
}
use mpudp.FecV2.Packing.{
  Cursor, is_full, taken, prefix, plan, planned, validate_fragments, encode_prefix,
}
use mpudp.FecV2.Codec.{Group, encode}

-- The first `n` fragments and `b` bytes of the next one.
abbrev pub consumed : ℕ → ℕ → List Fragment → List Fragment
consumed n b [] = []
consumed zero b (f ∷ fs) = if b == 0 then [] else prefix f b ∷ []
consumed (suc n) b (f ∷ fs) = f ∷ consumed n b fs

-- What the caller keeps, as the comment on `Cursor` says.
abbrev pub advance : Fragment → ℕ → Fragment
advance f n = record f { offset = f.offset + n; payload = drop n f.payload }

abbrev pub unconsumed : ℕ → ℕ → List Fragment → List Fragment
unconsumed n b [] = []
unconsumed zero b (f ∷ fs) = advance f b ∷ fs
unconsumed (suc n) b (f ∷ fs) = unconsumed n b fs

module _ (p : Parameters) (count used i : ℕ) (cursor : Cursor) (f : Fragment)
    (fs : List Fragment) where
  abbrev pub later : List Fragment × Cursor
  later =
      plan p (count + 1) (used + descriptor_bytes + taken p used f) (i + 1)
        (record { next = i + 1; bytes = 0 }) fs

  pub plan_full : is_full p count used f ≡ true → plan p count used i cursor (f ∷ fs) ≡ ([], cursor)
  unfolding plan
  plan_full h = rw h

  pub plan_part :
      is_full p count used f ≡ false
      → ltb (taken p used f) (length f.payload) ≡ true
      → plan p count used i cursor (f ∷ fs)
        ≡ (prefix f (taken p used f) ∷ [], record { next = i; bytes = taken p used f })
  unfolding plan
  plan_part h k = rw (h, k)

  pub plan_whole :
      is_full p count used f ≡ false
      → ltb (taken p used f) (length f.payload) ≡ false
      → plan p count used i cursor (f ∷ fs) ≡ (f ∷ later.0, later.1)
  unfolding plan
  plan_whole h k =
      let same : prefix f (taken p used f) ≡ f =
        λ j. record f { payload = take_all f.payload (taken p used f) (ground arith) j } in
      rw (h, k) (ap (λ (g : Fragment). (g ∷ later.0, later.1)) same)

  pub taken_pos :
      is_full p count used f ≡ false
      → ltb (taken p used f) (length f.payload) ≡ true
      → 0 < taken p used f
  unfolding is_full
  taken_pos h k = ground arith

-- The cursor is not past the payload that it is in.
abbrev pub IsInside : ℕ → ℕ → List Fragment → Type 0
IsInside n b [] = b ≡ 0
IsInside zero b (f ∷ fs) = (b ≡ 0) ⊎ (b < length f.payload)
IsInside (suc n) b (f ∷ fs) = IsInside n b fs

-- What is planned is what the cursor says, and the cursor stays within the input.
pub record IsConsumed (i : ℕ) (fs : List Fragment) (result : List Fragment × Cursor) : Type 0 where
  pub from : i ≤ result.1.next
  pub within : result.1.next ≤ i + length fs
  pub exact : result.0 ≡ consumed (result.1.next - i) result.1.bytes fs
  pub inside : IsInside (result.1.next - i) result.1.bytes fs

consumed_none : (fs : List Fragment) → consumed 0 0 fs ≡ []
consumed_none [] = refl
consumed_none (f ∷ fs) = refl

pub plan-IsConsumed :
    (p : Parameters) (count used i : ℕ) (fs : List Fragment)
    → IsConsumed i fs (plan p count used i (record { next = i; bytes = 0 }) fs)
plan-IsConsumed p count used i [] =
    unfold plan in
    (record { from = omega arith; within = omega arith; exact = refl; inside = refl })
plan-IsConsumed p count used i (f ∷ fs) =
    let none_yet : i - i ≡ 0 = omega arith in
    elim (Bool-cases (is_full p count used f)) [
      | inl h ↦ rw (plan_full p count used i (record { next = i; bytes = 0 }) f fs h) (record {
        from = omega arith;
        within = omega arith;
        exact = rw none_yet;
        inside = rw none_yet (inl refl);
      })
      | inr h ↦ elim (Bool-cases (ltb (taken p used f) (length f.payload))) [
        | inl k ↦
            let z = taken_pos p count used i (record { next = i; bytes = 0 }) f fs h k in
            rw (plan_part p count used i (record { next = i; bytes = 0 }) f fs h k) (record {
              from = omega arith;
              within = omega arith;
              exact = rw none_yet (ground (arith, z));
              inside = rw none_yet (inr (ground arith));
            })
        | inr k ↦
            let r = later p count used i (record { next = i; bytes = 0 }) f fs in
            let x =
              plan-IsConsumed p (count + 1) (used + descriptor_bytes + taken p used f) (i + 1) fs in
            let step : r.1.next - i ≡ suc (r.1.next - (i + 1)) = omega (arith, x.from) in
            rw (plan_whole p count used i (record { next = i; bytes = 0 }) f fs h k) (record {
              from = omega (arith, x.from);
              within = omega (arith, x.within);
              exact = rw step (ap (λ (l : List Fragment). f ∷ l) x.exact);
              inside = rw step x.inside;
            })
      ]
    ]

pub consumed-unconsumed :
    (n b : ℕ) (fs : List Fragment)
    → payloads (consumed n b fs) ++ payloads (unconsumed n b fs) ≡ payloads fs
unfolding payloads
consumed-unconsumed n b [] = refl
consumed-unconsumed zero b (f ∷ fs) = elim (Bool-cases (b == 0)) [
  | inl z ↦ let e : b ≡ 0 = ground arith in rw (z, e)
  | inr z ↦ rw z (
      append_assoc (take b f.payload) [] (drop b f.payload ++ payloads fs)
      ∙ sym (append_assoc (take b f.payload) (drop b f.payload) (payloads fs))
      ∙ ap (λ (l : List ℕ). l ++ payloads fs) (take-append-drop b f.payload))
]
consumed-unconsumed (suc n) b (f ∷ fs) =
    append_assoc f.payload (payloads (consumed n b fs)) (payloads (unconsumed n b fs))
    ∙ ap (λ (l : List ℕ). f.payload ++ l) (consumed-unconsumed n b fs)

abbrev pub weight : Fragment → ℕ
weight f = length f.payload + 1

unconsumed-le : (n b : ℕ) (fs : List Fragment) → total weight (unconsumed n b fs) ≤ total weight fs
unconsumed-le n b [] = omega arith
unconsumed-le zero b (f ∷ fs) = omega (arith, length-drop b f.payload)
unconsumed-le (suc n) b (f ∷ fs) = omega (arith, unconsumed-le n b fs)

pub unconsumed-lt :
    (n b : ℕ) (fs : List Fragment)
    → IsInside n b fs
    → consumed n b fs ≢ []
    → total weight (unconsumed n b fs) < total weight fs
unconsumed-lt n b [] x h = absurd (h refl)
unconsumed-lt zero b (f ∷ fs) x h = elim (Bool-cases (b == 0)) [
  | inl z ↦ absurd (h (rw z))
  | inr z ↦ ground (arith, length-drop b f.payload)
]
unconsumed-lt (suc n) b (f ∷ fs) x h = omega (arith, unconsumed-le n b fs)

validate_fragment-advance :
    (p : Parameters) (f : Fragment) (previous b : ℕ)
    → validate_fragment p f previous ≡ ok tt
    → (b ≡ 0) ⊎ (b < length f.payload)
    → (low : ℕ) → low ≤ previous
    → validate_fragment p (advance f b) low ≡ ok tt
unfolding validate_fragment
validate_fragment-advance p f previous b h x low le = ground (arith, length-drop b f.payload)

pub validate_fragments-parts :
    (p : Parameters) (f : Fragment) (fs : List Fragment) (previous : ℕ)
    → validate_fragments p previous (f ∷ fs) ≡ ok tt
    → (validate_fragment p f previous ≡ ok tt) × (validate_fragments p f.datagram_id fs ≡ ok tt)
unfolding validate_fragments
validate_fragments-parts p f fs previous h = elim (Result-cases (validate_fragment p f previous)) [
  | inl (tt, e) ↦ (e, rw e at h)
  | inr (c, e) ↦ ground (arith, e)
]

validate_fragment_lt :
    (p : Parameters) (f : Fragment) (previous : ℕ)
    → validate_fragment p f previous ≡ ok tt
    → previous < f.datagram_id
unfolding validate_fragment
validate_fragment_lt p f previous h = ground arith

-- The rest of accepted fragments is accepted.
validate_fragments-unconsumed :
    (p : Parameters) (previous n b : ℕ) (fs : List Fragment)
    → IsInside n b fs
    → validate_fragments p previous fs ≡ ok tt
    → (low : ℕ) → low ≤ previous
    → validate_fragments p low (unconsumed n b fs) ≡ ok tt
unfolding validate_fragments
validate_fragments-unconsumed p previous n b [] x h low le = refl
validate_fragments-unconsumed p previous zero b (f ∷ fs) x h low le =
    let (v, more) = validate_fragments-parts p f fs previous h in
    rw (validate_fragment-advance p f previous b v x low le) more
validate_fragments-unconsumed p previous (suc n) b (f ∷ fs) x h low le =
    let (v, more) = validate_fragments-parts p f fs previous h in
    let lt = validate_fragment_lt p f previous v in
    validate_fragments-unconsumed p f.datagram_id n b fs x more low (omega arith)

module _ (codec : List (List ℕ) → Option (List (List ℕ))) where
  pub encode_prefix-parts :
      (p : Parameters) (input : List Fragment) (g : Group) (c : Cursor)
      → encode_prefix codec p input ≡ ok (g, c)
      → (1 ≤ length input)
        × (length input ≤ max_descriptors_limit)
        × (validate_fragments p 0 input ≡ ok tt)
        × (1 ≤ length (planned p input).0)
        × (encode codec p (planned p input).0 ≡ ok g)
        × (c ≡ (planned p input).1)
  unfolding encode_prefix
  encode_prefix-parts p input g c h =
      (ground arith, ground arith, ground arith, ground arith, ground arith, ground arith)

  -- Where `EncodePrefix` succeeds, the group encodes just what the cursor says: the fragments before `next`, and
  -- `bytes` bytes of the next one. The payloads of the group and of what is left make up the input's; what is left has
  -- fewer bytes and fragments together, and passes the validation again.
  pub encode_prefix-progress :
      (p : Parameters) (input : List Fragment) (g : Group) (c : Cursor)
      → encode_prefix codec p input ≡ ok (g, c)
      → (let left = unconsumed c.next c.bytes input in
          (encode codec p (consumed c.next c.bytes input) ≡ ok g)
          × (payloads (consumed c.next c.bytes input) ++ payloads left ≡ payloads input)
          × (total weight left < total weight input)
          × (validate_fragments p 0 left ≡ ok tt)
          × (c.next ≤ length input))
  encode_prefix-progress p input g c h =
      let (lo, hi, v, some_planned, coded, same) = encode_prefix-parts p input g c h in
      let x = plan-IsConsumed p 0 manifest_bytes 0 input in
      let end = (planned p input).1 in
      let e : end.next - 0 ≡ end.next = omega arith in
      let exact : (planned p input).0 ≡ consumed end.next end.bytes input =
        x.exact ∙ ap (λ (n : ℕ). consumed n end.bytes input) e in
      let inside : IsInside end.next end.bytes input =
        subst (λ (n : ℕ). IsInside n end.bytes input) e x.inside in
      let made : consumed end.next end.bytes input ≢ [] =
        λ none_made. omega (arith, ap length exact, ap length none_made) in
      rw same (
        ap (encode codec p) (sym exact) ∙ coded,
        consumed-unconsumed end.next end.bytes input,
        unconsumed-lt end.next end.bytes input inside made,
        validate_fragments-unconsumed p 0 end.next end.bytes input inside v 0 (omega arith),
        omega (arith, x.within),
      )
