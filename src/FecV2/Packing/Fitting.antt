-- ===== src/FecV2/Packing/Fitting.antt =====
-- internal/fecv2/packing.go: the packed fragments fit the parameters, and the group is as full as it can be.
use mpudp.Prelude.{
  ℕ, suc, ◌+◌, ◌-◌, ◌*◌, ◌≤◌, ◌≡◌, ◌≢◌, refl, ap, ◌∙◌, List, [], ◌∷◌, true, false, ◌==◌, ltb,
  if◌then◌else◌, Bool-cases, ◌⊎◌, inl, inr, arith, length, length-take, Option, ok, err, ◌>>=◌,
  total,
}
use mpudp.FecV2.{
  Parameters, Fragment, descriptor_bytes, manifest_bytes, validate, validate_fragment, size_from,
  logical_size, max_descriptors_limit, no_payload_capacity,
}
use mpudp.FecV2.Codec.{encode}
use mpudp.FecV2.Packing.{
  Cursor, is_full, taken, prefix, plan, start, planned, validate_fragments, encode_prefix,
}
use mpudp.FecV2.Packing.Consumed.{later, plan_full, plan_part, plan_whole, validate_fragments-parts}

abbrev pub bytes_of : List Fragment → ℕ
bytes_of fs = total (λ f. length f.payload) fs

room_for :
    (p : Parameters) (count used : ℕ) (f : Fragment)
    → is_full p count used f ≡ false
    → (count ≢ p.max_descriptors)
      × (used + descriptor_bytes + taken p used f ≤ p.max_logical_bytes)
      × ((length f.payload ≡ 0) ⊎ (1 ≤ taken p used f))
      × (taken p used f ≤ length f.payload)
unfolding is_full
room_for p count used f h = (ground arith, ground arith, ground arith, omega arith)

no_room :
    (p : Parameters) (count used : ℕ) (f : Fragment)
    → is_full p count used f ≡ true
    → (count ≡ p.max_descriptors) ⊎ (p.max_logical_bytes ≤ used + descriptor_bytes)
unfolding is_full
no_room p count used f h = ground arith

validate_fragment-prefix :
    (p : Parameters) (f : Fragment) (previous n : ℕ)
    → (length f.payload ≡ 0) ⊎ (1 ≤ n)
    → validate_fragment p f previous ≡ ok tt
    → validate_fragment p (prefix f n) previous ≡ ok tt
unfolding validate_fragment
validate_fragment-prefix p f previous n x h = ground (arith, length-take n f.payload)

pub validate_fragments-cons :
    (p : Parameters) (f : Fragment) (fs : List Fragment) (previous : ℕ)
    → validate_fragment p f previous ≡ ok tt
    → validate_fragments p f.datagram_id fs ≡ ok tt
    → validate_fragments p previous (f ∷ fs) ≡ ok tt
unfolding validate_fragments
validate_fragments-cons p f fs previous v more = rw v more

abbrev at : ℕ → Cursor
at i = record { next = i; bytes = 0 }

-- What the second loop plans from `count` and `used` on.
record Fits (p : Parameters) (previous count used i : ℕ) (fs : List Fragment)
    (result : List Fragment × Cursor) : Type 0 where
  pub counted : count + length result.0 ≤ p.max_descriptors
  pub sized : used + descriptor_bytes * length result.0 + bytes_of result.0 ≤ p.max_logical_bytes
  pub accepted : validate_fragments p previous result.0 ≡ ok tt
  pub filled :
      (result.1 ≡ at (i + length fs))
      ⊎ ((count + length result.0 ≡ p.max_descriptors)
          ⊎ (p.max_logical_bytes
              ≤ used + descriptor_bytes * length result.0 + bytes_of result.0 + descriptor_bytes))

plan-Fits :
    (p : Parameters) (previous count used i : ℕ) (fs : List Fragment)
    → count ≤ p.max_descriptors
    → used ≤ p.max_logical_bytes
    → validate_fragments p previous fs ≡ ok tt
    → Fits p previous count used i fs (plan p count used i (at i) fs)
plan-Fits p previous count used i [] c u v =
    unfold plan validate_fragments in
    (record {
      counted = omega arith;
      sized = omega arith;
      accepted = refl;
      filled = inl (ap at (omega arith));
    })
plan-Fits p previous count used i (f ∷ fs) c u v =
    let cursor = at i in
    let (v1, more) = validate_fragments-parts p f fs previous v in
    elim (Bool-cases (is_full p count used f)) [
      | inl h ↦ rw (plan_full p count used i cursor f fs h) (
          unfold validate_fragments in
          (record {
            counted = omega arith;
            sized = omega arith;
            accepted = refl;
            filled = inr (ground (arith, no_room p count used f h));
          }))
      | inr h ↦
          let (n, fits, pos, le) = room_for p count used f h in
          let k = taken p used f in
          let l = length-take k f.payload in
          let v2 = validate_fragment-prefix p f previous k pos v1 in
          elim (Bool-cases (ltb k (length f.payload))) [
            | inl part ↦ rw (plan_part p count used i cursor f fs h part) (record {
              counted = omega arith;
              sized = omega (arith, l);
              accepted =
                  validate_fragments-cons p (prefix f k) [] previous v2
                    (unfold validate_fragments in refl);
              filled = inr (inr (ground (arith, l)));
            })
            | inr whole ↦
                let x =
                  plan-Fits p f.datagram_id (count + 1) (used + descriptor_bytes + k) (i + 1) fs
                    (omega arith) fits more in
                let len : k ≡ length f.payload = ground (arith, le) in
                rw (plan_whole p count used i cursor f fs h whole) (record {
                  counted = omega (arith, x.counted);
                  sized = omega (arith, x.sized, len);
                  accepted =
                      validate_fragments-cons p f
                        (plan p (count + 1) (used + descriptor_bytes + k) (i + 1) (at (i + 1)) fs).0
                        previous v1 x.accepted;
                  filled = elim x.filled [
                    | inl e ↦ inl (e ∙ ap at (omega arith))
                    | inr (inl e) ↦ inr (inl (omega (arith, e)))
                    | inr (inr e) ↦ inr (inr (omega (arith, e, len)))
                  ];
                })
          ]
    ]

-- Accepted fragments that fit are accepted by `logicalSize`'s loop.
size_from-fits :
    (p : Parameters) (fs : List Fragment) (previous size : ℕ)
    → validate_fragments p previous fs ≡ ok tt
    → size + bytes_of fs ≤ p.max_logical_bytes
    → size_from p previous size fs ≡ ok (size + bytes_of fs)
unfolding size_from
size_from-fits p [] previous size v h = ap ok (omega arith)
size_from-fits p (f ∷ fs) previous size v h =
    let (v1, more) = validate_fragments-parts p f fs previous v in
    let ih = size_from-fits p fs f.datagram_id (size + length f.payload) more (omega arith) in
    let sum : size + length f.payload + bytes_of fs ≡ size + bytes_of (f ∷ fs) = omega arith in
    let room : ltb (p.max_logical_bytes - size) (length f.payload) ≡ false = ground arith in
    rw (v1, room) (ih ∙ ap ok sum)

validate-room :
    (p : Parameters)
    → validate p ≡ ok tt
    → (manifest_bytes + descriptor_bytes ≤ p.max_logical_bytes) × (1 ≤ p.max_descriptors)
unfolding validate
validate-room p h = (ground arith, ground arith)

logical_size-planned :
    (p : Parameters) (fs : List Fragment) (n : ℕ)
    → Fits p 0 0 manifest_bytes 0 fs (planned p fs)
    → length (planned p fs).0 ≡ suc n
    → logical_size p (planned p fs).0
      ≡ ok (manifest_bytes + descriptor_bytes * length (planned p fs).0 + bytes_of (planned p fs).0)
unfolding logical_size
logical_size-planned p fs n x some_planned =
    let end =
      size_from-fits p (planned p fs).0 0
        (manifest_bytes + descriptor_bytes * length (planned p fs).0) x.accepted x.sized in
    let low = x.counted in let high = x.sized in ground (arith, end)

first_full :
    (p : Parameters) (f : Fragment)
    → is_full p 0 manifest_bytes f ≡ true
    → 1 ≤ p.max_descriptors
    → manifest_bytes + descriptor_bytes ≤ p.max_logical_bytes
    → (p.max_logical_bytes ≡ manifest_bytes + descriptor_bytes) × (1 ≤ length f.payload)
unfolding is_full
first_full p f h one room = (ground arith, ground arith)

planned_some :
    (p : Parameters) (f : Fragment) (fs : List Fragment)
    → is_full p 0 manifest_bytes f ≡ false
    → (n : ℕ) × (length (planned p (f ∷ fs)).0 ≡ suc n)
planned_some p f fs h = elim (Bool-cases (ltb (taken p manifest_bytes f) (length f.payload))) [
  | inl k ↦ (
    0,
    ap (λ (r : List Fragment × Cursor). length r.0) (plan_part p 0 manifest_bytes 0 start f fs h k),
  )
  | inr k ↦ (
    length (later p 0 manifest_bytes 0 start f fs).0,
    ap (λ (r : List Fragment × Cursor). length r.0)
        (plan_whole p 0 manifest_bytes 0 start f fs h k),
  )
]

module _ (codec : List (List ℕ) → Option (List (List ℕ))) where
  encode_prefix-computes :
      (p : Parameters) (f : Fragment) (fs : List Fragment)
      → length (f ∷ fs) ≤ max_descriptors_limit
      → validate_fragments p 0 (f ∷ fs) ≡ ok tt
      → encode_prefix codec p (f ∷ fs) ≡ (
          if length (planned p (f ∷ fs)).0 == 0
          then err no_payload_capacity
          else (encode codec p (planned p (f ∷ fs)).0 >>= λ g. ok (g, (planned p (f ∷ fs)).1)))
  unfolding encode_prefix
  encode_prefix-computes p f fs few v = ground (arith, v)

  -- Under parameters that `New` accepts, `EncodePrefix` refuses between one and 256 valid fragments only where the
  -- logical bytes hold one descriptor with nothing behind it and the first fragment has payload. Otherwise
  -- it encodes fragments that `logicalSize` accepts, and stops before the end of the input only with all descriptors used or
  -- with no more than a descriptor's bytes left.
  pub encode_prefix-outcome :
      (p : Parameters) (f : Fragment) (fs : List Fragment)
      → validate p ≡ ok tt
      → length (f ∷ fs) ≤ max_descriptors_limit
      → validate_fragments p 0 (f ∷ fs) ≡ ok tt
      → (let result = encode_prefix codec p (f ∷ fs) in
          let (fragments, cursor) = planned p (f ∷ fs) in
          ((p.max_logical_bytes ≡ manifest_bytes + descriptor_bytes)
            × (1 ≤ length f.payload)
            × (result ≡ err no_payload_capacity))
          ⊎ ((size : ℕ) × (logical_size p fragments ≡ ok size)
              × ((cursor ≡ record { next = length (f ∷ fs); bytes = 0 })
                  ⊎ ((length fragments ≡ p.max_descriptors)
                      ⊎ (p.max_logical_bytes ≤ size + descriptor_bytes)))
              × (result ≡ (encode codec p fragments >>= λ g. ok (g, cursor)))))
  encode_prefix-outcome p f fs valid few v =
      let (room, one) = validate-room p valid in
      let x = plan-Fits p 0 0 manifest_bytes 0 (f ∷ fs) (omega arith) (omega arith) v in
      let e = encode_prefix-computes p f fs few v in
      elim (Bool-cases (is_full p 0 manifest_bytes f)) [
        | inl h ↦
            let (full, pay) = first_full p f h one room in
            let nothing =
              ap (λ (r : List Fragment × Cursor). r.0)
                (plan_full p 0 manifest_bytes 0 (at 0) f fs h) in
            inl (full, pay, rw nothing at e)
        | inr h ↦
            let (n, some_planned) = planned_some p f fs h in
            let size =
              manifest_bytes
              + descriptor_bytes * length (planned p (f ∷ fs)).0
              + bytes_of (planned p (f ∷ fs)).0 in
            let positive : (length (planned p (f ∷ fs)).0 == 0) ≡ false =
              rw some_planned (ground arith) in
            inr (
              size,
              logical_size-planned p (f ∷ fs) n x some_planned,
              elim x.filled [
                | inl a ↦ inl (a ∙ ap at (omega arith))
                | inr (inl a) ↦ inr (inl (omega (arith, a)))
                | inr (inr a) ↦ inr (inr a)
              ],
              rw positive at e,
            )
      ]
