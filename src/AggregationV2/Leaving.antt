-- ===== src/AggregationV2/Leaving.antt =====
-- internal/aggregationv2/queue.go: the entries that a planned group leaves in the queue.
use mpudp.Prelude.{
  ℕ, zero, suc, ◌+◌, ◌-◌, ◌*◌, ◌/◌, ◌≤◌, ◌<◌, ◌≡◌, ◌≢◌, refl, sym, ap, ◌∙◌, List, [], ◌∷◌, map,
  false, ◌||◌, ◌==◌, ltb, if◌then◌else◌, Bool-cases, arith, length, length-drop, ◌⊎◌, inl, inr, ok,
}
use native.Mathlib.Nat.{add-mul-div_right}
use mpudp.FecV2.{Parameters, Fragment, validate_fragment, manifest_bytes, descriptor_bytes}
use mpudp.FecV2.Writing.{drop-add}
use mpudp.FecV2.Packing.{validate_fragments}
use mpudp.FecV2.Packing.Consumed.{advance, unconsumed}
use mpudp.FecV2.Packing.Consumed
use mpudp.FecV2.Packing.Fitting.{validate_fragments-cons}
use mpudp.AggregationV2.{
  Limits, Entry, Plan, remaining, fresh_capacity, fragment_count, has_no_room, consumed,
  would_split_too_often, fragment_of, plan_from,
}
use mpudp.AggregationV2.Planning.{
  IsSound, IsOrdered, from_here, rest_of_plan, plan_from_stop, plan_from_part, plan_from_whole,
  or_false,
}

-- An entry that a group has taken `n` more bytes of.
abbrev pub advanced : Entry → ℕ → Entry
advanced e n = if n == 0 then e else record e { offset = e.offset + n; fragments = e.fragments + 1 }

-- The entries behind a cursor.
abbrev pub left : ℕ → ℕ → List Entry → List Entry
left n b [] = []
left zero b (e ∷ es) = advanced e b ∷ es
left (suc n) b (e ∷ es) = left n b es

fragment_count-next : (r c : ℕ) → 1 ≤ c → c < r → fragment_count r c ≡ 1 + fragment_count (r - c) c
fragment_count-next r c pos lt =
    let e : r - 1 ≡ r - c - 1 + 1 * c = omega arith in
    let d : (r - 1) / c ≡ (r - c - 1) / c + 1 =
      ap (λ (n : ℕ). n / c) e ∙ add-mul-div_right (r - c - 1) 1 (omega arith) in
    ground (arith, d)

no_room-parts :
    (p : Parameters) (count used : ℕ) (e : Entry)
    → has_no_room p count used e ≡ false
    → (count ≢ p.max_descriptors) × ((remaining e ≡ 0) ⊎ (1 ≤ consumed p used e))
unfolding has_no_room
no_room-parts p count used e h = (ground arith, ground arith)

advanced-IsSound :
    (p : Parameters) (l : Limits) (used : ℕ) (e : Entry)
    → IsSound p l e
    → would_split_too_often p l.max_fragments used e ≡ false
    → consumed p used e < remaining e
    → 1 ≤ consumed p used e
    → IsSound p l (advanced e (consumed p used e))
unfolding would_split_too_often
advanced-IsSound p l used e s h lt pos =
    let n = consumed p used e in
    let step : (n == 0) ≡ false = ground arith in
    let left_over : length e.payload - (e.offset + n) ≡ remaining e - n = omega arith in
    rw step (record {
      small = s.small;
      unfinished = inl (omega arith);
      splits = rw left_over (ground arith);
      fits = s.fits;
    })

advanced_id : (e : Entry) (n : ℕ) → (advanced e n).id ≡ e.id
advanced_id e n = elim (Bool-cases (n == 0)) [ inl h ↦ rw h | inr h ↦ rw h ]

pub IsOrdered-lower :
    (p : Parameters) (l : Limits) (low low' : ℕ) (es : List Entry)
    → low' ≤ low
    → IsOrdered p l low es
    → IsOrdered p l low' es
IsOrdered-lower p l low low' [] h o = tt
IsOrdered-lower p l low low' (e ∷ es) h o = (omega arith, o.1, o.2)

-- What the planned cursor says of the entries.
pub record IsLeft (p : Parameters) (l : Limits) (low i : ℕ) (es : List Entry) (pl : Plan)
    : Type 0 where
  pub from : i ≤ pl.cursor.next
  pub within : pl.cursor.next ≤ i + length es
  pub inside : (pl.cursor.next ≡ i + length es) → pl.cursor.bytes ≡ 0
  pub in_payload : Consumed.IsInside (pl.cursor.next - i) pl.cursor.bytes (map fragment_of es)
  pub ordered : IsOrdered p l low (left (pl.cursor.next - i) pl.cursor.bytes es)
  pub same :
      Consumed.consumed (pl.cursor.next - i) pl.cursor.bytes pl.fragments
      ≡ Consumed.consumed (pl.cursor.next - i) pl.cursor.bytes (map fragment_of es)

pub plan_from-IsLeft :
    (p : Parameters) (l : Limits) (low count used i : ℕ) (es : List Entry)
    → IsOrdered p l low es
    → IsLeft p l low i es (plan_from p l.max_fragments count used i (from_here i) es)
plan_from-IsLeft p l low count used i [] o =
    unfold plan_from in
    (record {
      from = omega arith;
      within = omega arith;
      inside = λ _. refl;
      in_payload = refl;
      ordered = tt;
      same = refl;
    })
plan_from-IsLeft p l low count used i (e ∷ es) o =
    let m = l.max_fragments in
    let c = from_here i in
    let none_yet : i - i ≡ 0 = omega arith in
    elim (Bool-cases (has_no_room p count used e || would_split_too_often p m used e)) [
      | inl h ↦ rw (plan_from_stop p m count used i c e es h) (record {
        from = omega arith;
        within = omega arith;
        inside = λ _. refl;
        in_payload = rw none_yet (inl refl);
        ordered = rw none_yet o;
        same = rw none_yet;
      })
      | inr h ↦
          let (room, whole) = or_false _ _ h in
          let (n, pos) = no_room-parts p count used e room in
          elim (Bool-cases (ltb (consumed p used e) (remaining e))) [
            | inl k ↦
                let lt : consumed p used e < remaining e = ground arith in
                let positive : 1 ≤ consumed p used e = omega arith in
                let same_id = advanced_id e (consumed p used e) in
                let next_sound = advanced-IsSound p l used e o.1 whole lt positive in
                rw (plan_from_part p m count used i c e es h k) (record {
                  from = omega arith;
                  within = omega arith;
                  inside = λ eq. absurd (omega arith);
                  in_payload = rw none_yet (inr (omega (arith, length-drop e.offset e.payload)));
                  ordered = rw none_yet (rw same_id o.0, next_sound, rw same_id o.2);
                  same = rw none_yet;
                })
            | inr k ↦
                let r = rest_of_plan p m count used i c e es in
                let x =
                  plan_from-IsLeft p l e.id (count + 1)
                    (used + descriptor_bytes + consumed p used e) (i + 1) es o.2 in
                let step : r.cursor.next - i ≡ suc (r.cursor.next - (i + 1)) =
                  omega (arith, x.from) in
                rw (plan_from_whole p m count used i c e es h k) (record {
                  from = omega (arith, x.from);
                  within = omega (arith, x.within);
                  inside = λ eq. x.inside (omega arith);
                  in_payload = rw step x.in_payload;
                  ordered = rw step (
                      IsOrdered-lower p l e.id low
                        (left (r.cursor.next - (i + 1)) r.cursor.bytes es) (omega (arith, o.0))
                        x.ordered);
                  same = rw step (ap (λ (fs : List Fragment). fragment_of e ∷ fs) x.same);
                })
          ]
    ]

-- The queue advances an entry as the comment on `Cursor` asks.
pub unconsumed-fragments :
    (n b : ℕ) (es : List Entry)
    → unconsumed n b (map fragment_of es) ≡ map fragment_of (left n b es)
unconsumed-fragments n b [] = refl
unconsumed-fragments zero b (e ∷ es) =
    let first : advance (fragment_of e) b ≡ fragment_of (advanced e b) =
      elim (Bool-cases (b == 0)) [
        | inl z ↦
            let none_taken : b ≡ 0 = ground arith in
            let same : e.offset + 0 ≡ e.offset = omega arith in
            rw (z, none_taken) (λ j. record (fragment_of e) { offset = same j })
        | inr z ↦ rw z (λ j. record (fragment_of e) {
          offset = e.offset + b;
          payload = sym (drop-add e.offset b e.payload) j;
        })
      ] in
    ap (λ (f : Fragment). f ∷ map fragment_of es) first
unconsumed-fragments (suc n) b (e ∷ es) = unconsumed-fragments n b es

validate-fragment_of :
    (p : Parameters) (l : Limits) (e : Entry) (low : ℕ)
    → l.max_datagram_bytes ≤ p.max_datagram_bytes
    → low < e.id
    → IsSound p l e
    → validate_fragment p (fragment_of e) low ≡ ok tt
unfolding validate_fragment
validate-fragment_of p l e low h lt s =
    let a = s.small in let b = s.unfinished in ground (arith, length-drop e.offset e.payload)

-- The planned fragments pass `EncodePrefix`'s validation and leave the descriptors' limit alone.
pub plan_from-valid :
    (p : Parameters) (l : Limits) (low count used i : ℕ) (es : List Entry)
    → l.max_datagram_bytes ≤ p.max_datagram_bytes
    → count ≤ p.max_descriptors
    → IsOrdered p l low es
    → (let fs = (plan_from p l.max_fragments count used i (from_here i) es).fragments in
        (validate_fragments p low fs ≡ ok tt) × (count + length fs ≤ p.max_descriptors))
plan_from-valid p l low count used i [] h c o =
    unfold plan_from validate_fragments in (refl, omega arith)
plan_from-valid p l low count used i (e ∷ es) h c o =
    let m = l.max_fragments in
    let here = from_here i in
    let v = validate-fragment_of p l e low h o.0 o.1 in
    elim (Bool-cases (has_no_room p count used e || would_split_too_often p m used e)) [
      | inl stop ↦
          rw (plan_from_stop p m count used i here e es stop)
            (unfold validate_fragments in refl, omega arith)
      | inr go ↦
          let (n, pos) = no_room-parts p count used e (or_false _ _ go).0 in
          elim (Bool-cases (ltb (consumed p used e) (remaining e))) [
            | inl k ↦ rw (plan_from_part p m count used i here e es go k) (
              validate_fragments-cons p (fragment_of e) [] low v
                  (unfold validate_fragments in refl),
              omega arith,
            )
            | inr k ↦
                let r = rest_of_plan p m count used i here e es in
                let (w, few) =
                  plan_from-valid p l e.id (count + 1) (used + descriptor_bytes + consumed p used e)
                    (i + 1) es h (omega arith) o.2 in
                rw (plan_from_whole p m count used i here e es go k) (
                  validate_fragments-cons p (fragment_of e) r.fragments low v w,
                  omega (arith, few),
                )
          ]
    ]

fresh-splits :
    (p : Parameters) (l : Limits) (e : Entry)
    → IsSound p l e
    → 1 ≤ p.max_descriptors
    → manifest_bytes + descriptor_bytes ≤ p.max_logical_bytes
    → (has_no_room p 0 manifest_bytes e || would_split_too_often p l.max_fragments manifest_bytes e)
      ≡ false
unfolding has_no_room would_split_too_often
fresh-splits p l e s one room =
    let r = remaining e in
    let c = fresh_capacity p in
    let a = s.splits in
    let f = s.fits in
    elim (Bool-cases (ltb c r)) [
      | inl lt ↦ let n = fragment_count-next r c (ground arith) (ground arith) in ground (arith, n)
      | inr ge ↦ ground arith
    ]

-- The first entry is planned: an admitted Datagram makes progress.
pub plan_from-starts :
    (p : Parameters) (l : Limits) (low : ℕ) (e : Entry) (es : List Entry)
    → IsOrdered p l low (e ∷ es)
    → 1 ≤ p.max_descriptors
    → manifest_bytes + descriptor_bytes ≤ p.max_logical_bytes
    → (fs : List Fragment) × ((plan_from p l.max_fragments 0 manifest_bytes 0
          (from_here 0)
          (e ∷ es)).fragments
        ≡ fragment_of e ∷ fs)
plan_from-starts p l low e es o one room =
    let go = fresh-splits p l e o.1 one room in
    let m = l.max_fragments in
    elim (Bool-cases (ltb (consumed p manifest_bytes e) (remaining e))) [
      | inl k ↦ (
        [],
        ap (λ (r : Plan). r.fragments)
            (plan_from_part p m 0 manifest_bytes 0 (from_here 0) e es go k),
      )
      | inr k ↦ (
        (rest_of_plan p m 0 manifest_bytes 0 (from_here 0) e es).fragments,
        ap (λ (r : Plan). r.fragments)
            (plan_from_whole p m 0 manifest_bytes 0 (from_here 0) e es go k),
      )
    ]
