-- ===== src/Fec/Decoder/Maps.antt =====
-- internal/fec/decoder.go: lookups in the Decoder's maps.
use mpudp.Prelude.{
  ◌≡◌, ◌⊎◌, refl, sym, ap, ◌∙◌, List, [], ◌∷◌, true, false, if◌then◌else◌, Bool-cases, inl, inr,
  none, some, bytes_eq→eq, bytes_eq_refl, arith,
}
use mpudp.Fec.Expiry.{BlockKey, same_key}
use mpudp.Fec.Decoder.{find, delete, change, is_found}

pub same_key→eq : (a b : BlockKey) → same_key a b ≡ true → a ≡ b
same_key→eq a b h =
    let ids : a.packet_id ≡ b.packet_id = ground arith in
    let bytes = bytes_eq→eq a.session_id b.session_id (ground arith) in
    λ i. record { session_id = bytes i; packet_id = ids i }

pub same_key_refl : (a : BlockKey) → same_key a a ≡ true
same_key_refl a = let e = bytes_eq_refl a.session_id in ground (arith, e)

module _ {V : Type 0} where
  pub find-delete :
      (p : List (BlockKey × V)) (k j : BlockKey)
      → find (delete p k) j ≡ (if same_key k j then none else find p j)
  find-delete [] k j = ground arith
  find-delete ((i, v) ∷ p) k j = elim (Bool-cases (same_key i k)) [
    | inl same ↦ let e = same_key→eq i k same in rw same (find-delete p k j ∙ rw e (ground arith))
    | inr other ↦ rw other (
        rw (find-delete p k j) (elim (Bool-cases (same_key i j)) [
          | inr n ↦ rw n
          | inl y ↦
              let e = same_key→eq i j y in
              let apart : same_key k j ≡ false = differs e other in rw (y, apart)
        ]))
  ]
    where
      differs : i ≡ j → same_key i k ≡ false → same_key k j ≡ false
      differs e n = elim (Bool-cases (same_key k j)) [
        | inr f ↦ f
        | inl t ↦
            let back = sym (e ∙ sym (same_key→eq k j t)) in
            let yes_same : same_key i k ≡ true = rw back (same_key_refl i) in cc
      ]

  pub find-change_self :
      (p : List (BlockKey × V)) (k : BlockKey) (v w : V)
      → find p k ≡ some v
      → find (change p k w) k ≡ some w
  find-change_self [] k v w h = cc
  find-change_self ((i, u) ∷ p) k v w h = elim (Bool-cases (same_key i k)) [
    | inl same ↦ rw same (rw same)
    | inr other ↦ rw other (rw other (find-change_self p k v w (ground arith)))
  ]

  pub find-change_ne :
      (p : List (BlockKey × V)) (k j : BlockKey) (w : V)
      → same_key k j ≡ false
      → find (change p k w) j ≡ find p j
  find-change_ne [] k j w h = refl
  find-change_ne ((i, u) ∷ p) k j w h = elim (Bool-cases (same_key i k)) [
    | inl same ↦
        let no_match : same_key i j ≡ false = rw (same_key→eq i k same) h in
        rw (same, no_match) (find-change_ne p k j w h)
    | inr other ↦ rw other (rw (find-change_ne p k j w h))
  ]

  pub find-change_found :
      (p : List (BlockKey × V)) (k j : BlockKey) (w : V)
      → is_found (find (change p k w) j) ≡ is_found (find p j)
  find-change_found [] k j w = refl
  find-change_found ((i, u) ∷ p) k j w = elim (Bool-cases (same_key i k)) [
    | inl same ↦ rw same (elim (Bool-cases (same_key i j)) [
      | inl y ↦ rw y
      | inr n ↦ rw n (find-change_found p k j w)
    ])
    | inr other ↦ rw other (elim (Bool-cases (same_key i j)) [
      | inl y ↦ rw y
      | inr n ↦ rw n (find-change_found p k j w)
    ])
  ]

  pub find-delete_found :
      (p : List (BlockKey × V)) (j k : BlockKey) (v : V)
      → find (delete p j) k ≡ some v
      → (find p k ≡ some v) × (same_key j k ≡ false)
  find-delete_found p j k v h =
      let f = find-delete p j k in
      elim (Bool-cases (same_key j k)) [
        | inl same ↦ absurd (ground (arith, f, h, same))
        | inr other ↦ (ground (arith, f, h, other), other)
      ]

  pub find-change_cases :
      (p : List (BlockKey × V)) (j k : BlockKey) (u w v : V)
      → find p j ≡ some u
      → find (change p j w) k ≡ some v
      → ((j ≡ k) × (w ≡ v)) ⊎ (find p k ≡ some v)
  find-change_cases p j k u w v found h = elim (Bool-cases (same_key j k)) [
    | inl same ↦
        let jk = same_key→eq j k same in
        let here : find (change p j w) k ≡ some w =
          ap (find (change p j w)) (sym jk) ∙ find-change_self p j u w found in
        inl (jk, cc)
    | inr other ↦ inr (sym (find-change_ne p j k w other) ∙ h)
  ]
