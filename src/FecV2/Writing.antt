-- ===== src/FecV2/Writing.antt =====
-- internal/fecv2/group.go: `parseManifest` reads back what `Encode` writes.
use mpudp.Prelude.{
  ℕ, zero, suc, ◌+◌, ◌-◌, ◌*◌, ◌^◌, ◌≤◌, ◌<◌, ◌≡◌, refl, sym, ap, ◌∙◌, List, [], ◌∷◌, ◌++◌,
  append_assoc, ltb, false, arith, length, length-append, length-drop, take, drop,
  take-append_exact, drop-append_exact, slice, ok, All, put32, get64, get32, get16, get16-put16,
  get32-put32, get64-put64,
}
use mpudp.FecV2.{
  Parameters, Fragment, validate_fragment, size_from, logical_size, descriptor, descriptors,
  payloads, manifest, manifest_bytes, descriptor_bytes, descriptor_at, payload_size, fragment_at,
  check_fragments, read_fragments, parse_manifest, max_descriptors_limit,
}

-- The fields fit Go's types.
pub record IsFragment (f : Fragment) : Type 0 where
  pub id_fits : f.datagram_id < 2 ^ 64
  pub total_fits : f.total_bytes < 2 ^ 32

module _ {ℓ} {A : Type ℓ} where
  pub drop-add : (m n : ℕ) (xs : List A) → drop (m + n) xs ≡ drop n (drop m xs)
  drop-add zero n xs = let e : 0 + n ≡ n = omega arith in ap (λ (t : ℕ). drop t xs) e
  drop-add (suc m) n [] =
      let e : suc m + n ≡ suc (m + n) = omega arith in
      ap (λ (t : ℕ). drop {A = A} t []) e ∙ sym (drop_nil n)
    where
      drop_nil : (k : ℕ) → drop {A = A} k [] ≡ []
      drop_nil zero = refl
      drop_nil (suc k) = refl
  drop-add (suc m) n (x ∷ xs) =
      let e : suc m + n ≡ suc (m + n) = omega arith in
      ap (λ (t : ℕ). drop t (x ∷ xs)) e ∙ drop-add m n xs

  pub slice-take : (m n : ℕ) (xs : List A) → slice xs m (m + n) ≡ take n (drop m xs)
  slice-take zero n xs = let e : 0 + n ≡ n = omega arith in ap (λ (t : ℕ). take t xs) e
  slice-take (suc m) n [] =
      let e : suc m + n ≡ suc (m + n) = omega arith in
      ap (λ (t : ℕ). drop (suc m) (take {A = A} t [])) e ∙ sym (take_nil n)
    where
      take_nil : (k : ℕ) → take {A = A} k [] ≡ []
      take_nil zero = refl
      take_nil (suc k) = refl
  slice-take (suc m) n (x ∷ xs) =
      let e : suc m + n ≡ suc (m + n) = omega arith in
      ap (λ (t : ℕ). drop (suc m) (take t (x ∷ xs))) e ∙ slice-take m n xs

validate_fragment-parts :
    (p : Parameters) (f : Fragment) (previous : ℕ)
    → validate_fragment p f previous ≡ ok tt
    → (f.offset ≤ f.total_bytes) × (f.offset + length f.payload ≤ f.total_bytes)
unfolding validate_fragment
validate_fragment-parts p f previous h = (ground arith, ground arith)

size_from-parts :
    (p : Parameters) (f : Fragment) (fs : List Fragment) (previous size n : ℕ)
    → size_from p previous size (f ∷ fs) ≡ ok n
    → (validate_fragment p f previous ≡ ok tt)
      × (length f.payload ≤ p.max_logical_bytes - size)
      × (size_from p f.datagram_id (size + length f.payload) fs ≡ ok n)
unfolding size_from
size_from-parts p f fs previous size n h = (ground arith, ground arith, ground arith)

-- The fields that a written descriptor holds.
descriptor-fields :
    (f : Fragment) (rest : List ℕ)
    → IsFragment f
    → f.offset < 2 ^ 32
    → length f.payload < 2 ^ 32
    → (get64 (descriptor f ++ rest) ≡ f.datagram_id)
      × (get32 (drop 8 (descriptor f ++ rest)) ≡ f.total_bytes)
      × (get32 (drop 12 (descriptor f ++ rest)) ≡ f.offset)
      × (get32 (drop 16 (descriptor f ++ rest)) ≡ length f.payload)
unfolding descriptor
descriptor-fields f rest r o l = (
  get64-put64 f.datagram_id
      (put32 f.total_bytes ++ (put32 f.offset ++ (put32 (length f.payload) ++ rest))) r.id_fits,
  get32-put32 f.total_bytes (put32 f.offset ++ (put32 (length f.payload) ++ rest)) r.total_fits,
  get32-put32 f.offset (put32 (length f.payload) ++ rest) o,
  get32-put32 (length f.payload) rest l,
)

first_descriptor :
    (f : Fragment) (fs : List Fragment) (rest : List ℕ)
    → descriptors (f ∷ fs) ++ rest ≡ descriptor f ++ (descriptors fs ++ rest)
unfolding descriptors
first_descriptor f fs rest = append_assoc (descriptor f) (descriptors fs) rest

length-descriptors : (fs : List Fragment) → length (descriptors fs) ≡ descriptor_bytes * length fs
unfolding descriptors descriptor
length-descriptors [] = refl
length-descriptors (f ∷ fs) = omega (arith, length-descriptors fs)

size_from-eq :
    (p : Parameters) (fs : List Fragment) (previous size n : ℕ)
    → size_from p previous size fs ≡ ok n
    → size + length (payloads fs) ≡ n
unfolding size_from payloads
size_from-eq p [] previous size n h = ground arith
size_from-eq p (f ∷ fs) previous size n h =
    let (v, fits, more) = size_from-parts p f fs previous size n h in
    omega (
      arith,
      length-append f.payload (payloads fs),
      size_from-eq p fs f.datagram_id (size + length f.payload) n more,
    )

logical_size-parts :
    (p : Parameters) (fs : List Fragment) (size : ℕ)
    → logical_size p fs ≡ ok size
    → (1 ≤ length fs)
      × (length fs ≤ p.max_descriptors)
      × (manifest_bytes + descriptor_bytes * length fs ≤ p.max_logical_bytes)
      × (size_from p 0 (manifest_bytes + descriptor_bytes * length fs) fs ≡ ok size)
unfolding logical_size
logical_size-parts p fs size h = (ground arith, ground arith, ground arith, ground arith)

size_from-le :
    (p : Parameters) (fs : List Fragment) (previous size n : ℕ)
    → size ≤ p.max_logical_bytes
    → size_from p previous size fs ≡ ok n
    → n ≤ p.max_logical_bytes
unfolding size_from
size_from-le p [] previous size n le h = ground arith
size_from-le p (f ∷ fs) previous size n le h =
    let (v, fits, more) = size_from-parts p f fs previous size n h in
    size_from-le p fs f.datagram_id (size + length f.payload) n (omega arith) more

pub logical_size-bounds :
    (p : Parameters) (fs : List Fragment) (size : ℕ)
    → logical_size p fs ≡ ok size
    → (manifest_bytes + descriptor_bytes ≤ size) × (size ≤ p.max_logical_bytes)
logical_size-bounds p fs size h =
    let (lo, hi, room, s) = logical_size-parts p fs size h in
    let begin = manifest_bytes + descriptor_bytes * length fs in
    (omega (arith, size_from-eq p fs 0 begin size s), size_from-le p fs 0 begin size room s)

-- What an accepted list of fragments is written to has the size that `logicalSize` returns.
pub length-manifest :
    (p : Parameters) (fs : List Fragment) (size : ℕ)
    → logical_size p fs ≡ ok size
    → length (manifest fs) ≡ size
unfolding manifest
length-manifest p fs size h =
    let (lo, hi, room, s) = logical_size-parts p fs size h in
    omega (
      arith,
      length-append (descriptors fs) (payloads fs),
      length-descriptors fs,
      size_from-eq p fs 0 (manifest_bytes + descriptor_bytes * length fs) size s,
    )

module _ (p : Parameters) (logical : List ℕ) where
  -- A descriptor and its payload in place are read as the fragment.
  fragment_at-written :
      (f : Fragment) (i data_at : ℕ) (rest more : List ℕ)
      → IsFragment f
      → f.offset + length f.payload ≤ f.total_bytes
      → drop (descriptor_at i) logical ≡ descriptor f ++ rest
      → drop data_at logical ≡ f.payload ++ more
      → (payload_size logical i ≡ length f.payload) × (fragment_at logical i data_at ≡ f)
  unfolding fragment_at
  fragment_at-written f i data_at rest more r fits d q =
      let (e1, e2, e3, e4) =
        descriptor-fields f rest r (omega (arith, r.total_fits)) (omega (arith, r.total_fits)) in
      let size : payload_size logical i ≡ length f.payload =
        ap (λ (l : List ℕ). get32 (drop 16 l)) d ∙ e4 in
      let bytes : slice logical data_at (data_at + payload_size logical i) ≡ f.payload =
        slice-take data_at (payload_size logical i) logical
        ∙ ap (take (payload_size logical i)) q
        ∙ take-append_exact f.payload more (payload_size logical i) (sym size) in
      let id = ap get64 d ∙ e1 in
      let total = ap (λ (l : List ℕ). get32 (drop 8 l)) d ∙ e2 in
      let offset = ap (λ (l : List ℕ). get32 (drop 12 l)) d ∙ e3 in
      (
        size,
        λ i. record {
          datagram_id = id i;
          total_bytes = total i;
          offset = offset i;
          payload = bytes i;
        },
      )

  next_descriptor :
      (f : Fragment) (fs : List Fragment) (i : ℕ) (rest : List ℕ)
      → drop (descriptor_at i) logical ≡ descriptors (f ∷ fs) ++ rest
      → drop (descriptor_at (suc i)) logical ≡ descriptors fs ++ rest
  unfolding descriptors descriptor
  next_descriptor f fs i rest d =
      let e : descriptor_at (suc i) ≡ descriptor_at i + descriptor_bytes = omega arith in
      ap (λ (n : ℕ). drop n logical) e
      ∙ drop-add (descriptor_at i) descriptor_bytes logical
      ∙ ap (drop descriptor_bytes) d

  next_payload :
      (f : Fragment) (fs : List Fragment) (data_at n : ℕ)
      → n ≡ length f.payload
      → drop data_at logical ≡ payloads (f ∷ fs)
      → drop (data_at + n) logical ≡ payloads fs
  unfolding payloads
  next_payload f fs data_at n e q =
      drop-add data_at n logical
      ∙ ap (drop n) q
      ∙ drop-append_exact f.payload (payloads fs) n (sym e)

  -- Where the descriptors and the payloads of accepted fragments stand in order, both loops of
  -- `parseManifest` read them to the end.
  fragments-written :
      (fs : List Fragment) (i previous data_at size n : ℕ) (rest : List ℕ)
      → All IsFragment fs
      → data_at ≤ length logical
      → drop (descriptor_at i) logical ≡ descriptors fs ++ rest
      → drop data_at logical ≡ payloads fs
      → size_from p previous size fs ≡ ok n
      → (check_fragments p logical (length fs) i previous data_at ≡ ok (length logical))
        × (read_fragments logical (length fs) i data_at ≡ fs)
  unfolding payloads check_fragments read_fragments
  fragments-written [] i previous data_at size n rest r le d q h =
      let none_left = length-drop data_at logical in
      let e : data_at ≡ length logical = omega (arith, ap length q) in (ap ok e, refl)
  fragments-written (f ∷ fs) i previous data_at size n rest r le d q h =
      let (v, fits, more) = size_from-parts p f fs previous size n h in
      let (o, t) = validate_fragment-parts p f previous v in
      let (same_size, same) =
        fragment_at-written f i data_at (descriptors fs ++ rest) (payloads fs) r.0 t
          (d ∙ first_descriptor f fs rest) q in
      let left : length f.payload + length (payloads fs) ≡ length logical - data_at =
        omega (
          arith,
          length-drop data_at logical,
          ap length q,
          length-append f.payload (payloads fs),
        ) in
      let (checked, read) =
        fragments-written fs (suc i) f.datagram_id (data_at + payload_size logical i)
          (size + length f.payload) n rest r.1 (omega (arith, same_size))
          (next_descriptor f fs i rest d)
          (next_payload f fs data_at (payload_size logical i) same_size q) more in
      (
        let room : ltb (length logical - data_at) (payload_size logical i) ≡ false =
              ground (arith, same_size, left) in
            rw (room, same, v) checked,
        rw (same, read),
      )

-- Under parameters that `New` accepts, the manifest of fragments that `logicalSize` accepts is parsed to
-- those fragments.
pub parse_manifest-manifest :
    (p : Parameters) (fs : List Fragment) (size : ℕ)
    → p.max_descriptors ≤ max_descriptors_limit
    → All IsFragment fs
    → logical_size p fs ≡ ok size
    → parse_manifest p (manifest fs) ≡ ok fs
unfolding parse_manifest manifest
parse_manifest-manifest p fs size small r h =
    let (lo, hi, room, s) = logical_size-parts p fs size h in
    let logical = manifest fs in
    let body = descriptors fs ++ payloads fs in
    let count : get16 (drop 2 logical) ≡ length fs = get16-put16 (length fs) body (omega arith) in
    let data_at : drop (descriptor_at (length fs)) logical ≡ payloads fs =
      drop-add manifest_bytes (length fs * descriptor_bytes) logical
      ∙ drop-append_exact (descriptors fs) (payloads fs) (length fs * descriptor_bytes)
          (omega (arith, length-descriptors fs)) in
    let long : length logical ≡ descriptor_at (length fs) + length (payloads fs) =
      omega (arith, length-append (descriptors fs) (payloads fs), length-descriptors fs) in
    let (checked, read) =
      fragments-written p logical fs 0 0 (descriptor_at (length fs))
        (manifest_bytes + descriptor_bytes * length fs) size (payloads fs) r (omega (arith, long))
        refl data_at s in
    rw count (ground (arith, checked, read, long))
