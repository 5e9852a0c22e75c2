-- ===== src/FecV2/Reading.antt =====
-- internal/fecv2/group.go: only what `Encode` writes is accepted by `parseManifest`.
use mpudp.Prelude.{
  ℕ, zero, suc, ◌+◌, ◌-◌, ◌*◌, ◌≤◌, ◌<◌, ◌≡◌, refl, sym, ap, ◌∙◌, List, [], ◌∷◌, ◌++◌, append_assoc,
  ltb, false, arith, length, length-drop, length-take, take, drop, take-append-drop, ok, All,
  All-drop, IsByte, put16, put64, put32, get64, get32, get16, put16-get16, put32-get32, get16-lt,
  ◌/◌, ◌%◌, ◌^◌,
}
use mpudp.FecV2.{
  Parameters, Fragment, validate_fragment, size_from, logical_size, descriptor, descriptors,
  payloads, manifest, manifest_bytes, descriptor_bytes, descriptor_at, payload_size, fragment_at,
  check_fragments, read_fragments, parse_manifest, manifest_version,
}
use mpudp.FecV2.Writing.{drop-add, slice-take}

put32-get32_rest :
    (xs : List ℕ) → All IsByte xs → 4 ≤ length xs → put32 (get32 xs) ++ drop 4 xs ≡ xs
put32-get32_rest (a ∷ b ∷ c ∷ d ∷ xs) r h =
    ap (λ (l : List ℕ). l ++ xs) (put32-get32 a b c d xs (r.0, (r.1.0, (r.1.1.0, (r.1.1.1.0, tt)))))
put32-get32_rest (a ∷ b ∷ c ∷ []) r h = absurd (omega arith)
put32-get32_rest (a ∷ b ∷ []) r h = absurd (omega arith)
put32-get32_rest (a ∷ []) r h = absurd (omega arith)
put32-get32_rest [] r h = absurd (omega arith)

get32_lt : (xs : List ℕ) → All IsByte xs → get32 xs < 2 ^ 32
get32_lt xs r = omega (arith, get16-lt xs r, get16-lt (drop 2 xs) (All-drop IsByte 2 xs r))

put64-get64_rest :
    (xs : List ℕ) → All IsByte xs → 8 ≤ length xs → put64 (get64 xs) ++ drop 8 xs ≡ xs
put64-get64_rest xs r h =
    let hi = get32 xs in
    let lo = get32 (drop 4 xs) in
    let small = get32_lt (drop 4 xs) (All-drop IsByte 4 xs r) in
    let e1 : get64 xs / 4294967296 ≡ hi = omega (arith, small) in
    let e2 : get64 xs % 4294967296 ≡ lo = omega (arith, small) in
    let eight : drop 8 xs ≡ drop 4 (drop 4 xs) = drop-add 4 4 xs in
    rw (e1, e2, eight)
      (append_assoc (put32 hi) (put32 lo) (drop 4 (drop 4 xs))
        ∙ ap (λ (l : List ℕ). put32 hi ++ l)
            (put32-get32_rest (drop 4 xs) (All-drop IsByte 4 xs r)
              (omega (arith, length-drop 4 xs)))
        ∙ put32-get32_rest xs r (omega arith))

-- A descriptor of bytes is what its fields are written to.
descriptor-read :
    (d : List ℕ) (f : Fragment)
    → All IsByte d
    → descriptor_bytes ≤ length d
    → f.datagram_id ≡ get64 d
    → f.total_bytes ≡ get32 (drop 8 d)
    → f.offset ≡ get32 (drop 12 d)
    → length f.payload ≡ get32 (drop 16 d)
    → descriptor f ++ drop descriptor_bytes d ≡ d
unfolding descriptor
descriptor-read d f r h e1 e2 e3 e4 =
    let part : (n : ℕ) → n + 4 ≤ 20 → put32 (get32 (drop n d)) ++ drop (n + 4) d ≡ drop n d =
      λ n le.
        ap (λ (l : List ℕ). put32 (get32 (drop n d)) ++ l) (drop-add n 4 d)
        ∙ put32-get32_rest (drop n d) (All-drop IsByte n d r) (omega (arith, length-drop n d)) in
    rw (e1, e2, e3, e4)
      (append_assoc (put64 (get64 d))
          (put32 (get32 (drop 8 d)) ++ (put32 (get32 (drop 12 d)) ++ put32 (get32 (drop 16 d))))
          (drop 20 d)
        ∙ ap (λ (l : List ℕ). put64 (get64 d) ++ l)
            (ap (λ (l : List ℕ). put32 (get32 (drop 8 d)) ++ (put32 (get32 (drop 12 d)) ++ l))
                (part 16 (omega arith))
              ∙ ap (λ (l : List ℕ). put32 (get32 (drop 8 d)) ++ l) (part 12 (omega arith))
              ∙ part 8 (omega arith))
        ∙ put64-get64_rest d r (omega arith))

check_fragments-parts :
    (p : Parameters) (logical : List ℕ) (n i previous data_at end : ℕ)
    → check_fragments p logical (suc n) i previous data_at ≡ ok end
    → (payload_size logical i ≤ length logical - data_at)
      × (validate_fragment p (fragment_at logical i data_at) previous ≡ ok tt)
      × (check_fragments p logical n
            (suc i)
            (fragment_at logical i data_at).datagram_id
            (data_at + payload_size logical i)
          ≡ ok end)
unfolding check_fragments
check_fragments-parts p logical n i previous data_at end h =
    (ground arith, ground arith, ground arith)

check_fragments_end :
    (p : Parameters) (logical : List ℕ) (i previous data_at end : ℕ)
    → check_fragments p logical zero i previous data_at ≡ ok end
    → data_at ≡ end
unfolding check_fragments
check_fragments_end p logical i previous data_at end h = cc

parse_manifest-parts :
    (p : Parameters) (logical : List ℕ) (fs : List Fragment)
    → parse_manifest p logical ≡ ok fs
    → (let count = get16 (drop 2 logical) in
        (manifest_bytes ≤ length logical)
        × (get16 logical ≡ manifest_version)
        × (1 ≤ count)
        × (count ≤ p.max_descriptors)
        × (descriptor_at count ≤ length logical)
        × (check_fragments p logical count 0 0 (descriptor_at count) ≡ ok (length logical))
        × (fs ≡ read_fragments logical count 0 (descriptor_at count)))
unfolding parse_manifest
parse_manifest-parts p logical fs h = (
  ground arith,
  ground arith,
  ground arith,
  ground arith,
  ground arith,
  ground arith,
  ground arith,
)

drop_end : (n : ℕ) (xs : List ℕ) → length xs ≤ n → drop n xs ≡ []
drop_end zero [] h = refl
drop_end zero (x ∷ xs) h = absurd (omega arith)
drop_end (suc n) [] h = refl
drop_end (suc n) (x ∷ xs) h = drop_end n xs (omega arith)

add_zero : (n : ℕ) → n + 0 ≡ n
add_zero n = omega arith

zero_add : (n : ℕ) → 0 + n ≡ n
zero_add n = omega arith

module _ (p : Parameters) (logical : List ℕ) (bytes : All IsByte logical) where
  read_payload :
      (i data_at : ℕ)
      → payload_size logical i ≤ length logical - data_at
      → ((fragment_at logical i data_at).payload
          ≡ take (payload_size logical i) (drop data_at logical))
        × (length (fragment_at logical i data_at).payload ≡ payload_size logical i)
  unfolding fragment_at
  read_payload i data_at h =
      let e = slice-take data_at (payload_size logical i) logical in
      (
        e,
        omega (
          arith,
          ap length e,
          length-take (payload_size logical i) (drop data_at logical),
          length-drop data_at logical,
        ),
      )

  read_descriptor :
      (i data_at : ℕ)
      → payload_size logical i ≤ length logical - data_at
      → descriptor_at (suc i) ≤ length logical
      → descriptor (fragment_at logical i data_at) ++ drop (descriptor_at (suc i)) logical
        ≡ drop (descriptor_at i) logical
  unfolding fragment_at
  read_descriptor i data_at h le =
      let d = drop (descriptor_at i) logical in
      let e : descriptor_at (suc i) ≡ descriptor_at i + descriptor_bytes = omega arith in
      ap (λ (l : List ℕ). descriptor (fragment_at logical i data_at) ++ l)
        (ap (λ (n : ℕ). drop n logical) e ∙ drop-add (descriptor_at i) descriptor_bytes logical)
      ∙ descriptor-read d (fragment_at logical i data_at)
          (All-drop IsByte (descriptor_at i) logical bytes)
          (omega (arith, length-drop (descriptor_at i) logical)) refl refl refl
          (read_payload i data_at h).1

  -- What the loops read, written again, is where it was read; and `logicalSize` accepts it.
  fragments-read :
      (n i previous data_at : ℕ)
      → descriptor_at (i + n) ≤ length logical
      → data_at ≤ length logical
      → length logical ≤ p.max_logical_bytes
      → check_fragments p logical n i previous data_at ≡ ok (length logical)
      → (let fs = read_fragments logical n i data_at in
          (length fs ≡ n)
          × (descriptors fs ++ drop (descriptor_at (i + n)) logical
              ≡ drop (descriptor_at i) logical)
          × (payloads fs ≡ drop data_at logical)
          × (size_from p previous data_at fs ≡ ok (length logical)))
  unfolding read_fragments descriptors payloads size_from
  fragments-read zero i previous data_at le at small h =
      let e : data_at ≡ length logical =
        ground (arith, check_fragments_end p logical i previous data_at (length logical) h) in
      (
        refl,
        ap (λ (m : ℕ). drop (descriptor_at m) logical) (add_zero i),
        sym (drop_end data_at logical (omega arith)),
        ap ok e,
      )
  fragments-read (suc n) i previous data_at le at small h =
      let (fits, v, more) =
        check_fragments-parts p logical n i previous data_at (length logical) h in
      let f = fragment_at logical i data_at in
      let k = payload_size logical i in
      let (taken, sized) = read_payload i data_at fits in
      let (count, ds, ps, size) =
        fragments-read n (suc i) f.datagram_id (data_at + k) (omega arith) (omega arith) small
          more in
      let fs = read_fragments logical n (suc i) (data_at + k) in
      let step : i + suc n ≡ suc i + n = omega arith in
      let head = read_descriptor i data_at fits (omega arith) in
      (
        ap suc count,
        append_assoc (descriptor f) (descriptors fs) (drop (descriptor_at (i + suc n)) logical)
            ∙ ap (λ (m : ℕ). descriptor f ++ (descriptors fs ++ drop (descriptor_at m) logical))
                step
            ∙ ap (λ (l : List ℕ). descriptor f ++ l) ds
            ∙ head,
        ap (λ (l : List ℕ). f.payload ++ l) (ps ∙ drop-add data_at k logical)
            ∙ ap (λ (l : List ℕ). l ++ drop k (drop data_at logical)) taken
            ∙ take-append-drop k (drop data_at logical),
        let room : ltb (p.max_logical_bytes - data_at) (length f.payload) ≡ false =
              ground (arith, sized) in
            rw (v, room) (ap (λ (m : ℕ). size_from p f.datagram_id (data_at + m) fs) sized ∙ size),
      )

put16-get16_rest :
    (xs : List ℕ) → All IsByte xs → 2 ≤ length xs → put16 (get16 xs) ++ drop 2 xs ≡ xs
put16-get16_rest (a ∷ b ∷ xs) r h = ap (λ (l : List ℕ). l ++ xs) (put16-get16 a b xs r.0 r.1.0)
put16-get16_rest (a ∷ []) r h = absurd (omega arith)
put16-get16_rest [] r h = absurd (omega arith)

-- Bytes that fit the parameters and are accepted by `parseManifest` are what the fragments that it returns are
-- written to, and `logicalSize` accepts these fragments with that size.
pub manifest-parse_manifest :
    (p : Parameters) (logical : List ℕ) (fs : List Fragment)
    → All IsByte logical
    → length logical ≤ p.max_logical_bytes
    → parse_manifest p logical ≡ ok fs
    → (manifest fs ≡ logical) × (logical_size p fs ≡ ok (length logical))
unfolding manifest logical_size
manifest-parse_manifest p logical fs bytes small h =
    let (long, version, lo, hi, at, checked, same) = parse_manifest-parts p logical fs h in
    let count = get16 (drop 2 logical) in
    let (n, ds, ps, size) =
      fragments-read p logical bytes count 0 0 (descriptor_at count) (omega arith) at small
        checked in
    let read = read_fragments logical count 0 (descriptor_at count) in
    let counted : length fs ≡ count = ap length same ∙ n in
    let begin : manifest_bytes + descriptor_bytes * count ≡ descriptor_at count = omega arith in
    let body : descriptors fs ++ payloads fs ≡ drop 4 logical =
      ap (λ (l : List Fragment). descriptors l ++ payloads l) same
      ∙ ap (λ (l : List ℕ). descriptors read ++ l) ps
      ∙ ap (λ (m : ℕ). descriptors read ++ drop (descriptor_at m) logical) (sym (zero_add count))
      ∙ ds in
    (
      ap (λ (v : ℕ). put16 v ++ (put16 (length fs) ++ (descriptors fs ++ payloads fs)))
            (sym version)
          ∙ ap (λ (m : ℕ). put16 (get16 logical) ++ (put16 m ++ (descriptors fs ++ payloads fs)))
              counted
          ∙ ap (λ (l : List ℕ). put16 (get16 logical) ++ (put16 count ++ l))
              (body ∙ drop-add 2 2 logical)
          ∙ ap (λ (l : List ℕ). put16 (get16 logical) ++ l)
              (put16-get16_rest (drop 2 logical) (All-drop IsByte 2 logical bytes)
                (omega (arith, length-drop 2 logical)))
          ∙ put16-get16_rest logical bytes (omega arith),
      rw (counted, begin, same) (ground (arith, size)),
    )
