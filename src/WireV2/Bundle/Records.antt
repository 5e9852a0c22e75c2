-- ===== src/WireV2/Bundle/Records.antt =====
-- internal/wirev2/bundle.go: what is read where a checked record was written.
use mpudp.Prelude.{
  ℕ, suc, ◌+◌, ◌-◌, ◌^◌, ◌≤◌, ◌<◌, ◌≡◌, refl, sym, ap, ◌∙◌, List, [], ◌∷◌, ◌++◌, append_assoc, ltb,
  false, arith, length, length-append, take, drop, take-append_exact, drop-append_exact, ok,
  >>=-eq-ok, reject_if, All, byte_at, put32, get64, get32, get64-put64, get32-put32,
}
use mpudp.WireV2
use mpudp.WireV2.Established
use mpudp.WireV2.Context.{
  invalid_bundle, from_established, EncodingContext, typed_body_overhead, record_header_size,
}
use mpudp.WireV2.Bundle.{
  FecRecord, ContextLookup, get_context, validate_record, duplicate_group, check_record,
  check_records, encode_record, encode_records, record_of, read_record, read_records,
}

-- The fields fit Go's types.
pub record IsRecord (r : FecRecord) : Type 0 where
  pub id_range : r.group_id < 2 ^ 64
  pub epoch_range : r.encoding_epoch < 2 ^ 32
  pub size_range : r.logical_bytes < 2 ^ 32

validate_record-size :
    (r : FecRecord) (c : EncodingContext)
    → validate_record r c ≡ ok tt
    → length r.payload ≡ c.shard_bytes
unfolding validate_record
validate_record-size r c h = ground arith

length-encode_record :
    (r : FecRecord) → length (encode_record r) ≡ record_header_size + length r.payload
unfolding encode_record
length-encode_record r = omega arith

record_of-encode_record :
    (r : FecRecord) (tail : List ℕ)
    → IsRecord r
    → record_of (encode_record r ++ tail) (length r.payload) ≡ r
unfolding encode_record
record_of-encode_record r tail x =
    let more = put32 r.logical_bytes ++ (r.shard_index ∷ 0 ∷ (r.payload ++ tail)) in
    let e1 = get64-put64 r.group_id (put32 r.encoding_epoch ++ more) x.id_range in
    let e2 = get32-put32 r.encoding_epoch more x.epoch_range in
    let e3 = get32-put32 r.logical_bytes (r.shard_index ∷ 0 ∷ (r.payload ++ tail)) x.size_range in
    let e4 = take-append_exact r.payload tail (length r.payload) refl in
    λ i. record {
      group_id = e1 i;
      encoding_epoch = e2 i;
      logical_bytes = e3 i;
      shard_index = r.shard_index;
      payload = e4 i;
    }

-- The facts that a checked record has passed.
check_record-parts :
    (lookup : ContextLookup) (max_payload : ℕ) (met : List ℕ) (cache : List EncodingContext)
    (typed_bytes : ℕ) (r : FecRecord) (cache' : List EncodingContext)
    → check_record lookup max_payload met cache typed_bytes r ≡ ok cache'
    → (duplicate_group met r.group_id ≡ false)
      × (c : EncodingContext) × (get_context lookup cache r.encoding_epoch ≡ ok (c, cache'))
      × (validate_record r c ≡ ok tt)
      × (record_header_size + length r.payload ≤ max_payload - typed_body_overhead - typed_bytes)
unfolding check_record
check_record-parts lookup max_payload met cache typed_bytes r cache' h =
    let (_, fresh, h1) =
      >>=-eq-ok (reject_if (duplicate_group met r.group_id) invalid_bundle) _ h in
    let ((c, kept), found, h2) = >>=-eq-ok (get_context lookup cache r.encoding_epoch) _ h1 in
    let (_, valid, h3) = >>=-eq-ok (validate_record r c) _ h2 in
    let (_, fits, h4) =
      >>=-eq-ok
        (reject_if
          (ltb (max_payload - typed_body_overhead - typed_bytes)
            (record_header_size + length r.payload))
          (from_established (Established.from_envelope WireV2.packet_too_large)))
        _ h3 in
    let same : kept ≡ cache' = ground arith in
    (
      ground (arith, fresh),
      c,
      found ∙ ap (λ (k : List EncodingContext). ok (c, k)) same,
      valid,
      ground (arith, fits),
    )

read_record-encode :
    (lookup : ContextLookup) (met : List ℕ) (cache cache' : List EncodingContext) (r : FecRecord)
    (c : EncodingContext) (tail : List ℕ)
    → IsRecord r
    → duplicate_group met r.group_id ≡ false
    → get_context lookup cache r.encoding_epoch ≡ ok (c, cache')
    → validate_record r c ≡ ok tt
    → read_record lookup (encode_record r ++ tail) met cache ≡ ok (r, cache')
unfolding read_record
read_record-encode lookup met cache cache' r c tail x fresh found valid =
    let same = record_of-encode_record r tail x in
    let size = validate_record-size r c valid in
    let long : length (encode_record r ++ tail) ≡ record_header_size + c.shard_bytes + length tail =
      omega (arith, length-append (encode_record r) tail, length-encode_record r, size) in
    let id : get64 (encode_record r ++ tail) ≡ r.group_id =
      ap (λ (y : FecRecord). y.group_id) same in
    let epoch : get32 (drop 8 (encode_record r ++ tail)) ≡ r.encoding_epoch =
      ap (λ (y : FecRecord). y.encoding_epoch) same in
    let reserved : byte_at (encode_record r ++ tail) 17 ≡ 0 = unfold encode_record in refl in
    let bytes : get32 (drop 12 (encode_record r ++ tail)) ≡ r.logical_bytes =
      ap (λ (y : FecRecord). y.logical_bytes) same in
    let index : byte_at (encode_record r ++ tail) 16 ≡ r.shard_index =
      ap (λ (y : FecRecord). y.shard_index) same in
    let payload : take c.shard_bytes (drop record_header_size (encode_record r ++ tail))
        ≡ r.payload =
      ap (λ (n : ℕ). take n (drop record_header_size (encode_record r ++ tail))) (sym size)
      ∙ ap (λ (y : FecRecord). y.payload) same in
    rw (reserved, id, fresh, epoch, found, bytes, index, payload, valid) (ground (arith, long))

drop-encode_record :
    (r : FecRecord) (tail : List ℕ)
    → drop (length r.payload) (drop record_header_size (encode_record r ++ tail)) ≡ tail
unfolding encode_record
drop-encode_record r tail = drop-append_exact r.payload tail (length r.payload) refl

first_record :
    (r : FecRecord) (rs : List FecRecord) (tail : List ℕ)
    → encode_records (r ∷ rs) ++ tail ≡ encode_record r ++ (encode_records rs ++ tail)
unfolding encode_records
first_record r rs tail = append_assoc (encode_record r) (encode_records rs) tail

read_records-first :
    (lookup : ContextLookup) (r : FecRecord) (rs : List FecRecord) (n : ℕ) (rest tail more : List ℕ)
    (met : List ℕ) (cache cache' : List EncodingContext)
    → read_record lookup rest met cache ≡ ok (r, cache')
    → drop (length r.payload) (drop record_header_size rest) ≡ more
    → read_records lookup n more (r.group_id ∷ met) cache' ≡ ok (rs, tail)
    → read_records lookup (suc n) rest met cache ≡ ok (r ∷ rs, tail)
unfolding read_records
read_records-first lookup r rs n rest tail more met cache cache' first behind others =
    rw (first, behind, others)

check_records-parts :
    (lookup : ContextLookup) (max_payload : ℕ) (met : List ℕ) (cache : List EncodingContext)
    (typed_bytes n : ℕ) (r : FecRecord) (rs : List FecRecord)
    → check_records lookup max_payload met cache typed_bytes (r ∷ rs) ≡ ok n
    → (cache' : List EncodingContext) × (check_record lookup max_payload met cache typed_bytes r
        ≡ ok cache')
      × (check_records lookup max_payload
            (r.group_id ∷ met)
            cache'
            (typed_bytes + (record_header_size + length r.payload))
            rs
          ≡ ok n)
unfolding check_records
check_records-parts lookup max_payload met cache typed_bytes n r rs h =
    >>=-eq-ok (check_record lookup max_payload met cache typed_bytes r) _ h

-- The reading loop finds the contexts that the checking loop found.
pub read_records-encode_records :
    (lookup : ContextLookup) (max_payload : ℕ) (met : List ℕ) (cache : List EncodingContext)
    (typed_bytes n : ℕ) (rs : List FecRecord) (tail : List ℕ)
    → All IsRecord rs
    → check_records lookup max_payload met cache typed_bytes rs ≡ ok n
    → read_records lookup (length rs) (encode_records rs ++ tail) met cache ≡ ok (rs, tail)
read_records-encode_records lookup max_payload met cache typed_bytes n [] tail x h =
    unfold read_records encode_records in refl
read_records-encode_records lookup max_payload met cache typed_bytes n (r ∷ rs) tail (x, xs) h =
    let (cache', checked, others) =
      check_records-parts lookup max_payload met cache typed_bytes n r rs h in
    let (fresh, c, found, valid, fits) =
      check_record-parts lookup max_payload met cache typed_bytes r cache' checked in
    let more = encode_records rs ++ tail in
    let start : encode_records (r ∷ rs) ++ tail ≡ encode_record r ++ more =
      first_record r rs tail in
    ap (λ (t : List ℕ). read_records lookup (length (r ∷ rs)) t met cache) start
    ∙ read_records-first lookup r rs (length rs) (encode_record r ++ more) tail more met cache
        cache' (read_record-encode lookup met cache cache' r c more x fresh found valid)
        (drop-encode_record r more)
        (read_records-encode_records lookup max_payload (r.group_id ∷ met) cache'
          (typed_bytes + (record_header_size + length r.payload)) n rs tail xs others)

-- The checking loop counts the bytes that are written, and keeps them within the limit.
pub check_records-size :
    (lookup : ContextLookup) (max_payload : ℕ) (met : List ℕ) (cache : List EncodingContext)
    (typed_bytes n : ℕ) (rs : List FecRecord)
    → typed_bytes ≤ max_payload - typed_body_overhead
    → check_records lookup max_payload met cache typed_bytes rs ≡ ok n
    → (typed_bytes + length (encode_records rs) ≡ n) × (n ≤ max_payload - typed_body_overhead)
check_records-size lookup max_payload met cache typed_bytes n [] room h =
    unfold check_records encode_records in (ground arith, ground arith)
check_records-size lookup max_payload met cache typed_bytes n (r ∷ rs) room h =
    let (cache', checked, others) =
      check_records-parts lookup max_payload met cache typed_bytes n r rs h in
    let (fresh, c, found, valid, fits) =
      check_record-parts lookup max_payload met cache typed_bytes r cache' checked in
    let (counted, within) =
      check_records-size lookup max_payload (r.group_id ∷ met) cache'
        (typed_bytes + (record_header_size + length r.payload)) n rs (omega arith) others in
    let both : length (encode_records (r ∷ rs))
        ≡ length (encode_record r) + length (encode_records rs) =
      unfold encode_records in length-append (encode_record r) (encode_records rs) in
    (omega (arith, length-encode_record r), within)
