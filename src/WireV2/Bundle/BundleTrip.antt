-- ===== src/WireV2/Bundle/BundleTrip.antt =====
-- internal/wirev2/bundle.go: `DecodeFECBundle` reads what `AppendFECBundle` writes.
use mpudp.Prelude.{
  ℕ, ◌+◌, ◌≤◌, ◌≡◌, ◌==◌, sym, ap, ◌∙◌, List, [], ◌∷◌, ◌++◌, ◌||◌, not, ltb, false, arith, length,
  append-nil, ok, >>=-eq-ok, reject_if, all_zero, All, get16-put16,
}
use mpudp.WireV2
use mpudp.WireV2.{
  Envelope, AuthenticatedEnvelope, parse_envelope, authenticate, append_envelope, envelope_overhead,
  is_handshake, max_udp_payload,
}
use mpudp.WireV2.Framing.{IsHeader}
use mpudp.WireV2.RoundTrip.{
  HasTagSize, authenticate-parts, length-append_envelope, packet-parse_envelope,
}
use mpudp.WireV2.Established
use mpudp.WireV2.Established.{
  enveloped, validate_route, encode_route, decode_established, validate_payload_limit,
}
use mpudp.WireV2.Established.RouteTrip.{
  IsRoute, enveloped-ok, length-encode_route, decode-append_routed,
}
use mpudp.WireV2.Context.{invalid_bundle, from_established, routed, bundle_prefix_size}
use mpudp.WireV2.Context.ContextTrip.{routed-ok}
use mpudp.WireV2.Bundle.{
  FecBundle, ContextLookup, bundle_type, max_records, check_records, encode_records, encode_bundle,
  read_records, decode_typed_bundle, decode_fec_bundle, append_fec_bundle,
}
use mpudp.WireV2.Bundle.Records.{IsRecord, read_records-encode_records, check_records-size}

-- The checks that `appendFECBundle` has passed before it writes.
record IsAccepted (lookup : ContextLookup) (max_payload : ℕ) (b : FecBundle) : Type 0 where
  pub typed : b.header.packet_type ≡ bundle_type
  pub route_valid : validate_route b.header.packet_type b.route ≡ ok tt
  pub limit_valid : validate_payload_limit max_payload ≡ ok tt
  pub some_records : 1 ≤ length b.records
  pub few_records : length b.records ≤ max_records
  pub typed_bytes : ℕ
  pub checked : check_records lookup max_payload [] [] bundle_prefix_size b.records ≡ ok typed_bytes

validate_payload_limit-ge : (n : ℕ) → validate_payload_limit n ≡ ok tt → 512 ≤ n
unfolding validate_payload_limit
validate_payload_limit-ge n h = ground arith

decode_typed_bundle-encode :
    (lookup : ContextLookup) (max_payload : ℕ) (b : FecBundle)
    → All IsRecord b.records
    → IsAccepted lookup max_payload b
    → decode_typed_bundle lookup b.header b.route (encode_bundle b) ≡ ok b
unfolding decode_typed_bundle encode_bundle
decode_typed_bundle-encode lookup max_payload b xs acc =
    let rs = b.records in
    let body = encode_records rs in
    let few = acc.few_records in
    let some = acc.some_records in
    let count = get16-put16 (length rs) (0 ∷ 0 ∷ body) (omega arith) in
    let read : read_records lookup (length rs) body [] [] ≡ ok (rs, []) =
      ap (λ (t : List ℕ). read_records lookup (length rs) t [] []) (sym (append-nil body))
      ∙ read_records-encode_records lookup max_payload [] [] bundle_prefix_size acc.typed_bytes rs
          [] xs acc.checked in
    rw (count, read) (ground arith)

length-encode_bundle :
    (b : FecBundle)
    → length (encode_bundle b) ≡ bundle_prefix_size + length (encode_records b.records)
unfolding encode_bundle
length-encode_bundle b = omega arith

decode_fec_bundle-parts :
    (a : AuthenticatedEnvelope) (lookup : ContextLookup) (max_payload : ℕ) (b : FecBundle)
    (body : List ℕ)
    → decode_established a ≡ ok (record { header = b.header; route = b.route; body = body })
    → b.header.packet_type ≡ bundle_type
    → validate_payload_limit max_payload ≡ ok tt
    → length a.envelope.packet ≤ max_payload
    → decode_fec_bundle a lookup max_payload ≡ decode_typed_bundle lookup b.header b.route body
unfolding decode_fec_bundle
decode_fec_bundle-parts a lookup max_payload b body e typed limit fits =
    rw (e, typed, limit) (ground (arith, fits))

module _ (mac : List ℕ → List ℕ → List ℕ) (key : List ℕ) where
  append_fec_bundle-parts :
      (dst : List ℕ) (lookup : ContextLookup) (max_payload : ℕ) (b : FecBundle) (packet : List ℕ)
      → append_fec_bundle mac dst b lookup key max_payload ≡ ok packet
      → IsAccepted lookup max_payload b
        × (append_envelope mac dst b.header (encode_route b.route ++ encode_bundle b) key
            ≡ ok packet)
  unfolding append_fec_bundle
  append_fec_bundle-parts dst lookup max_payload b packet e =
      let malformed = from_established (Established.from_envelope WireV2.unknown_packet_type) in
      let (_, typed, e1) =
        >>=-eq-ok (reject_if (not (b.header.packet_type == bundle_type)) malformed) _ e in
      let (_, _, e2) =
        >>=-eq-ok
          (reject_if (all_zero b.header.session_id)
            (from_established (Established.from_envelope WireV2.invalid_session_id)))
          _ e1 in
      let (_, _, e3) =
        >>=-eq-ok
          (reject_if (all_zero key)
            (from_established (Established.from_envelope WireV2.invalid_key)))
          _ e2 in
      let (_, route_valid, e4) =
        >>=-eq-ok (routed (validate_route b.header.packet_type b.route)) _ e3 in
      let (_, limit, e5) = >>=-eq-ok (routed (validate_payload_limit max_payload)) _ e4 in
      let (_, counted, e6) =
        >>=-eq-ok
          (reject_if (length b.records == 0 || ltb max_records (length b.records)) invalid_bundle) _
          e5 in
      let (n, checked, e7) =
        >>=-eq-ok (check_records lookup max_payload [] [] bundle_prefix_size b.records) _ e6 in
      (
        record {
          typed = ground (arith, typed);
          route_valid = routed-ok (validate_route b.header.packet_type b.route) tt route_valid;
          limit_valid = routed-ok (validate_payload_limit max_payload) tt limit;
          some_records = ground (arith, counted);
          few_records = ground (arith, counted);
          typed_bytes = n;
          checked = checked;
        },
        enveloped-ok
            (append_envelope mac dst b.header (encode_route b.route ++ encode_bundle b) key) packet
            (routed-ok
              (enveloped
                (append_envelope mac dst b.header (encode_route b.route ++ encode_bundle b) key))
              packet e7),
      )

  -- With tags of 32 bytes: what `AppendFECBundle` makes of a bundle within a payload limit, with a context lookup,
  -- is no longer than the limit, is parsed, is authenticated under the same key, and is decoded to that bundle
  -- by a receiver with the same contexts and the same limit.
  pub decode-append_fec_bundle :
      (lookup : ContextLookup) (max_payload : ℕ) (b : FecBundle) (packet : List ℕ)
      → HasTagSize mac
      → IsHeader b.header
      → IsRoute b.route
      → All IsRecord b.records
      → append_fec_bundle mac [] b lookup key max_payload ≡ ok packet
      → (length packet ≤ max_payload)
        × (e : Envelope) × (a : AuthenticatedEnvelope) × (parse_envelope packet ≡ ok e)
        × (authenticate mac e key ≡ ok a)
        × (decode_fec_bundle a lookup max_payload ≡ ok b)
  decode-append_fec_bundle lookup max_payload b packet size hd x xs made =
      let (acc, appended) = append_fec_bundle-parts [] lookup max_payload b packet made in
      let other : is_handshake b.header.packet_type ≡ false = ap is_handshake acc.typed in
      let (e, a, parsed, authenticated, decoded) =
        decode-append_routed mac key b.header b.route (encode_bundle b) packet size hd x other
          acc.route_valid appended in
      let enough = validate_payload_limit-ge max_payload acc.limit_valid in
      let (counted, within) =
        check_records-size lookup max_payload [] [] bundle_prefix_size acc.typed_bytes b.records
          (omega arith) acc.checked in
      let framed =
        length-append_envelope mac key b.header (encode_route b.route ++ encode_bundle b) packet
          size hd appended in
      let body = length-encode_route b.route (encode_bundle b) in
      let fits : length packet ≤ max_payload = omega (arith, length-encode_bundle b) in
      let (_, whole, _) = authenticate-parts mac key e a authenticated in
      let same : a.envelope.packet ≡ packet =
        ap (λ (y : AuthenticatedEnvelope). y.envelope.packet) whole
        ∙ packet-parse_envelope packet e parsed in
      let small : length a.envelope.packet ≤ max_payload = omega (arith, ap length same) in
      (
        fits,
        e,
        a,
        parsed,
        authenticated,
        decode_fec_bundle-parts a lookup max_payload b (encode_bundle b) decoded acc.typed
              acc.limit_valid small
            ∙ decode_typed_bundle-encode lookup max_payload b xs acc,
      )
