-- ===== src/WireV2/Established/RouteTrip.antt =====
-- internal/wirev2/established.go: `DecodeEstablished` reads what `AppendEstablished` writes.
use mpudp.Prelude.{
  ℕ, ◌+◌, ◌-◌, ◌^◌, ◌≤◌, ◌<◌, ◌≡◌, refl, sym, ap, ◌∙◌, List, [], ◌++◌, true, false, arith, length,
  drop, ok, err, Result, all_zero, put32, put64, get32-put32, get64-put64, >>=-eq-ok, reject_if,
  ltb,
}
use mpudp.WireV2
use mpudp.WireV2.{
  Header, Envelope, AuthenticatedEnvelope, parse_envelope, authenticate, append_envelope, body_of,
  is_handshake, validate_envelope, route_size, max_body_size,
}
use mpudp.WireV2.Framing.{IsHeader, frame}
use mpudp.WireV2.RoundTrip.{
  HasTagSize, parse-append, append_envelope-parts, append_envelope-computes, authenticate-parts,
}
use mpudp.WireV2.Established.{
  from_envelope, Route, enveloped, validate_route, encode_route, route_of, decode_typed,
  decode_established, append_established,
}

-- The fields fit Go's types.
pub record IsRoute (r : Route) : Type 0 where
  pub path_range : r.path_id < 2 ^ 32
  pub generation_range : r.generation < 2 ^ 64
  pub epoch_range : r.budget_epoch < 2 ^ 32

route_of-encode_route :
    (r : Route) (typed : List ℕ) → IsRoute r → route_of (encode_route r ++ typed) ≡ r
unfolding encode_route
route_of-encode_route r typed x =
    let e1 =
      get32-put32 r.path_id (put64 r.generation ++ (put32 r.budget_epoch ++ typed)) x.path_range in
    let e2 = get64-put64 r.generation (put32 r.budget_epoch ++ typed) x.generation_range in
    let e3 = get32-put32 r.budget_epoch typed x.epoch_range in
    λ i. record { path_id = e1 i; generation = e2 i; budget_epoch = e3 i }

pub length-encode_route :
    (r : Route) (typed : List ℕ) → length (encode_route r ++ typed) ≡ route_size + length typed
unfolding encode_route
length-encode_route r typed = omega arith

decode_typed-encode :
    (h : Header) (r : Route) (typed : List ℕ)
    → IsRoute r
    → is_handshake h.packet_type ≡ false
    → validate_route h.packet_type r ≡ ok tt
    → decode_typed h (encode_route r ++ typed) ≡ ok (record { header = h; route = r; body = typed })
unfolding decode_typed
decode_typed-encode h r typed x other valid =
    let same = route_of-encode_route r typed x in
    let long = length-encode_route r typed in
    let rest : drop route_size (encode_route r ++ typed) ≡ typed = unfold encode_route in refl in
    rw (other, same, valid, rest) (ground (arith, long))

pub enveloped-ok :
    {A : Type 0} (result : Result WireV2.Error A) (a : A) → enveloped result ≡ ok a → result ≡ ok a
enveloped-ok (err cause) a h = cc
enveloped-ok (ok b) a h = ground arith

decode_verified :
    (a : AuthenticatedEnvelope)
    → a.verified ≡ true
    → decode_established a ≡ decode_typed a.envelope.header (body_of a)
unfolding decode_established
decode_verified a h = ground (arith, h)

module _ (mac : List ℕ → List ℕ → List ℕ) (key : List ℕ) where
  append_established-parts :
      (dst : List ℕ) (h : Header) (r : Route) (typed packet : List ℕ)
      → append_established mac dst h r typed key ≡ ok packet
      → (is_handshake h.packet_type ≡ false)
        × (validate_route h.packet_type r ≡ ok tt)
        × (append_envelope mac dst h (encode_route r ++ typed) key ≡ ok packet)
  unfolding append_established
  append_established-parts dst h r typed packet e =
      let (_, _, e1) =
        >>=-eq-ok (reject_if (all_zero key) (from_envelope WireV2.invalid_key)) _ e in
      let (_, other, e2) =
        >>=-eq-ok
          (reject_if (is_handshake h.packet_type) (from_envelope WireV2.unknown_packet_type)) _
          e1 in
      let (_, _, e3) =
        >>=-eq-ok
          (reject_if (ltb (max_body_size - route_size) (length typed))
            (from_envelope WireV2.packet_too_large))
          _ e2 in
      let (_, _, e4) =
        >>=-eq-ok (enveloped (validate_envelope h (route_size + length typed))) _ e3 in
      let (_, valid, e5) = >>=-eq-ok (validate_route h.packet_type r) _ e4 in
      (
        ground (arith, other),
        valid,
        enveloped-ok (append_envelope mac dst h (encode_route r ++ typed) key) packet e5,
      )

  -- What has passed when a packet is appended, and is enough for one to be.
  pub append_established-checks :
      (dst : List ℕ) (h : Header) (r : Route) (typed packet : List ℕ)
      → append_established mac dst h r typed key ≡ ok packet
      → (all_zero key ≡ false)
        × (validate_envelope h (route_size + length typed) ≡ ok tt)
        × (validate_route h.packet_type r ≡ ok tt)
  append_established-checks dst h r typed packet e =
      let (other, valid, appended) = append_established-parts dst h r typed packet e in
      let (k, v, _) =
        append_envelope-parts mac key dst h (encode_route r ++ typed) packet appended in
      (k, ap (validate_envelope h) (sym (length-encode_route r typed)) ∙ v, valid)

  pub append_established-computes :
      (dst : List ℕ) (h : Header) (r : Route) (typed : List ℕ)
      → all_zero key ≡ false
      → is_handshake h.packet_type ≡ false
      → length typed ≤ max_body_size - route_size
      → validate_envelope h (route_size + length typed) ≡ ok tt
      → validate_route h.packet_type r ≡ ok tt
      → (packet : List ℕ) × (append_established mac dst h r typed key ≡ ok packet)
  unfolding append_established
  append_established-computes dst h r typed k other fits v valid =
      let v' : validate_envelope h (length (encode_route r ++ typed)) ≡ ok tt =
        ap (validate_envelope h) (length-encode_route r typed) ∙ v in
      let framed = frame h (encode_route r ++ typed) in
      let made = append_envelope-computes mac key dst h (encode_route r ++ typed) k v' in
      (dst ++ (framed ++ mac key framed), rw (k, other, v, valid, made) (ground (arith, fits)))

  pub decode-append_routed :
      (h : Header) (r : Route) (typed packet : List ℕ)
      → HasTagSize mac
      → IsHeader h
      → IsRoute r
      → is_handshake h.packet_type ≡ false
      → validate_route h.packet_type r ≡ ok tt
      → append_envelope mac [] h (encode_route r ++ typed) key ≡ ok packet
      → (e : Envelope) × (a : AuthenticatedEnvelope) × (parse_envelope packet ≡ ok e)
        × (authenticate mac e key ≡ ok a)
        × (decode_established a ≡ ok (record { header = h; route = r; body = typed }))
  decode-append_routed h r typed packet size hd x other valid appended =
      let (e, a, parsed, authenticated, same_header, same_body) =
        parse-append mac key h (encode_route r ++ typed) packet size hd appended in
      let (_, whole, _) = authenticate-parts mac key e a authenticated in
      let verified : a.verified ≡ true = ap (λ (y : AuthenticatedEnvelope). y.verified) whole in
      (
        e,
        a,
        parsed,
        authenticated,
        decode_verified a verified
            ∙ (λ i. decode_typed (same_header i) (same_body i))
            ∙ decode_typed-encode h r typed x other valid,
      )

  -- With tags of 32 bytes: what `AppendEstablished` makes of a header, a route and a typed body is parsed, is
  -- authenticated under the same key, and is decoded to that header, route and body.
  pub decode-append_established :
      (h : Header) (r : Route) (typed packet : List ℕ)
      → HasTagSize mac
      → IsHeader h
      → IsRoute r
      → append_established mac [] h r typed key ≡ ok packet
      → (e : Envelope) × (a : AuthenticatedEnvelope) × (parse_envelope packet ≡ ok e)
        × (authenticate mac e key ≡ ok a)
        × (decode_established a ≡ ok (record { header = h; route = r; body = typed }))
  decode-append_established h r typed packet size hd x made =
      let (other, valid, appended) = append_established-parts [] h r typed packet made in
      decode-append_routed h r typed packet size hd x other valid appended
