-- ===== src/WireV2/RoundTrip.antt =====
-- internal/wirev2/envelope.go: `AppendEnvelope`, and `ParseEnvelope` with `Authenticate`, undo one another.
use mpudp.Prelude.{
  ℕ, ◌+◌, ◌-◌, ◌^◌, ◌≤◌, ◌<◌, ◌≡◌, refl, sym, ap, subst, ◌∙◌, List, [], ◌++◌, true, false, arith,
  length, drop, take, ok, All, IsByte, byte_at, slice, bytes_eq, bytes_eq_refl, bytes_eq→eq,
  all_zero, get16, take-append-drop, length-append, length-take, length-drop,
}
use mpudp.WireV2.{
  Header, Envelope, AuthenticatedEnvelope, header_of, body_of, validate_envelope, parse_envelope,
  authenticate, append_envelope, encode_prefix, prefix_size, authentication_tag_size,
  envelope_overhead, max_udp_payload, max_body_size, magic, version,
}
use mpudp.WireV2.Framing.{
  IsHeader, frame, length-frame, framed_size, framed_header, framed_part, framed_tag, framed_body,
  frame-header_of,
}

abbrev pub HasTagSize : (List ℕ → List ℕ → List ℕ) → Type 0
HasTagSize mac = (key bytes : List ℕ) → length (mac key bytes) ≡ authentication_tag_size

-- The facts that `parse_envelope` checks.
record IsParsed (d : List ℕ) (n : ℕ) : Type 0 where
  pub fits : length d ≤ max_udp_payload
  pub starts : bytes_eq (take 4 d) magic ≡ true
  pub versioned : byte_at d 4 ≡ version
  pub sized : get16 (drop 6 d) ≡ n
  pub whole : n + envelope_overhead ≡ length d
  pub valid : validate_envelope (header_of d) n ≡ ok tt

IsParsed-parse_envelope :
    (d : List ℕ) (n : ℕ)
    → IsParsed d n
    → parse_envelope d ≡ ok (record { packet = d; header = header_of d })
unfolding parse_envelope
IsParsed-parse_envelope d n x =
    ground (arith, x.fits, x.starts, x.versioned, x.sized, x.whole, x.valid)

parse_envelope-IsParsed :
    (d : List ℕ) (e : Envelope)
    → parse_envelope d ≡ ok e
    → (e ≡ record { packet = d; header = header_of d }) × IsParsed d (get16 (drop 6 d))
unfolding parse_envelope
parse_envelope-IsParsed d e h = (
  ground arith,
  record {
    fits = ground arith;
    starts = ground arith;
    versioned = ground arith;
    sized = refl;
    whole = ground arith;
    valid = ground arith;
  },
)

pub packet-parse_envelope : (d : List ℕ) (e : Envelope) → parse_envelope d ≡ ok e → e.packet ≡ d
packet-parse_envelope d e h =
    let (same, x) = parse_envelope-IsParsed d e h in ap (λ (y : Envelope). y.packet) same

validate_envelope-small : (h : Header) (n : ℕ) → validate_envelope h n ≡ ok tt → n ≤ max_body_size
unfolding validate_envelope
validate_envelope-small h n e = ground arith

body_of-verified :
    (d : List ℕ)
    → body_of (record { envelope = record { packet = d; header = header_of d }; verified = true })
      ≡ slice d prefix_size (length d - authentication_tag_size)
unfolding body_of
body_of-verified d = refl

module _ (mac : List ℕ → List ℕ → List ℕ) (key : List ℕ) where
  pub append_envelope-parts :
      (dst : List ℕ) (h : Header) (body packet : List ℕ)
      → append_envelope mac dst h body key ≡ ok packet
      → (all_zero key ≡ false)
        × (validate_envelope h (length body) ≡ ok tt)
        × (packet ≡ dst ++ (frame h body ++ mac key (frame h body)))
  unfolding append_envelope
  append_envelope-parts dst h body packet e = (ground arith, ground arith, ground arith)

  pub append_envelope-computes :
      (dst : List ℕ) (h : Header) (body : List ℕ)
      → all_zero key ≡ false
      → validate_envelope h (length body) ≡ ok tt
      → append_envelope mac dst h body key ≡ ok (dst ++ (frame h body ++ mac key (frame h body)))
  unfolding append_envelope
  append_envelope-computes dst h body k v = ground arith

  authenticate-computes :
      (e : Envelope) (n : ℕ)
      → all_zero key ≡ false
      → length e.packet ≡ n + envelope_overhead
      → bytes_eq (mac key (take (prefix_size + n) e.packet)) (drop (prefix_size + n) e.packet)
        ≡ true
      → authenticate mac e key ≡ ok (record { envelope = e; verified = true })
  unfolding authenticate
  authenticate-computes e n k l t =
      let off : length e.packet - authentication_tag_size ≡ prefix_size + n = omega arith in
      rw (k, off) (ground arith)

  pub authenticate-parts :
      (e : Envelope) (a : AuthenticatedEnvelope)
      → authenticate mac e key ≡ ok a
      → (all_zero key ≡ false)
        × (a ≡ record { envelope = e; verified = true })
        × (let off = length e.packet - authentication_tag_size in
            bytes_eq (mac key (take off e.packet)) (drop off e.packet) ≡ true)
  unfolding authenticate
  authenticate-parts e a h = (ground arith, ground arith, ground arith)

  pub length-append_envelope :
      (h : Header) (body packet : List ℕ)
      → HasTagSize mac
      → IsHeader h
      → append_envelope mac [] h body key ≡ ok packet
      → length packet ≡ length body + envelope_overhead
  length-append_envelope h body packet size r made =
      let (k, v, same) = append_envelope-parts [] h body packet made in
      let tag = mac key (frame h body) in
      let small : length body < 2 ^ 16 = omega (arith, validate_envelope-small h (length body) v) in
      omega (
        arith,
        ap length same,
        length-append (frame h body) tag,
        length-frame h body tag r small,
        size key (frame h body),
      )

  -- With tags of 32 bytes: what `AppendEnvelope` makes of a header and a body is parsed, and is
  -- authenticated under the same key, to that header and that body.
  pub parse-append :
      (h : Header) (body packet : List ℕ)
      → HasTagSize mac
      → IsHeader h
      → append_envelope mac [] h body key ≡ ok packet
      → (e : Envelope) × (a : AuthenticatedEnvelope) × (parse_envelope packet ≡ ok e)
        × (authenticate mac e key ≡ ok a)
        × (a.envelope.header ≡ h)
        × (body_of a ≡ body)
  unfolding body_of
  parse-append h body packet size r made =
      let (k, v, same) = append_envelope-parts [] h body packet made in
      let tag = mac key (frame h body) in
      let d = frame h body ++ tag in
      let small : length body < 2 ^ 16 = omega (arith, validate_envelope-small h (length body) v) in
      let len : length d ≡ length body + envelope_overhead = omega (
        arith,
        length-append (frame h body) tag,
        length-frame h body tag r small,
        size key (frame h body),
      ) in
      let head = framed_header h body tag r small in
      let e : Envelope = record { packet = d; header = header_of d } in
      let p : IsParsed d (length body) = record {
        fits = omega (arith, len, validate_envelope-small h (length body) v);
        starts = unfold encode_prefix in refl;
        versioned = unfold encode_prefix in refl;
        sized = framed_size h body tag r small;
        whole = sym len;
        valid = rw head v;
      } in
      let tagged : bytes_eq (mac key (take (prefix_size + length body) d))
            (drop (prefix_size + length body) d)
          ≡ true =
        rw (framed_part h body tag r small, framed_tag h body tag r small) (bytes_eq_refl tag) in
      let end : length d - authentication_tag_size ≡ prefix_size + length body = omega arith in
      (
        e,
        record { envelope = e; verified = true },
        ap parse_envelope same ∙ IsParsed-parse_envelope d (length body) p,
        authenticate-computes e (length body) k len tagged,
        head,
        ap (λ (n : ℕ). slice d prefix_size n) end ∙ framed_body h body tag r small,
      )

  parsed-append :
      (dst d : List ℕ) (n : ℕ)
      → All IsByte d
      → IsParsed d n
      → all_zero key ≡ false
      → bytes_eq (mac key (take (prefix_size + n) d)) (drop (prefix_size + n) d) ≡ true
      → append_envelope mac dst (header_of d) (slice d prefix_size (prefix_size + n)) key
        ≡ ok (dst ++ d)
  parsed-append dst d n r x k tagged =
      let body = slice d prefix_size (prefix_size + n) in
      let len : length body ≡ n =
        omega (arith, x.whole, length-drop 24 (take (24 + n) d), length-take (24 + n) d) in
      let built : frame (header_of d) body ≡ take (24 + n) d =
        ap (λ (m : ℕ). encode_prefix (header_of d) m ++ body) len
        ∙ frame-header_of d n (omega (arith, x.whole)) r x.starts x.versioned x.sized in
      let signed : frame (header_of d) body ++ mac key (frame (header_of d) body) ≡ d =
        ap (λ (y : List ℕ). y ++ mac key y) built
        ∙ ap (λ (y : List ℕ). take (24 + n) d ++ y)
            (bytes_eq→eq (mac key (take (24 + n) d)) (drop (24 + n) d) tagged)
        ∙ take-append-drop (24 + n) d in
      append_envelope-computes dst (header_of d) body k
        (ap (validate_envelope (header_of d)) len ∙ x.valid)
      ∙ ap (λ (y : List ℕ). ok (dst ++ y)) signed

  -- A datagram of bytes that is parsed, and authenticated under a key, is byte for byte what
  -- `AppendEnvelope` makes of its header and its body under that key.
  pub append-parse :
      (dst d : List ℕ) (e : Envelope) (a : AuthenticatedEnvelope)
      → All IsByte d
      → parse_envelope d ≡ ok e
      → authenticate mac e key ≡ ok a
      → append_envelope mac dst a.envelope.header (body_of a) key ≡ ok (dst ++ d)
  append-parse dst d e a r p q =
      let (same, x) = parse_envelope-IsParsed d e p in
      let (k, verified, tagged) = authenticate-parts e a q in
      let n = get16 (drop 6 d) in
      let whole : a
          ≡ record { envelope = record { packet = d; header = header_of d }; verified = true } =
        verified ∙ ap (λ (y : Envelope). record { envelope = y; verified = true }) same in
      let end : length d - authentication_tag_size ≡ prefix_size + n = omega (arith, x.whole) in
      let body : body_of a ≡ slice d prefix_size (prefix_size + n) =
        ap body_of whole ∙ body_of-verified d ∙ ap (slice d prefix_size) end in
      let tagged' : bytes_eq (mac key (take (prefix_size + n) d)) (drop (prefix_size + n) d)
          ≡ true =
        subst (λ (m : ℕ). bytes_eq (mac key (take m d)) (drop m d) ≡ true) end
          (subst
            (λ (y : Envelope).
              let off = length y.packet - authentication_tag_size in
              bytes_eq (mac key (take off y.packet)) (drop off y.packet) ≡ true)
            same tagged) in
      ap (λ (y : AuthenticatedEnvelope). append_envelope mac dst y.envelope.header (body_of a) key)
        whole
      ∙ ap (λ (b : List ℕ). append_envelope mac dst (header_of d) b key) body
      ∙ parsed-append dst d n r x k tagged'
