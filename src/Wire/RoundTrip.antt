-- ===== src/Wire/RoundTrip.antt =====
-- internal/wire/codec.go: `AppendAuthenticated` and `DecodeAuthenticated` undo one another.
use mpudp.Prelude.{
  ℕ, ◌+◌, ◌-◌, ◌^◌, ◌≤◌, ◌<◌, ◌≡◌, ◌≢◌, ap, List, [], ◌∷◌, ◌++◌, true, false, arith, length, some,
  Result, ok, All, IsByte, length-append, Result-cases, inl, inr, all_zero,
}
use mpudp.Wire.Types.{
  Message, Header, IsMessage, Error, known_packet_type, min_udp_payload, max_udp_payload,
  prefix_size, authentication_tag_size,
}
use mpudp.Wire.Codec.{
  validate_message, validate_budget, validate_body, encoded_len, body_size, encode_body,
  decode_body, append_authenticated, decode_authenticated, decode_and_dispatch, open_packet,
}
use mpudp.Wire.Body.{length-encode_body, decode_body-encode_body, encode_body-decode_body}
use mpudp.Wire.Envelope.{frame, IsOpen, open-sealed, open_packet_parts, length-sealed}

-- The tests that `append_authenticated` makes.
pub record IsSendable (m : Message) (psk : List ℕ) (budget : ℕ) : Type 0 where
  pub keyed : length psk ≢ 0
  pub budget_low : min_udp_payload ≤ budget
  pub budget_high : budget ≤ max_udp_payload
  pub valid : validate_message m ≡ ok tt
  pub fits : prefix_size + body_size m + authentication_tag_size ≤ budget

validate_message-parts :
    (m : Message)
    → validate_message m ≡ ok tt
    → (all_zero m.header.session_id ≡ false)
      × (known_packet_type m.header.packet_type ≡ true)
      × (validate_body m ≡ ok tt)
unfolding validate_message
validate_message-parts m e = ground arith

module _ (mac : List ℕ → List ℕ → List ℕ) (psk dst : List ℕ) (m : Message) (budget : ℕ) where
  abbrev pub sealed : List ℕ
  sealed = let f = frame m.header (encode_body m) in f ++ mac psk f

  pub IsSendable-append :
      IsSendable m psk budget → append_authenticated mac dst m psk budget ≡ ok (dst ++ sealed)
  unfolding append_authenticated validate_budget encoded_len
  IsSendable-append s = ground (arith, length-encode_body m)

  append-IsSendable :
      (out : List ℕ) → append_authenticated mac dst m psk budget ≡ ok out → IsSendable m psk budget
  unfolding append_authenticated validate_budget encoded_len
  append-IsSendable out e = ground (arith)

-- HMAC-SHA-256 tags have 32 bytes.
abbrev pub HasTagSize : (List ℕ → List ℕ → List ℕ) → Type 0
HasTagSize mac = (key bytes : List ℕ) → length (mac key bytes) ≡ authentication_tag_size

decode-parts :
    (mac : List ℕ → List ℕ → List ℕ) (d psk : List ℕ) (limit : ℕ) (m : Message)
    → decode_authenticated mac d psk limit ≡ ok m
    → (h : Header) × (body : List ℕ) × (open_packet mac d psk limit ≡ ok (h, body))
      × (decode_body h body ≡ ok m)
      × (validate_message m ≡ ok tt)
unfolding decode_authenticated
decode-parts mac d psk limit m e = elim (Result-cases (open_packet mac d psk limit)) [
  | inl ((h, body), o) ↦ (h, body, o, ground arith, ground arith)
  | inr (x, o) ↦ cc
]

module _ (mac : List ℕ → List ℕ → List ℕ) (psk : List ℕ) (m : Message) where
  -- With tags of 32 bytes: what `append_authenticated` adds for a message, within its budget, is
  -- decoded to that message under the same key and any valid receive limit that is no smaller.
  pub decode-append :
      (budget limit : ℕ) (packet : List ℕ)
      → HasTagSize mac
      → IsMessage m
      → budget ≤ limit
      → limit ≤ max_udp_payload
      → append_authenticated mac [] m psk budget ≡ ok packet
      → decode_authenticated mac packet psk limit ≡ ok m
  unfolding decode_authenticated
  decode-append budget limit packet size r le hi e =
      let s = append-IsSendable mac psk [] m budget packet e in
      let (nz, kn, vb) = validate_message-parts m s.valid in
      let lb = length-encode_body m in
      let o : IsOpen psk limit m.header (encode_body m) = record {
        keyed = s.keyed;
        limit_low = omega (arith, s.budget_low);
        limit_high = hi;
        known = kn;
        nonzero = nz;
        fits = omega (arith, s.fits, lb);
      } in
      let same : packet ≡ sealed mac psk [] m budget =
        cc (e, IsSendable-append mac psk [] m budget s) in
      rw (
        same,
        open-sealed mac psk limit m.header (encode_body m) r.header o (size _ _),
        decode_body-encode_body m r vb,
        s.valid,
      )

  -- A datagram of bytes that `decode_authenticated` accepts is byte for byte what
  -- `append_authenticated` adds, under the receive limit, for the message that it returns.
  pub append-decode :
      (limit : ℕ) (dst d : List ℕ)
      → All IsByte d
      → decode_authenticated mac d psk limit ≡ ok m
      → append_authenticated mac dst m psk limit ≡ ok (dst ++ d)
  append-decode limit dst d r e =
      let (h, body, o, b, v) = decode-parts mac d psk limit m e in
      let (hr, br, io, same) = open_packet_parts mac psk limit d h body r o in
      let (eh, eb) = encode_body-decode_body h body m br b in
      let s : IsSendable m psk limit = record {
        keyed = io.keyed;
        budget_low = io.limit_low;
        budget_high = io.limit_high;
        valid = v;
        fits = omega (arith, io.fits, ap length eb, length-encode_body m);
      } in
      cc (IsSendable-append mac psk dst m limit s, same, eh, eb)

  -- With tags of 32 bytes: `append_authenticated` adds exactly `encoded_len` bytes to `dst`, at
  -- least one, and no more than its budget.
  pub length-append_authenticated :
      (dst out : List ℕ) (budget : ℕ)
      → HasTagSize mac
      → IsMessage m
      → append_authenticated mac dst m psk budget ≡ ok out
      → (encoded_len m ≡ ok (length out - length dst))
        × (length dst < length out)
        × (length out ≤ length dst + budget)
  unfolding encoded_len
  length-append_authenticated dst out budget size r e =
      let s = append-IsSendable mac psk dst m budget out e in
      let same : out ≡ dst ++ sealed mac psk dst m budget =
        cc (e, IsSendable-append mac psk dst m budget s) in
      let f = frame m.header (encode_body m) in
      let lb = length-encode_body m in
      let small : length (encode_body m) < 2 ^ 16 = omega (arith, lb, s.fits, s.budget_high) in
      let lf = length-sealed m.header (encode_body m) (mac psk f) r.header small (size psk f) in
      let total : length out ≡ length dst + (prefix_size + body_size m + authentication_tag_size) =
        omega (arith, ap length same, length-append dst (sealed mac psk dst m budget), lf, lb) in
      (
        ground (arith, total, s.valid, s.fits, s.budget_high),
        omega (arith, total),
        omega (arith, total, s.fits),
      )

-- If the handler is called at all, it is called once, its answer is the result, and the datagram
-- is byte for byte the authenticated encoding of the message that it was called on.
pub decode_and_dispatch_calls :
    (mac : List ℕ → List ℕ → List ℕ) (d psk : List ℕ) (limit : ℕ)
    (handler : Message → Result Error (Unit {0})) (m : Message) (ms : List Message)
    (r : Result Error (Unit {0}))
    → All IsByte d
    → decode_and_dispatch mac d psk limit (some handler) ≡ (m ∷ ms, r)
    → (ms ≡ []) × (r ≡ handler m) × (append_authenticated mac [] m psk limit ≡ ok d)
unfolding decode_and_dispatch
decode_and_dispatch_calls mac d psk limit handler m ms r bytes e =
    elim (Result-cases (decode_authenticated mac d psk limit)) [
      | inl (m', o) ↦
          let same : m' ≡ m = ground arith in
          (ground arith, ground arith, append-decode mac psk m limit [] d bytes (cc (o, same)))
      | inr (x, o) ↦ ground arith
    ]
