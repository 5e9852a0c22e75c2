-- ===== src/Wire/Envelope.antt =====
-- internal/wire/codec.go: the prefix and the tag around a body.
use mpudp.Prelude.{
  ℕ, ◌+◌, ◌^◌, ◌≤◌, ◌<◌, ◌≡◌, ◌≢◌, refl, sym, ap, ◌∙◌, List, [], ◌∷◌, ◌++◌, true, false, arith,
  length, drop, take, append_assoc, ok, All, IsByte, byte_at, slice, bytes_eq, all_zero, get16,
  put16, length-append, get16-put16, take-append_exact, drop-append_exact, take-append-slice,
  take-append-drop, bytes_eq_refl, bytes_eq→eq, All-take, All-drop, byte_at-IsByte, length-take,
  length-drop,
}
use mpudp.Wire.Types.{
  Header, IsHeader, known_packet_type, min_udp_payload, max_udp_payload, prefix_size,
  authentication_tag_size, version,
}
use mpudp.Wire.Codec.{encode_prefix, open_packet, check_size, check_prefix, check_tag}

-- The bytes that the tag covers.
abbrev pub frame : Header → List ℕ → List ℕ
frame h body = encode_prefix h (length body) ++ body

module _ (h : Header) (body tag : List ℕ) (r : IsHeader h) (small : length body < 2 ^ 16) where
  pub length-frame : length (frame h body) ≡ prefix_size + length body
  unfolding encode_prefix
  length-frame = omega (arith, length-append h.session_id body, r.id_size)

  pub length-sealed :
      length tag ≡ authentication_tag_size
      → length (frame h body ++ tag) ≡ prefix_size + length body + authentication_tag_size
  length-sealed t = omega (arith, length-append (frame h body) tag, length-frame)

  sealed_size : get16 (drop 6 (frame h body ++ tag)) ≡ length body
  unfolding encode_prefix
  sealed_size = get16-put16 (length body) ((h.session_id ++ body) ++ tag) small

  sealed_id : slice (frame h body ++ tag) 8 24 ≡ h.session_id
  unfolding encode_prefix
  sealed_id = rw append_assoc (take-append_exact h.session_id (body ++ tag) 16 r.id_size)

  sealed_frame : take (prefix_size + length body) (frame h body ++ tag) ≡ frame h body
  sealed_frame = take-append_exact (frame h body) tag _ length-frame

  sealed_tag : drop (prefix_size + length body) (frame h body ++ tag) ≡ tag
  sealed_tag = drop-append_exact (frame h body) tag _ length-frame

  sealed_body : slice (frame h body ++ tag) prefix_size (prefix_size + length body) ≡ body
  unfolding encode_prefix
  sealed_body = rw sealed_frame (drop-append_exact h.session_id body 16 r.id_size)

-- What `open_packet` checks of a header and a body that it returns.
pub record IsOpen (psk : List ℕ) (limit : ℕ) (h : Header) (body : List ℕ) : Type 0 where
  pub keyed : length psk ≢ 0
  pub limit_low : min_udp_payload ≤ limit
  pub limit_high : limit ≤ max_udp_payload
  pub known : known_packet_type h.packet_type ≡ true
  pub nonzero : all_zero h.session_id ≡ false
  pub fits : prefix_size + length body + authentication_tag_size ≤ limit

-- The tests of `open_packet` as facts about the datagram `d` and its body's size `n`.
pub record IsShaped (d psk : List ℕ) (limit n : ℕ) : Type 0 where
  pub keyed : length psk ≢ 0
  pub limit_low : min_udp_payload ≤ limit
  pub limit_high : limit ≤ max_udp_payload
  pub fits : length d ≤ limit
  pub magic : bytes_eq (take 4 d) (b'M' ∷ b'P' ∷ b'U' ∷ b'D' ∷ []) ≡ true
  pub versioned : byte_at d 4 ≡ version
  pub known : known_packet_type (byte_at d 5) ≡ true
  pub sized : get16 (drop 6 d) ≡ n
  pub whole : prefix_size + n + authentication_tag_size ≡ length d
  pub nonzero : all_zero (slice d 8 24) ≡ false

abbrev pub header_of : List ℕ → Header
header_of d = record { packet_type = byte_at d 5; session_id = slice d 8 24 }

module _ (d psk : List ℕ) (limit n : ℕ) where
  IsShaped-check_size : IsShaped d psk limit n → check_size d psk limit ≡ ok tt
  unfolding check_size
  IsShaped-check_size s = ground arith

  IsShaped-check_prefix : IsShaped d psk limit n → check_prefix d ≡ ok tt
  unfolding check_prefix
  IsShaped-check_prefix s = ground arith

check_size-IsSized :
    (d psk : List ℕ) (limit : ℕ)
    → check_size d psk limit ≡ ok tt
    → (length psk ≢ 0) × (min_udp_payload ≤ limit) × (limit ≤ max_udp_payload) × (length d ≤ limit)
unfolding check_size
check_size-IsSized d psk limit e = ground arith

check_prefix-IsKnown :
    (d : List ℕ)
    → check_prefix d ≡ ok tt
    → (bytes_eq (take 4 d) (b'M' ∷ b'P' ∷ b'U' ∷ b'D' ∷ []) ≡ true)
      × (byte_at d 4 ≡ version)
      × (known_packet_type (byte_at d 5) ≡ true)
unfolding check_prefix
check_prefix-IsKnown d e = ground arith

module _ (mac : List ℕ → List ℕ → List ℕ) (psk : List ℕ) (limit : ℕ) where
  IsShaped-check_tag :
      (d : List ℕ) (n : ℕ)
      → IsShaped d psk limit n
      → bytes_eq (mac psk (take (prefix_size + n) d)) (drop (prefix_size + n) d) ≡ true
      → check_tag mac d psk ≡ ok (header_of d, slice d prefix_size (prefix_size + n))
  unfolding check_tag
  IsShaped-check_tag d n s t = ground arith

  check_tag-IsTagged :
      (d : List ℕ) (h : Header) (body : List ℕ)
      → check_tag mac d psk ≡ ok (h, body)
      → let n = get16 (drop 6 d) in
        (prefix_size + n + authentication_tag_size ≡ length d)
        × (all_zero (slice d 8 24) ≡ false)
        × (bytes_eq (mac psk (take (prefix_size + n) d)) (drop (prefix_size + n) d) ≡ true)
        × (h ≡ header_of d)
        × (body ≡ slice d prefix_size (prefix_size + n))
  unfolding check_tag
  check_tag-IsTagged d h body e = ground arith

  open_packet-passes :
      (d : List ℕ) (h : Header) (body : List ℕ)
      → open_packet mac d psk limit ≡ ok (h, body)
      → (check_size d psk limit ≡ ok tt)
        × (check_prefix d ≡ ok tt)
        × (check_tag mac d psk ≡ ok (h, body))
  unfolding open_packet
  open_packet-passes d h body e = ground arith

  sealed-IsShaped :
      (h : Header) (body tag : List ℕ)
      → IsHeader h
      → IsOpen psk limit h body
      → length tag ≡ authentication_tag_size
      → IsShaped (frame h body ++ tag) psk limit (length body)
  unfolding encode_prefix
  sealed-IsShaped h body tag r o t =
      let small : length body < 2 ^ 16 = omega (arith, o.fits, o.limit_high) in
      let size = length-sealed h body tag r small t in
      record {
        keyed = o.keyed;
        limit_low = o.limit_low;
        limit_high = o.limit_high;
        fits = omega (arith, size, o.fits);
        magic = refl;
        versioned = refl;
        known = o.known;
        sized = sealed_size h body tag r small;
        whole = sym size;
        nonzero = rw (sealed_id h body tag r small) o.nonzero;
      }

  pub open-sealed :
      (h : Header) (body : List ℕ)
      → IsHeader h
      → IsOpen psk limit h body
      → length (mac psk (frame h body)) ≡ authentication_tag_size
      → open_packet mac (frame h body ++ mac psk (frame h body)) psk limit ≡ ok (h, body)
  unfolding open_packet
  open-sealed h body r o t =
      let tag = mac psk (frame h body) in
      let small : length body < 2 ^ 16 = omega (arith, o.fits, o.limit_high) in
      let d = frame h body ++ tag in
      let s = sealed-IsShaped h body tag r o t in
      let matches : bytes_eq (mac psk (take (prefix_size + length body) d))
            (drop (prefix_size + length body) d)
          ≡ true =
        rw (sealed_frame h body tag r small, sealed_tag h body tag r small) (bytes_eq_refl tag) in
      rw
        (
          IsShaped-check_size d psk limit _ s,
          IsShaped-check_prefix d psk limit _ s,
          IsShaped-check_tag d _ s matches,
          sealed_body h body tag r small,
          sealed_id h body tag r small,
        )
        (unfold encode_prefix in refl)

first_eight :
    (d : List ℕ) (n : ℕ)
    → 24 ≤ length d
    → All IsByte d
    → bytes_eq (take 4 d) (b'M' ∷ b'P' ∷ b'U' ∷ b'D' ∷ []) ≡ true
    → byte_at d 4 ≡ version
    → get16 (drop 6 d) ≡ n
    → take 8 d ≡ b'M' ∷ b'P' ∷ b'U' ∷ b'D' ∷ version ∷ byte_at d 5 ∷ put16 n
first_eight (a ∷ b ∷ c ∷ e ∷ v ∷ t ∷ s ∷ s' ∷ rest) n l r m ve z = ground arith
first_eight _ n l r m ve z = ground arith

-- The prefix and the body, put together again.
rebuild :
    (d : List ℕ) (n : ℕ)
    → 24 ≤ length d
    → take 8 d ≡ b'M' ∷ b'P' ∷ b'U' ∷ b'D' ∷ version ∷ byte_at d 5 ∷ put16 n
    → encode_prefix (header_of d) n ++ slice d 24 (24 + n) ≡ take (24 + n) d
unfolding encode_prefix
rebuild d n l e =
    ap (λ (x : List ℕ). x ++ slice d 24 (24 + n))
      (ap (λ (x : List ℕ). x ++ slice d 8 24) (sym e) ∙ take-append-slice 8 24 d (omega arith))
    ∙ take-append-slice 24 (24 + n) d (omega arith)

module _ (mac : List ℕ → List ℕ → List ℕ) (psk : List ℕ) (limit : ℕ) where
  -- A datagram that `open_packet` accepts is the frame of what it returns, under the frame's tag.
  pub open_packet_parts :
      (d : List ℕ) (h : Header) (body : List ℕ)
      → All IsByte d
      → open_packet mac d psk limit ≡ ok (h, body)
      → IsHeader h
        × All IsByte body
        × IsOpen psk limit h body
        × (d ≡ frame h body ++ mac psk (frame h body))
  open_packet_parts d h body r e =
      let (es, ep, et) = open_packet-passes mac psk limit d h body e in
      let (k, lo, hi, fit) = check_size-IsSized d psk limit es in
      let (mg, ve, kn) = check_prefix-IsKnown d ep in
      let (wh, nz, tg, eh, eb) = check_tag-IsTagged mac psk limit d h body et in
      let n = get16 (drop 6 d) in
      let l : 24 ≤ length d = omega arith in
      let nb : n ≡ length body =
        omega (arith, ap length eb, length-drop 24 (take (24 + n) d), length-take (24 + n) d) in
      let fr : frame h body ≡ take (24 + n) d =
        cc (rebuild d n l (first_eight d n l r mg ve refl), eh, eb, nb) in
      let header : IsHeader h = rw eh (record {
        type_range = byte_at-IsByte d 5 r;
        id_size = omega (arith, length-drop 8 (take 24 d), length-take 24 d);
        id_bytes = All-drop IsByte 8 (take 24 d) (All-take IsByte 24 d r);
      }) in
      let bytes : All IsByte body =
        rw eb (All-drop IsByte 24 (take (24 + n) d) (All-take IsByte (24 + n) d r)) in
      let opened : IsOpen psk limit h body = record {
        keyed = k;
        limit_low = lo;
        limit_high = hi;
        known = rw eh kn;
        nonzero = rw eh nz;
        fits = omega arith;
      } in
      (
        header,
        bytes,
        opened,
        cc (
          fr,
          bytes_eq→eq (mac psk (take (24 + n) d)) (drop (24 + n) d) tg,
          take-append-drop (24 + n) d,
        ),
      )
