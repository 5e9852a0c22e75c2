-- ===== src/WireV2/Framing.antt =====
-- internal/wirev2/envelope.go: the prefix and the tag around a body.
use mpudp.Prelude.{
  ℕ, ◌+◌, ◌^◌, ◌≤◌, ◌<◌, ◌≡◌, sym, ap, ◌∙◌, List, ◌∷◌, ◌++◌, true, arith, length, drop, take,
  append_assoc, All, IsByte, byte_at, slice, bytes_eq, get16, put16, length-append, get16-put16,
  take-append_exact, drop-append_exact, take-append-slice,
}
use mpudp.WireV2.{Header, header_of, encode_prefix, prefix_size, magic, version}

-- The values that the Go types can hold.
pub record IsHeader (h : Header) : Type 0 where
  pub type_range : h.packet_type < 2 ^ 8
  pub id_size : length h.session_id ≡ 16

-- The bytes that the tag covers.
abbrev pub frame : Header → List ℕ → List ℕ
frame h body = encode_prefix h (length body) ++ body

module _ (h : Header) (body tag : List ℕ) (r : IsHeader h) (small : length body < 2 ^ 16) where
  pub length-frame : length (frame h body) ≡ prefix_size + length body
  unfolding encode_prefix
  length-frame = omega (arith, length-append h.session_id body, r.id_size)

  pub framed_size : get16 (drop 6 (frame h body ++ tag)) ≡ length body
  unfolding encode_prefix
  framed_size = get16-put16 (length body) ((h.session_id ++ body) ++ tag) small

  framed_id : slice (frame h body ++ tag) 8 24 ≡ h.session_id
  unfolding encode_prefix
  framed_id = rw append_assoc (take-append_exact h.session_id (body ++ tag) 16 r.id_size)

  pub framed_header : header_of (frame h body ++ tag) ≡ h
  unfolding encode_prefix
  framed_header = ap (λ (id : List ℕ). record h { session_id = id }) framed_id

  pub framed_part : take (prefix_size + length body) (frame h body ++ tag) ≡ frame h body
  framed_part = take-append_exact (frame h body) tag _ length-frame

  pub framed_tag : drop (prefix_size + length body) (frame h body ++ tag) ≡ tag
  framed_tag = drop-append_exact (frame h body) tag _ length-frame

  pub framed_body : slice (frame h body ++ tag) prefix_size (prefix_size + length body) ≡ body
  unfolding encode_prefix
  framed_body = rw framed_part (drop-append_exact h.session_id body 16 r.id_size)

first_eight :
    (d : List ℕ) (n : ℕ)
    → 24 ≤ length d
    → All IsByte d
    → bytes_eq (take 4 d) magic ≡ true
    → byte_at d 4 ≡ version
    → get16 (drop 6 d) ≡ n
    → take 8 d ≡ magic ++ (version ∷ byte_at d 5 ∷ put16 n)
first_eight (a ∷ b ∷ c ∷ e ∷ v ∷ t ∷ s ∷ s' ∷ rest) n l r m ve z = ground arith
first_eight _ n l r m ve z = ground arith

-- The prefix and the body of a datagram, put together again.
pub frame-header_of :
    (d : List ℕ) (n : ℕ)
    → 24 ≤ length d
    → All IsByte d
    → bytes_eq (take 4 d) magic ≡ true
    → byte_at d 4 ≡ version
    → get16 (drop 6 d) ≡ n
    → encode_prefix (header_of d) n ++ slice d 24 (24 + n) ≡ take (24 + n) d
unfolding encode_prefix
frame-header_of d n l r m v z =
    ap (λ (x : List ℕ). x ++ slice d 24 (24 + n))
      (ap (λ (x : List ℕ). x ++ slice d 8 24) (sym (first_eight d n l r m v z))
        ∙ take-append-slice 8 24 d (omega arith))
    ∙ take-append-slice 24 (24 + n) d (omega arith)
