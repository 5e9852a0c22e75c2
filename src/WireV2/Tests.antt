-- ===== src/WireV2/Tests.antt =====
-- internal/wirev2/envelope.go: the theorems at a concrete packet.
use mpudp.Prelude.{
  ℕ, ◌+◌, ◌*◌, ◌%◌, ◌≡◌, refl, List, [], ◌∷◌, ◌++◌, true, length, ok, err, put64, arith, replicate,
}
use mpudp.WireV2.{
  Header, Envelope, AuthenticatedEnvelope, malformed, body_of, validate_envelope, parse_envelope,
  authenticate, append_envelope, encode_prefix,
}
use mpudp.WireV2.Framing.{IsHeader}
use mpudp.WireV2.RoundTrip.{HasTagSize, parse-append, append-parse}

-- A stand-in for HMAC-SHA-256.
abbrev mixed : List ℕ → ℕ
mixed [] = 3
mixed (b ∷ bs) = (b + 17 * mixed bs) % 65536

abbrev tag : List ℕ → List ℕ → List ℕ
tag key bytes =
    put64 (mixed bytes)
    ++ (put64 (mixed key) ++ (put64 (length bytes) ++ put64 (mixed (key ++ bytes))))

tag-HasTagSize : HasTagSize tag
tag-HasTagSize key bytes = refl

abbrev key : List ℕ
key = replicate 32 7

abbrev close_header : Header
close_header = record { packet_type = 63; session_id = replicate 16 5 }

abbrev close_body : List ℕ
close_body = replicate 16 1

abbrev signed_part : List ℕ
signed_part = b'M' ∷ b'P' ∷ b'U' ∷ b'D' ∷ 2 ∷ 63 ∷ 0 ∷ 16 ∷ (replicate 16 5 ++ close_body)

abbrev close_packet : List ℕ
close_packet = signed_part ++ tag key signed_part

abbrev close_envelope : Envelope
close_envelope = record { packet = close_packet; header = close_header }

abbrev close_authenticated : AuthenticatedEnvelope
close_authenticated = record { envelope = close_envelope; verified = true }

appended : append_envelope tag [] close_header close_body key ≡ ok close_packet
unfolding append_envelope validate_envelope encode_prefix
appended = refl

parsed : parse_envelope close_packet ≡ ok close_envelope
unfolding parse_envelope validate_envelope
parsed = refl

authenticated : authenticate tag close_envelope key ≡ ok close_authenticated
unfolding authenticate
authenticated = refl

body_read : body_of close_authenticated ≡ close_body
unfolding body_of
body_read = refl

too_short : append_envelope tag [] close_header [] key ≡ err malformed
unfolding append_envelope validate_envelope
too_short = refl

close_header-IsHeader : IsHeader close_header
close_header-IsHeader = record { type_range = omega arith; id_size = refl }

parse-append_example :
    (e : Envelope) × (a : AuthenticatedEnvelope) × (parse_envelope close_packet ≡ ok e)
    × (authenticate tag e key ≡ ok a)
    × (a.envelope.header ≡ close_header)
    × (body_of a ≡ close_body)
parse-append_example =
    parse-append tag key close_header close_body close_packet tag-HasTagSize close_header-IsHeader
      appended

append-parse_example :
    append_envelope tag (8 ∷ []) close_header (body_of close_authenticated) key
    ≡ ok (8 ∷ close_packet)
append-parse_example =
    append-parse tag key (8 ∷ []) close_packet close_envelope close_authenticated (ground arith)
      parsed authenticated
