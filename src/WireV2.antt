-- ===== src/WireV2.antt =====
-- internal/wirev2: constants.go, errors.go, types.go and envelope.go, the authenticated v2 envelope.
-- `mac key bytes` stands for HMAC-SHA-256 of crypto/hmac. A `Key` is its 32 bytes. The path with an
-- `Authenticator` resets its HMAC state before each use, so it computes the same tag.
pub mod Framing
pub mod RoundTrip
pub mod Context
pub mod Bundle
pub mod Established
mod Tests
use mpudp.Prelude.{
  ℕ, ◌+◌, ◌-◌, List, [], ◌∷◌, ◌++◌, Bool, true, false, not, ◌&&◌, ◌||◌, ◌==◌, ltb, leb,
  if◌then◌else◌, length, take, drop, Result, ok, err, ◌>>=◌, ◌>>◌, reject_if, byte_at, slice,
  bytes_eq, all_zero, put16, get16,
}

abbrev pub version : ℕ
version = 2

abbrev pub prefix_size : ℕ
prefix_size = 24

abbrev pub authentication_tag_size : ℕ
authentication_tag_size = 32

abbrev pub envelope_overhead : ℕ
envelope_overhead = prefix_size + authentication_tag_size

abbrev pub route_size : ℕ
route_size = 16

abbrev pub max_udp_payload : ℕ
max_udp_payload = 65507

abbrev pub max_body_size : ℕ
max_body_size = max_udp_payload - envelope_overhead

abbrev pub handshake_body_size : ℕ
handshake_body_size = 512 - envelope_overhead

abbrev pub magic : List ℕ
magic = b'M' ∷ b'P' ∷ b'U' ∷ b'D' ∷ []

pub data Error : Type 0 where
  malformed unsupported_version unknown_packet_type authentication_failed : Error
  invalid_session_id packet_too_large invalid_key invalid_tlv required_tlv transcript_mismatch :
      Error

-- `TypeHello` to `TypeReject`.
abbrev pub is_handshake : ℕ → Bool
is_handshake t = leb 1 t && leb t 5

-- And the ranges `TypePathJoin` to `TypeEncodingContextAck`, `TypeFECBundle` to
-- `TypeDatagramExpired`, `TypeKCPBundle` and `TypeClose`.
abbrev pub known_packet_type : ℕ → Bool
known_packet_type t =
    is_handshake t || (leb 16 t && leb t 28) || (leb 32 t && leb t 38) || t == 48 || t == 63

pub record Header : Type 0 where
  pub packet_type : ℕ  -- uint8
  pub session_id : List ℕ  -- [16]byte

pub record Envelope : Type 0 where
  pub packet : List ℕ
  pub header : Header

pub record AuthenticatedEnvelope : Type 0 where
  pub envelope : Envelope
  pub verified : Bool

unfoldable pub body_of : AuthenticatedEnvelope → List ℕ
body_of a =
    if a.verified
    then slice a.envelope.packet prefix_size (length a.envelope.packet - authentication_tag_size)
    else []

unfoldable pub validate_envelope : Header → ℕ → Result Error (Unit {0})
validate_envelope h body_size = do
  reject_if (not (known_packet_type h.packet_type)) unknown_packet_type
  reject_if (all_zero h.session_id) invalid_session_id
  reject_if (ltb max_body_size body_size) packet_too_large
  reject_if
      ((is_handshake h.packet_type && not (body_size == handshake_body_size))
        || (not (is_handshake h.packet_type) && ltb body_size route_size))
      malformed

-- What `ParseEnvelope` reads as the header.
abbrev pub header_of : List ℕ → Header
header_of packet = record { packet_type = byte_at packet 5; session_id = slice packet 8 24 }

unfoldable pub parse_envelope : List ℕ → Result Error Envelope
parse_envelope packet = do
  reject_if (ltb max_udp_payload (length packet)) packet_too_large
  reject_if (ltb (length packet) envelope_overhead || not (bytes_eq (take 4 packet) magic))
      malformed
  reject_if (not (byte_at packet 4 == version)) unsupported_version
  let body_size = get16 (drop 6 packet)
  reject_if (not (body_size + envelope_overhead == length packet)) malformed
  validate_envelope (header_of packet) body_size
  ok (record { packet = packet; header = header_of packet })

-- The prefix that `appendSignedEnvelope` fills in.
unfoldable pub encode_prefix : Header → ℕ → List ℕ
encode_prefix h size = magic ++ (version ∷ h.packet_type ∷ (put16 size ++ h.session_id))

module _ (mac : List ℕ → List ℕ → List ℕ) where
  unfoldable pub authenticate : Envelope → List ℕ → Result Error AuthenticatedEnvelope
  authenticate e key = do
    reject_if (all_zero key) invalid_key
    reject_if (ltb (length e.packet) envelope_overhead) malformed
    let tag_offset = length e.packet - authentication_tag_size
    reject_if (not (bytes_eq (mac key (take tag_offset e.packet)) (drop tag_offset e.packet)))
        authentication_failed
    ok (record { envelope = e; verified = true })

  unfoldable pub append_envelope : List ℕ → Header → List ℕ → List ℕ → Result Error (List ℕ)
  append_envelope dst h body key = do
    reject_if (all_zero key) invalid_key
    validate_envelope h (length body)
    let signed = encode_prefix h (length body) ++ body
    ok (dst ++ (signed ++ mac key signed))
