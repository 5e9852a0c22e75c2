-- ===== src/Wire/Codec.antt =====
-- internal/wire/codec.go: validation, encoding and decoding of one packet.
-- `mac key bytes` stands for HMAC-SHA-256 of crypto/hmac, the tag of a packet.
-- A negative Go budget is rejected just as 0 is, so budgets are natural numbers.
use mpudp.Prelude.{
  ℕ, ◌+◌, ◌-◌, ◌/◌, List, [], ◌∷◌, ◌++◌, not, ◌||◌, ◌==◌, ltb, leb, if◌then◌else◌, length, take,
  drop, Option, none, some, Result, ok, err, ◌>>=◌, ◌>>◌, reject_if, byte_at, slice, bytes_eq,
  all_zero, put16, put32, put64, get16, get32, get64,
}
use mpudp.Wire.Types.{
  version, prefix_size, authentication_tag_size, minimum_packet_size, data_shard_metadata_size,
  min_udp_payload, max_udp_payload, hello_body_size, probe_body_size, type_hello, type_hello_ack,
  type_data_shard, type_ping, type_pong, Error, malformed, unsupported_version, unknown_packet_type,
  authentication_failed, invalid_session_id, invalid_fec, invalid_capability, packet_too_large,
  invalid_key, invalid_handler, Header, Handshake, DataShard, Probe, Message, no_handshake,
  no_data_shard, no_probe, known_packet_type, is_zero_handshake, zero_data_shard, is_zero_probe,
}

unfoldable pub validate_fec : ℕ → ℕ → Result Error (Unit {0})
validate_fec k r = reject_if (k == 0 || r == 0 || ltb 256 (k + r)) invalid_fec

unfoldable pub validate_budget : ℕ → Result Error (Unit {0})
validate_budget budget =
    reject_if (ltb budget min_udp_payload || ltb max_udp_payload budget) invalid_capability

-- The bytes of one shard: an empty Datagram is one zero byte.
unfoldable pub validate_payload : DataShard → Result Error (Unit {0})
validate_payload d =
    if d.original_length == 0
    then reject_if (not (length d.payload == 1) || not (byte_at d.payload 0 == 0)) malformed
    else reject_if (not (length d.payload == 1 + (d.original_length - 1) / d.data_shards)) malformed

unfoldable pub validate_handshake_body : Message → Result Error (Unit {0})
validate_handshake_body m = do
  reject_if (not (zero_data_shard m.data_shard) || not (is_zero_probe m.probe)) malformed
  validate_fec m.handshake.data_shards m.handshake.parity_shards
  validate_budget m.handshake.max_payload

unfoldable pub validate_data_shard_body : Message → Result Error (Unit {0})
validate_data_shard_body m = do
  reject_if (not (is_zero_handshake m.handshake) || not (is_zero_probe m.probe)) malformed
  validate_fec m.data_shard.data_shards m.data_shard.parity_shards
  reject_if (leb (m.data_shard.data_shards + m.data_shard.parity_shards) m.data_shard.shard_index)
      invalid_fec
  validate_payload m.data_shard

unfoldable pub validate_probe_body : Message → Result Error (Unit {0})
validate_probe_body m = do
  reject_if (not (is_zero_handshake m.handshake) || not (zero_data_shard m.data_shard)) malformed
  reject_if (m.probe.token == 0) malformed

unfoldable pub validate_close_body : Message → Result Error (Unit {0})
validate_close_body m =
    reject_if
      (not (is_zero_handshake m.handshake)
        || not (zero_data_shard m.data_shard)
        || not (is_zero_probe m.probe))
      malformed

-- The groups of packet types that the `switch` statements distinguish.
pub data Kind : Type 0 where
  handshake_kind shard_kind probe_kind close_kind : Kind

-- `case TypeHello, TypeHelloAck`, `case TypeDataShard`, `case TypePing, TypePong`, the rest.
unfoldable pub kind_of : ℕ → Kind
kind_of t =
    if t == type_hello || t == type_hello_ack
    then handshake_kind
    else if t == type_data_shard
    then shard_kind
    else if t == type_ping || t == type_pong
    then probe_kind
    else close_kind

unfoldable pub validate_body : Message → Result Error (Unit {0})
validate_body m = elim (kind_of m.header.packet_type) [
  | handshake_kind ↦ validate_handshake_body m
  | shard_kind ↦ validate_data_shard_body m
  | probe_kind ↦ validate_probe_body m
  | close_kind ↦ validate_close_body m
]

unfoldable pub validate_message : Message → Result Error (Unit {0})
validate_message m = do
  reject_if (all_zero m.header.session_id) invalid_session_id
  reject_if (not (known_packet_type m.header.packet_type)) unknown_packet_type
  validate_body m

-- The `switch` of `EncodedLen`, after `validateMessage` has refused unknown types.
unfoldable pub body_size : Message → ℕ
body_size m = elim (kind_of m.header.packet_type) [
  | handshake_kind ↦ hello_body_size
  | shard_kind ↦ data_shard_metadata_size + length m.data_shard.payload
  | probe_kind ↦ probe_body_size
  | close_kind ↦ 0
]

unfoldable pub encoded_len : Message → Result Error ℕ
encoded_len m = do
  validate_message m
  let packet_size = prefix_size + body_size m + authentication_tag_size
  reject_if (ltb 65535 (body_size m) || ltb max_udp_payload packet_size) packet_too_large
  ok packet_size

unfoldable pub encode_handshake : Handshake → List ℕ
encode_handshake h = h.data_shards ∷ h.parity_shards ∷ put16 h.max_payload

unfoldable pub encode_data_shard : DataShard → List ℕ
encode_data_shard d =
    put64 d.packet_id
    ++ (d.data_shards ∷ d.parity_shards ∷ d.shard_index ∷ (put32 d.original_length ++ d.payload))

unfoldable pub encode_probe : Probe → List ℕ
encode_probe p = put64 p.token ++ put64 p.timestamp

-- What `appendAuthenticated` writes between the prefix and the tag.
unfoldable pub encode_body : Message → List ℕ
encode_body m = elim (kind_of m.header.packet_type) [
  | handshake_kind ↦ encode_handshake m.handshake
  | shard_kind ↦ encode_data_shard m.data_shard
  | probe_kind ↦ encode_probe m.probe
  | close_kind ↦ []
]

-- The first `PrefixSize` bytes.
unfoldable pub encode_prefix : Header → ℕ → List ℕ
encode_prefix h size =
    b'M' ∷ b'P' ∷ b'U' ∷ b'D' ∷ version ∷ h.packet_type ∷ (put16 size ++ h.session_id)

unfoldable pub decode_handshake : List ℕ → Result Error Handshake
decode_handshake body = do
  reject_if (not (length body == hello_body_size)) malformed
  ok (record {
    data_shards = byte_at body 0;
    parity_shards = byte_at body 1;
    max_payload = get16 (drop 2 body);
  })

unfoldable pub decode_data_shard : List ℕ → Result Error DataShard
decode_data_shard body = do
  reject_if (ltb (length body) data_shard_metadata_size) malformed
  ok (record {
    packet_id = get64 body;
    data_shards = byte_at body 8;
    parity_shards = byte_at body 9;
    shard_index = byte_at body 10;
    original_length = get32 (drop 11 body);
    payload = drop 15 body;
  })

unfoldable pub decode_probe : List ℕ → Result Error Probe
decode_probe body = do
  reject_if (not (length body == probe_body_size)) malformed
  ok (record { token = get64 body; timestamp = get64 (drop 8 body) })

abbrev pub empty_message : Header → Message
empty_message h = record {
  header = h;
  handshake = no_handshake;
  data_shard = no_data_shard;
  probe = no_probe;
}

unfoldable pub decode_body : Header → List ℕ → Result Error Message
decode_body h body = elim (kind_of h.packet_type) [
  | handshake_kind ↦ decode_handshake body >>= λ x. ok (record (empty_message h) { handshake = x })
  | shard_kind ↦ decode_data_shard body >>= λ x. ok (record (empty_message h) { data_shard = x })
  | probe_kind ↦ decode_probe body >>= λ x. ok (record (empty_message h) { probe = x })
  | close_kind ↦ reject_if (not (length body == 0)) malformed >> ok (empty_message h)
]

-- The first tests of `decodeAuthenticated`: the key, the budget and the sizes.
unfoldable pub check_size : List ℕ → List ℕ → ℕ → Result Error (Unit {0})
unfolding validate_budget
check_size datagram psk receive_limit = do
  reject_if (length psk == 0) invalid_key
  validate_budget receive_limit
  reject_if (ltb receive_limit (length datagram) || ltb max_udp_payload (length datagram))
      packet_too_large
  reject_if (ltb (length datagram) minimum_packet_size) malformed

-- Its tests of the magic, the version and the packet type.
unfoldable pub check_prefix : List ℕ → Result Error (Unit {0})
check_prefix datagram = do
  reject_if (not (bytes_eq (take 4 datagram) (b'M' ∷ b'P' ∷ b'U' ∷ b'D' ∷ []))) malformed
  reject_if (not (byte_at datagram 4 == version)) unsupported_version
  reject_if (not (known_packet_type (byte_at datagram 5))) unknown_packet_type

module _ (mac : List ℕ → List ℕ → List ℕ) where
  unfoldable pub append_authenticated : List ℕ → Message → List ℕ → ℕ → Result Error (List ℕ)
  append_authenticated dst m psk budget = do
    reject_if (length psk == 0) invalid_key
    validate_budget budget
    packet_size ← encoded_len m
    reject_if (ltb budget packet_size) packet_too_large
    let packet =
        encode_prefix m.header (packet_size - prefix_size - authentication_tag_size)
        ++ encode_body m
    ok (dst ++ (packet ++ mac psk packet))

  -- Its tests of the sizes' agreement, the session's id and the tag; then the header and the body.
  unfoldable pub check_tag : List ℕ → List ℕ → Result Error (Header × List ℕ)
  check_tag datagram psk = do
    let tag_offset = prefix_size + get16 (drop 6 datagram)
    reject_if (not (tag_offset + authentication_tag_size == length datagram)) malformed
    let session_id = slice datagram 8 24
    reject_if (all_zero session_id) invalid_session_id
    reject_if (not (bytes_eq (mac psk (take tag_offset datagram)) (drop tag_offset datagram)))
        authentication_failed
    ok (
      record { packet_type = byte_at datagram 5; session_id = session_id },
      slice datagram prefix_size tag_offset,
    )

  -- `decodeAuthenticated` up to the tag's verification.
  unfoldable pub open_packet : List ℕ → List ℕ → ℕ → Result Error (Header × List ℕ)
  open_packet datagram psk receive_limit = do
    check_size datagram psk receive_limit
    check_prefix datagram
    check_tag datagram psk

  unfoldable pub decode_authenticated : List ℕ → List ℕ → ℕ → Result Error Message
  decode_authenticated datagram psk receive_limit = do
    (header, body) ← open_packet datagram psk receive_limit
    message ← decode_body header body
    validate_message message
    ok message

  -- `DecodeAndDispatch`, with the messages that the handler is called on. `none` is a nil handler.
  unfoldable pub decode_and_dispatch :
      List ℕ
      → List ℕ
      → ℕ
      → Option (Message → Result Error (Unit {0}))
      → List Message × Result Error (Unit {0})
  decode_and_dispatch datagram psk receive_limit none = ([], err invalid_handler)
  decode_and_dispatch datagram psk receive_limit (some handler) =
      elim (decode_authenticated datagram psk receive_limit) [
        | ok message ↦ (message ∷ [], handler message)
        | err e ↦ ([], err e)
      ]
