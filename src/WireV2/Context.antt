-- ===== src/WireV2/Context.antt =====
-- internal/wirev2/context.go: encoding contexts and their acknowledgements. SHA-256 is a parameter, `digest`.
pub mod ContextTrip
mod Tests
use mpudp.Prelude.{
  ℕ, ◌+◌, ◌-◌, ◌*◌, List, [], ◌∷◌, ◌++◌, Bool, true, false, not, ◌&&◌, ◌||◌, ◌==◌, ltb, length,
  take, drop, Result, ok, err, ◌>>=◌, ◌>>◌, reject_if, all_zero, byte_at, bytes_eq, put16, put32,
  get16, get32,
}
use mpudp.WireV2
use mpudp.WireV2.{AuthenticatedEnvelope, envelope_overhead, route_size, max_udp_payload}
use mpudp.WireV2.Established
use mpudp.WireV2.Established.{Route, decode_established, append_established}

abbrev pub record_header_size : ℕ
record_header_size = 18

abbrev pub bundle_prefix_size : ℕ
bundle_prefix_size = 4

abbrev pub minimum_logical_bytes : ℕ
minimum_logical_bytes = 24

abbrev pub max_logical_bytes : ℕ
max_logical_bytes = 16 * 1024 * 1024

abbrev pub typed_body_overhead : ℕ
typed_body_overhead = envelope_overhead + route_size

abbrev pub max_shard_bytes : ℕ
max_shard_bytes = max_udp_payload - typed_body_overhead - bundle_prefix_size - record_header_size

pub data Error : Type 0 where
  invalid_bundle invalid_context context_unavailable context_ack : Error
  from_established : Established.Error → Error

abbrev pub routed {ℓ} : {A : Type ℓ} → Result Established.Error A → Result Error A
routed (err cause) = err (from_established cause)
routed (ok a) = ok a

pub record EncodingContext : Type 0 where
  pub epoch : ℕ  -- uint32
  pub layout_id : ℕ  -- uint16
  pub protection_id : ℕ  -- uint16
  pub data_shards : ℕ  -- uint8
  pub parity_shards : ℕ  -- uint8
  pub shard_bytes : ℕ  -- uint16
  pub max_descriptors : ℕ  -- uint16
  pub logical_limit : ℕ  -- uint32

unfoldable pub validate_context : EncodingContext → Result Error (Unit {0})
validate_context c = do
  reject_if
      (c.epoch == 0
        || not (c.layout_id == 1)
        || not (c.protection_id == 1)
        || c.data_shards == 0
        || c.parity_shards == 0
        || ltb 256 (c.data_shards + c.parity_shards))
      invalid_context
  reject_if
      (c.shard_bytes == 0
        || ltb max_shard_bytes c.shard_bytes
        || c.max_descriptors == 0
        || ltb 256 c.max_descriptors)
      invalid_context
  reject_if
      (ltb c.logical_limit minimum_logical_bytes
        || ltb max_logical_bytes c.logical_limit
        || ltb (c.data_shards * c.shard_bytes) c.logical_limit)
      invalid_context

-- `TypeEncodingContext`.
abbrev pub context_type : ℕ
context_type = 27

-- `TypeEncodingContextAck`.
abbrev pub ack_type : ℕ
ack_type = 28

abbrev pub context_body_size : ℕ
context_body_size = 24

abbrev pub ack_body_size : ℕ
ack_body_size = 36

abbrev pub context_bytes : EncodingContext → List ℕ
context_bytes c =
    put32 c.epoch
    ++ (put16 c.layout_id
        ++ (put16 c.protection_id
            ++ (c.data_shards
                ∷ c.parity_shards
                ∷ (put16 c.shard_bytes
                    ++ (put16 c.max_descriptors
                        ++ (0 ∷ 0 ∷ (put32 c.logical_limit ++ (0 ∷ 0 ∷ 0 ∷ 0 ∷ []))))))))

unfoldable pub encode_context : EncodingContext → Result Error (List ℕ)
encode_context c = do validate_context c; ok (context_bytes c)

-- What `DecodeEncodingContext` reads of a body.
abbrev pub context_of : List ℕ → EncodingContext
context_of body = record {
  epoch = get32 body;
  layout_id = get16 (drop 4 body);
  protection_id = get16 (drop 6 body);
  data_shards = byte_at body 8;
  parity_shards = byte_at body 9;
  shard_bytes = get16 (drop 10 body);
  max_descriptors = get16 (drop 12 body);
  logical_limit = get32 (drop 16 body);
}

-- `DecodeEncodingContext` past `DecodeEstablished`.
unfoldable pub read_context : Established.Established → Result Error (Route × EncodingContext)
read_context m = do
  reject_if (not (m.header.packet_type == context_type))
      (from_established (Established.from_envelope WireV2.unknown_packet_type))
  reject_if
      (not (length m.body == context_body_size)
        || not (all_zero (take 2 (drop 14 m.body)))
        || not (all_zero (take 4 (drop 20 m.body))))
      (from_established (Established.from_envelope WireV2.malformed))
  validate_context (context_of m.body)
  ok (m.route, context_of m.body)

unfoldable pub decode_context : AuthenticatedEnvelope → Result Error (Route × EncodingContext)
decode_context a = routed (decode_established a) >>= read_context

pub record ContextAck : Type 0 where
  pub epoch : ℕ  -- uint32
  pub hash : List ℕ  -- [32]byte

-- `DecodeEncodingContextAck` past `DecodeEstablished`.
unfoldable pub read_ack : Established.Established → Result Error (Route × ContextAck)
read_ack m = do
  reject_if (not (m.header.packet_type == ack_type))
      (from_established (Established.from_envelope WireV2.unknown_packet_type))
  reject_if (not (length m.body == ack_body_size))
      (from_established (Established.from_envelope WireV2.malformed))
  reject_if (get32 m.body == 0) invalid_context
  ok (m.route, record { epoch = get32 m.body; hash = drop 4 m.body })

unfoldable pub decode_ack : AuthenticatedEnvelope → Result Error (Route × ContextAck)
decode_ack a = routed (decode_established a) >>= read_ack

module _ (digest : List ℕ → List ℕ) where
  unfoldable pub new_ack : EncodingContext → Result Error ContextAck
  new_ack c = do body ← encode_context c; ok (record { epoch = c.epoch; hash = digest body })

  -- `EncodingContextAck.ValidateContext`.
  unfoldable pub validate_ack : ContextAck → EncodingContext → Result Error (Unit {0})
  validate_ack ack c = do
    expected ← new_ack c
    reject_if (not (ack.epoch == expected.epoch && bytes_eq ack.hash expected.hash)) context_ack

module _ (mac : List ℕ → List ℕ → List ℕ) where
  unfoldable pub append_context :
      List ℕ → List ℕ → Route → EncodingContext → List ℕ → Result Error (List ℕ)
  append_context dst session_id r c key = do
    body ← encode_context c
    routed (
        append_established mac dst (record { packet_type = context_type; session_id = session_id })
          r body key)

  unfoldable pub append_ack : List ℕ → List ℕ → Route → ContextAck → List ℕ → Result Error (List ℕ)
  append_ack dst session_id r ack key = do
    reject_if (ack.epoch == 0) invalid_context
    routed (
        append_established mac dst (record { packet_type = ack_type; session_id = session_id }) r
          (put32 ack.epoch ++ ack.hash) key)
