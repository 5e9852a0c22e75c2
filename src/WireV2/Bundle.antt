-- ===== src/WireV2/Bundle.antt =====
-- internal/wirev2/bundle.go: bundles of shards of groups. A `ContextLookup` is a function, as its comment asks.
pub mod Records
pub mod BundleTrip
mod Tests
use mpudp.Prelude.{
  ℕ, zero, suc, ◌+◌, ◌-◌, ◌*◌, List, [], ◌∷◌, ◌++◌, Bool, true, false, not, ◌&&◌, ◌||◌, ◌==◌, ltb,
  leb, if◌then◌else◌, length, take, drop, min, Option, none, some, Result, ok, err, ◌>>=◌, ◌>>◌,
  reject_if, all_zero, byte_at, put16, put32, put64, get16, get32, get64,
}
use mpudp.WireV2
use mpudp.WireV2.{
  Header, AuthenticatedEnvelope, append_envelope, envelope_overhead, route_size, max_udp_payload,
}
use mpudp.WireV2.Context.{
  invalid_bundle, invalid_context, context_unavailable, from_established, Error, routed,
  EncodingContext, validate_context, minimum_logical_bytes, typed_body_overhead, bundle_prefix_size,
  record_header_size,
}
use mpudp.WireV2.Established
use mpudp.WireV2.Established.{
  Route, validate_route, encode_route, enveloped, decode_established, validate_payload_limit,
}

abbrev pub max_records : ℕ
max_records = 16

-- `TypeFECBundle`.
abbrev pub bundle_type : ℕ
bundle_type = 32

pub record FecRecord : Type 0 where
  pub group_id : ℕ  -- uint64
  pub encoding_epoch : ℕ  -- uint32
  pub logical_bytes : ℕ  -- uint32
  pub shard_index : ℕ  -- uint8
  pub payload : List ℕ

pub record FecBundle : Type 0 where
  pub header : Header
  pub route : Route
  pub records : List FecRecord

abbrev pub ContextLookup : Type 0
ContextLookup = ℕ → Option EncodingContext

-- `contextCache.get`: the contexts asked for so far are kept.
abbrev pub cached : List EncodingContext → ℕ → Option EncodingContext
cached [] epoch = none
cached (c ∷ cs) epoch = if c.epoch == epoch then some c else cached cs epoch

unfoldable pub ask :
    ContextLookup → List EncodingContext → ℕ → Result Error (EncodingContext × List EncodingContext)
ask lookup cache epoch = elim (lookup epoch) [
  | none ↦ err context_unavailable
  | some c ↦ do
    reject_if (not (c.epoch == epoch)) invalid_context
    validate_context c
    ok (c, cache ++ (c ∷ []))
]

unfoldable pub get_context :
    ContextLookup → List EncodingContext → ℕ → Result Error (EncodingContext × List EncodingContext)
get_context lookup cache epoch =
    if epoch == 0
    then err invalid_context
    else elim (cached cache epoch) [ some c ↦ ok (c, cache) | none ↦ ask lookup cache epoch ]

-- The bytes of the logical data in a shard.
abbrev pub used_bytes : FecRecord → EncodingContext → ℕ
used_bytes r c = min (r.logical_bytes - r.shard_index * c.shard_bytes) c.shard_bytes

unfoldable pub validate_record : FecRecord → EncodingContext → Result Error (Unit {0})
validate_record r c = do
  reject_if
      (r.group_id == 0
        || ltb r.logical_bytes minimum_logical_bytes
        || ltb c.logical_limit r.logical_bytes
        || leb (c.data_shards + c.parity_shards) r.shard_index
        || not (length r.payload == c.shard_bytes))
      invalid_bundle
  reject_if (ltb r.shard_index c.data_shards && not (all_zero (drop (used_bytes r c) r.payload)))
      invalid_bundle

abbrev pub duplicate_group : List ℕ → ℕ → Bool
duplicate_group [] id = false
duplicate_group (k ∷ ks) id = k == id || duplicate_group ks id

-- One turn of the checking loop of `appendFECBundle`: the group IDs met, the cache and the bytes so far.
unfoldable pub check_record :
    ContextLookup
    → ℕ
    → List ℕ
    → List EncodingContext
    → ℕ
    → FecRecord
    → Result Error (List EncodingContext)
check_record lookup max_payload met cache typed_bytes r = do
  reject_if (duplicate_group met r.group_id) invalid_bundle
  (c, cache') ← get_context lookup cache r.encoding_epoch
  validate_record r c
  reject_if
      (ltb (max_payload - typed_body_overhead - typed_bytes)
        (record_header_size + length r.payload))
      (from_established (Established.from_envelope WireV2.packet_too_large))
  ok cache'

-- The whole loop: the bytes of the typed body.
unfoldable pub check_records :
    ContextLookup → ℕ → List ℕ → List EncodingContext → ℕ → List FecRecord → Result Error ℕ
check_records lookup max_payload met cache typed_bytes [] = ok typed_bytes
check_records lookup max_payload met cache typed_bytes (r ∷ rs) = do
  cache' ← check_record lookup max_payload met cache typed_bytes r
  check_records lookup max_payload (r.group_id ∷ met) cache'
      (typed_bytes + (record_header_size + length r.payload)) rs

unfoldable pub encode_record : FecRecord → List ℕ
encode_record r =
    put64 r.group_id
    ++ (put32 r.encoding_epoch ++ (put32 r.logical_bytes ++ (r.shard_index ∷ 0 ∷ r.payload)))

unfoldable pub encode_records : List FecRecord → List ℕ
encode_records [] = []
encode_records (r ∷ rs) = encode_record r ++ encode_records rs

unfoldable pub encode_bundle : FecBundle → List ℕ
encode_bundle b = put16 (length b.records) ++ (0 ∷ 0 ∷ encode_records b.records)

-- The record at the start of `rest`, with `size` bytes of payload.
abbrev pub record_of : List ℕ → ℕ → FecRecord
record_of rest size = record {
  group_id = get64 rest;
  encoding_epoch = get32 (drop 8 rest);
  logical_bytes = get32 (drop 12 rest);
  shard_index = byte_at rest 16;
  payload = take size (drop record_header_size rest);
}

-- One turn of the loop of `DecodeFECBundle`, with `rest` of the body and the group IDs met: the record, and the
-- cache after it.
unfoldable pub read_record :
    ContextLookup
    → List ℕ
    → List ℕ
    → List EncodingContext
    → Result Error (FecRecord × List EncodingContext)
read_record lookup rest met cache = do
  reject_if (ltb (length rest) record_header_size)
      (from_established (Established.from_envelope WireV2.malformed))
  reject_if (not (byte_at rest 17 == 0) || duplicate_group met (get64 rest)) invalid_bundle
  (c, cache') ← get_context lookup cache (get32 (drop 8 rest))
  reject_if (ltb (length rest - record_header_size) c.shard_bytes)
      (from_established (Established.from_envelope WireV2.malformed))
  let r = record_of rest c.shard_bytes
  validate_record r c
  ok (r, cache')

-- The whole loop, with `n` records left: the records, and what is left behind them.
unfoldable pub read_records :
    ContextLookup
    → ℕ
    → List ℕ
    → List ℕ
    → List EncodingContext
    → Result Error (List FecRecord × List ℕ)
read_records lookup zero rest met cache = ok ([], rest)
read_records lookup (suc n) rest met cache = do
  (r, cache') ← read_record lookup rest met cache
  (rs, end) ←
      read_records lookup n (drop (length r.payload) (drop record_header_size rest))
        (r.group_id ∷ met) cache'
  ok (r ∷ rs, end)

unfoldable pub decode_typed_bundle :
    ContextLookup → Header → Route → List ℕ → Result Error FecBundle
decode_typed_bundle lookup h route body = do
  reject_if (ltb (length body) bundle_prefix_size || not (all_zero (take 2 (drop 2 body))))
      (from_established (Established.from_envelope WireV2.malformed))
  let count = get16 body
  reject_if (ltb count 1 || ltb max_records count) invalid_bundle
  (records, rest) ← read_records lookup count (drop bundle_prefix_size body) [] []
  reject_if (not (length rest == 0)) (from_established (Established.from_envelope WireV2.malformed))
  ok (record { header = h; route = route; records = records })

unfoldable pub decode_fec_bundle :
    AuthenticatedEnvelope → ContextLookup → ℕ → Result Error FecBundle
decode_fec_bundle a lookup max_payload = do
  m ← routed (decode_established a)
  reject_if (not (m.header.packet_type == bundle_type))
      (from_established (Established.from_envelope WireV2.unknown_packet_type))
  routed (validate_payload_limit max_payload)
  reject_if (ltb max_payload (length a.envelope.packet))
      (from_established (Established.from_envelope WireV2.packet_too_large))
  decode_typed_bundle lookup m.header m.route m.body

module _ (mac : List ℕ → List ℕ → List ℕ) where
  unfoldable pub append_fec_bundle :
      List ℕ → FecBundle → ContextLookup → List ℕ → ℕ → Result Error (List ℕ)
  append_fec_bundle dst b lookup key max_payload = do
    reject_if (not (b.header.packet_type == bundle_type))
        (from_established (Established.from_envelope WireV2.unknown_packet_type))
    reject_if (all_zero b.header.session_id)
        (from_established (Established.from_envelope WireV2.invalid_session_id))
    reject_if (all_zero key) (from_established (Established.from_envelope WireV2.invalid_key))
    routed (validate_route b.header.packet_type b.route)
    routed (validate_payload_limit max_payload)
    reject_if (length b.records == 0 || ltb max_records (length b.records)) invalid_bundle
    typed_bytes ← check_records lookup max_payload [] [] bundle_prefix_size b.records
    routed
        (enveloped (append_envelope mac dst b.header (encode_route b.route ++ encode_bundle b) key))
