-- ===== src/Wire/Types.antt =====
-- internal/wire/types.go, constants.go and errors.go: messages of the v0.1 format.
-- A fixed-width field is a native number; `IsMessage` states the ranges that Go's types give.
use mpudp.Prelude.{ℕ, ◌+◌, ◌^◌, ◌<◌, ◌≡◌, List, [], Bool, ◌&&◌, ◌==◌, leb, length, All, IsByte}

abbrev pub version : ℕ
version = 1

abbrev pub prefix_size : ℕ
prefix_size = 24

abbrev pub authentication_tag_size : ℕ
authentication_tag_size = 32

abbrev pub minimum_packet_size : ℕ
minimum_packet_size = prefix_size + authentication_tag_size

abbrev pub data_shard_metadata_size : ℕ
data_shard_metadata_size = 15

abbrev pub min_udp_payload : ℕ
min_udp_payload = 72

abbrev pub max_udp_payload : ℕ
max_udp_payload = 65507

abbrev pub hello_body_size : ℕ
hello_body_size = 4

abbrev pub probe_body_size : ℕ
probe_body_size = 16

abbrev pub type_hello : ℕ
type_hello = 1

abbrev pub type_hello_ack : ℕ
type_hello_ack = 2

abbrev pub type_data_shard : ℕ
type_data_shard = 3

abbrev pub type_ping : ℕ
type_ping = 4

abbrev pub type_pong : ℕ
type_pong = 5

abbrev pub type_close : ℕ
type_close = 6

pub data Error : Type 0 where
  malformed unsupported_version unknown_packet_type authentication_failed : Error
  invalid_session_id invalid_fec invalid_capability packet_too_large : Error
  invalid_key invalid_handler : Error

pub record Header : Type 0 where
  pub packet_type : ℕ  -- uint8
  pub session_id : List ℕ  -- [16]byte

pub record Handshake : Type 0 where
  pub data_shards : ℕ  -- uint8
  pub parity_shards : ℕ  -- uint8
  pub max_payload : ℕ  -- uint16

pub record DataShard : Type 0 where
  pub packet_id : ℕ  -- uint64
  pub data_shards : ℕ  -- uint8
  pub parity_shards : ℕ  -- uint8
  pub shard_index : ℕ  -- uint8
  pub original_length : ℕ  -- uint32
  pub payload : List ℕ

pub record Probe : Type 0 where
  pub token : ℕ  -- uint64
  pub timestamp : ℕ  -- uint64

pub record Message : Type 0 where
  pub header : Header
  pub handshake : Handshake
  pub data_shard : DataShard
  pub probe : Probe

abbrev pub no_handshake : Handshake
no_handshake = record { data_shards = 0; parity_shards = 0; max_payload = 0 }

abbrev pub no_data_shard : DataShard
no_data_shard = record {
  packet_id = 0;
  data_shards = 0;
  parity_shards = 0;
  shard_index = 0;
  original_length = 0;
  payload = [];
}

abbrev pub no_probe : Probe
no_probe = record { token = 0; timestamp = 0 }

-- `packetType >= TypeHello && packetType <= TypeClose`.
abbrev pub known_packet_type : ℕ → Bool
known_packet_type t = leb type_hello t && leb t type_close

abbrev pub is_zero_handshake : Handshake → Bool
is_zero_handshake h = h.data_shards == 0 && h.parity_shards == 0 && h.max_payload == 0

abbrev pub zero_data_shard : DataShard → Bool
zero_data_shard d =
    d.packet_id == 0
    && d.data_shards == 0
    && d.parity_shards == 0
    && d.shard_index == 0
    && d.original_length == 0
    && length d.payload == 0

abbrev pub is_zero_probe : Probe → Bool
is_zero_probe p = p.token == 0 && p.timestamp == 0

-- The values that the Go types can hold.
pub record IsHeader (h : Header) : Type 0 where
  pub type_range : h.packet_type < 2 ^ 8
  pub id_size : length h.session_id ≡ 16
  pub id_bytes : All IsByte h.session_id

pub record IsHandshake (h : Handshake) : Type 0 where
  pub data_range : h.data_shards < 2 ^ 8
  pub parity_range : h.parity_shards < 2 ^ 8
  pub payload_range : h.max_payload < 2 ^ 16

pub record IsDataShard (d : DataShard) : Type 0 where
  pub id_range : d.packet_id < 2 ^ 64
  pub data_range : d.data_shards < 2 ^ 8
  pub parity_range : d.parity_shards < 2 ^ 8
  pub index_range : d.shard_index < 2 ^ 8
  pub length_range : d.original_length < 2 ^ 32
  pub payload_bytes : All IsByte d.payload

pub record IsProbe (p : Probe) : Type 0 where
  pub token_range : p.token < 2 ^ 64
  pub timestamp_range : p.timestamp < 2 ^ 64

pub record IsMessage (m : Message) : Type 0 where
  pub header : IsHeader m.header
  pub handshake : IsHandshake m.handshake
  pub data_shard : IsDataShard m.data_shard
  pub probe : IsProbe m.probe
