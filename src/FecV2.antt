-- ===== src/FecV2.antt =====
-- internal/fecv2/group.go: parameters, fragments and the manifest of a group.
-- A negative `int` parameter is refused just as 0 is, so parameters are natural numbers.
pub mod Reading
pub mod Writing
pub mod Codec
pub mod Packing
mod Tests
use mpudp.Prelude.{
  ℕ, zero, suc, ◌+◌, ◌-◌, ◌*◌, ◌/◌, List, [], ◌∷◌, ◌++◌, Bool, not, ◌&&◌, ◌||◌, ◌==◌, ltb, leb,
  length, take, drop, slice, Result, ok, err, ◌>>=◌, ◌>>◌, reject_if, put16, put32, put64, get16,
  get32, get64,
}

abbrev pub manifest_version : ℕ
manifest_version = 1

abbrev pub manifest_bytes : ℕ
manifest_bytes = 4

abbrev pub descriptor_bytes : ℕ
descriptor_bytes = 20

abbrev pub max_descriptors_limit : ℕ
max_descriptors_limit = 256

abbrev pub max_logical_limit : ℕ
max_logical_limit = 16 * 1024 * 1024

abbrev pub max_datagram_limit : ℕ
max_datagram_limit = 16 * 1024 * 1024

abbrev pub max_shard_limit : ℕ
max_shard_limit = 65507 - 94

pub data Error : Type 0 where
  invalid insufficient_shards no_payload_capacity : Error

pub record Parameters : Type 0 where
  pub data_shards : ℕ
  pub parity_shards : ℕ
  pub shard_bytes : ℕ
  pub max_descriptors : ℕ
  pub max_logical_bytes : ℕ
  pub max_datagram_bytes : ℕ

-- `value < low || value > high`.
abbrev pub outside : ℕ → ℕ → ℕ → Bool
outside low high value = ltb value low || ltb high value

unfoldable pub validate : Parameters → Result Error (Unit {0})
validate p = do
  reject_if
      (outside 1 255 p.data_shards
        || outside 1 255 p.parity_shards
        || ltb 256 (p.data_shards + p.parity_shards))
      invalid
  reject_if (outside 1 max_shard_limit p.shard_bytes) invalid
  reject_if
      (outside 1 max_descriptors_limit p.max_descriptors
        || outside (manifest_bytes + descriptor_bytes) max_logical_limit p.max_logical_bytes
        || ltb (p.data_shards * p.shard_bytes) p.max_logical_bytes)
      invalid
  reject_if (outside 1 max_datagram_limit p.max_datagram_bytes) invalid

pub record Fragment : Type 0 where
  pub datagram_id : ℕ  -- uint64
  pub total_bytes : ℕ  -- uint32
  pub offset : ℕ  -- uint32
  pub payload : List ℕ

unfoldable pub validate_fragment : Parameters → Fragment → ℕ → Result Error (Unit {0})
validate_fragment p f previous = do
  reject_if (f.datagram_id == 0 || leb f.datagram_id previous) invalid
  reject_if
      (ltb p.max_datagram_bytes f.total_bytes
        || ltb f.total_bytes f.offset
        || ltb (f.total_bytes - f.offset) (length f.payload))
      invalid
  reject_if (length f.payload == 0 && not (f.total_bytes == 0)) invalid

-- The loop of `logicalSize`, from the size `size` on.
unfoldable pub size_from : Parameters → ℕ → ℕ → List Fragment → Result Error ℕ
size_from p previous size [] = ok size
size_from p previous size (f ∷ fs) = do
  validate_fragment p f previous
  reject_if (ltb (p.max_logical_bytes - size) (length f.payload)) invalid
  size_from p f.datagram_id (size + length f.payload) fs

unfoldable pub logical_size : Parameters → List Fragment → Result Error ℕ
logical_size p fragments = do
  reject_if (outside 1 p.max_descriptors (length fragments)) invalid
  let size = manifest_bytes + descriptor_bytes * length fragments
  reject_if (ltb p.max_logical_bytes size) invalid
  size_from p 0 size fragments

-- One descriptor as `Encode` writes it.
unfoldable pub descriptor : Fragment → List ℕ
descriptor f =
    put64 f.datagram_id ++ (put32 f.total_bytes ++ (put32 f.offset ++ put32 (length f.payload)))

unfoldable pub descriptors : List Fragment → List ℕ
descriptors [] = []
descriptors (f ∷ fs) = descriptor f ++ descriptors fs

unfoldable pub payloads : List Fragment → List ℕ
payloads [] = []
payloads (f ∷ fs) = f.payload ++ payloads fs

-- What `Encode` writes at the start of the backing array.
unfoldable pub manifest : List Fragment → List ℕ
manifest fs = put16 manifest_version ++ (put16 (length fs) ++ (descriptors fs ++ payloads fs))

-- Where descriptor `i` starts.
abbrev pub descriptor_at : ℕ → ℕ
descriptor_at i = manifest_bytes + i * descriptor_bytes

-- The payload size of descriptor `i`.
abbrev pub payload_size : List ℕ → ℕ → ℕ
payload_size logical i = get32 (drop 16 (drop (descriptor_at i) logical))

-- Descriptor `i` with its payload at `data_at`.
unfoldable pub fragment_at : List ℕ → ℕ → ℕ → Fragment
fragment_at logical i data_at =
    let d = drop (descriptor_at i) logical in
    record {
      datagram_id = get64 d;
      total_bytes = get32 (drop 8 d);
      offset = get32 (drop 12 d);
      payload = slice logical data_at (data_at + payload_size logical i);
    }

-- The first loop of `parseManifest`, with `n` descriptors left; where the data end.
unfoldable pub check_fragments : Parameters → List ℕ → ℕ → ℕ → ℕ → ℕ → Result Error ℕ
check_fragments p logical zero i previous data_at = ok data_at
check_fragments p logical (suc n) i previous data_at = do
  reject_if (ltb (length logical - data_at) (payload_size logical i)) invalid
  let f = fragment_at logical i data_at
  validate_fragment p f previous
  check_fragments p logical n (suc i) f.datagram_id (data_at + payload_size logical i)

-- The second loop.
unfoldable pub read_fragments : List ℕ → ℕ → ℕ → ℕ → List Fragment
read_fragments logical zero i data_at = []
read_fragments logical (suc n) i data_at =
    fragment_at logical i data_at
    ∷ read_fragments logical n (suc i) (data_at + payload_size logical i)

unfoldable pub parse_manifest : Parameters → List ℕ → Result Error (List Fragment)
parse_manifest p logical = do
  reject_if (ltb (length logical) manifest_bytes || not (get16 logical == manifest_version)) invalid
  let count = get16 (drop 2 logical)
  let data_at = descriptor_at count
  reject_if (outside 1 p.max_descriptors count || ltb (length logical) data_at) invalid
  end ← check_fragments p logical count 0 0 data_at
  reject_if (not (end == length logical)) invalid
  ok (read_fragments logical count 0 data_at)
