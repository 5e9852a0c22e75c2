-- ===== src/Wire/Body.antt =====
-- internal/wire/codec.go: the type-specific bodies, written and read back.
use mpudp.Prelude.{ℕ, ◌≡◌, List, [], ◌∷◌, arith, length, ok, All, IsByte, put16-get16}
use mpudp.Wire.Types.{
  Message, Header, Handshake, DataShard, Probe, IsHandshake, IsDataShard, IsProbe, IsMessage,
}
use mpudp.Wire.Codec.{
  validate_handshake_body, validate_data_shard_body, validate_probe_body, validate_close_body,
  encode_body, decode_body, body_size, encode_handshake, encode_data_shard, encode_probe,
  decode_handshake, decode_data_shard, decode_probe, validate_body,
}

decode-encode_handshake :
    (h : Handshake) → IsHandshake h → decode_handshake (encode_handshake h) ≡ ok h
unfolding decode_handshake encode_handshake
decode-encode_handshake h r = ground arith

decode-encode_probe : (p : Probe) → IsProbe p → decode_probe (encode_probe p) ≡ ok p
unfolding decode_probe encode_probe
decode-encode_probe p r = ground arith

decode-encode_data_shard :
    (d : DataShard) → IsDataShard d → decode_data_shard (encode_data_shard d) ≡ ok d
unfolding decode_data_shard encode_data_shard
decode-encode_data_shard d r = ground arith

encode-decode_handshake :
    (body : List ℕ) (h : Handshake)
    → All IsByte body
    → decode_handshake body ≡ ok h
    → encode_handshake h ≡ body
unfolding decode_handshake encode_handshake
encode-decode_handshake (a ∷ b ∷ c ∷ d ∷ []) h r e = ground (arith, put16-get16 c d [])
encode-decode_handshake _ h r e = ground arith

encode-decode_probe :
    (body : List ℕ) (p : Probe) → All IsByte body → decode_probe body ≡ ok p → encode_probe p ≡ body
unfolding decode_probe encode_probe
encode-decode_probe (a ∷ b ∷ c ∷ d ∷ e ∷ f ∷ g ∷ i ∷ a' ∷ b' ∷ c' ∷ d' ∷ e' ∷ f' ∷ g' ∷ i' ∷ []) p r
      eq =
    ground arith
encode-decode_probe _ p r eq = ground arith

encode-decode_data_shard :
    (body : List ℕ) (s : DataShard)
    → All IsByte body
    → decode_data_shard body ≡ ok s
    → encode_data_shard s ≡ body
unfolding decode_data_shard encode_data_shard
encode-decode_data_shard (a ∷ b ∷ c ∷ d ∷ e ∷ f ∷ g ∷ i ∷ k ∷ p ∷ x ∷ a' ∷ b' ∷ c' ∷ d' ∷ rest) s r
      eq =
    ground arith
encode-decode_data_shard _ s r eq = ground arith

pub length-encode_body : (m : Message) → length (encode_body m) ≡ body_size m
unfolding encode_body body_size encode_handshake encode_data_shard encode_probe
length-encode_body m = ground arith

-- A valid message is read back from the body that it is written to.
pub decode_body-encode_body :
    (m : Message)
    → IsMessage m
    → validate_body m ≡ ok tt
    → decode_body m.header (encode_body m) ≡ ok m
unfolding validate_body validate_handshake_body validate_data_shard_body validate_probe_body
    validate_close_body encode_body decode_body
decode_body-encode_body m r v = ground (
  arith,
  decode-encode_handshake m.handshake r.handshake,
  decode-encode_data_shard m.data_shard r.data_shard,
  decode-encode_probe m.probe r.probe,
)

pub encode_body-decode_body :
    (h : Header) (body : List ℕ) (m : Message)
    → All IsByte body
    → decode_body h body ≡ ok m
    → (m.header ≡ h) × (encode_body m ≡ body)
unfolding encode_body decode_body
encode_body-decode_body h body m r e = ground (
  arith,
  encode-decode_handshake body m.handshake r,
  encode-decode_data_shard body m.data_shard r,
  encode-decode_probe body m.probe r,
)
