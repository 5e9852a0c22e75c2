-- ===== src/Wire/Tests.antt =====
-- internal/wire: the theorems at concrete packets.
use mpudp.Prelude.{
  ℕ, ◌+◌, ◌*◌, ◌%◌, ◌≤◌, ◌<◌, ◌≡◌, refl, List, [], ◌∷◌, ◌++◌, arith, length, some, take, drop,
  Result, ok, err, All, IsByte, put64, bytes_eq,
}
use mpudp.Wire.Types.{
  Message, IsMessage, Error, max_udp_payload, type_ping, authentication_failed, malformed,
}
use mpudp.Wire.Codec.{
  validate_message, validate_budget, validate_body, validate_probe_body, kind_of, encoded_len,
  body_size, encode_body, encode_prefix, encode_probe, decode_probe, decode_body,
  append_authenticated, decode_authenticated, decode_and_dispatch, open_packet, check_size,
  check_prefix, check_tag, empty_message,
}
use mpudp.Wire.RoundTrip.{
  HasTagSize, decode-append, append-decode, length-append_authenticated, decode_and_dispatch_calls,
}
use mpudp.Wire.Messages.{new_ping, new_probe, checked, ping, constructed_round_trip}
use mpudp.Wire.Authenticator.{
  Authenticator, new_authenticator, append, decode, verify, sign, cached_eq_plain,
}

-- A stand-in for HMAC-SHA-256: 32 bytes that depend on the key and on the packet.
abbrev mixed : List ℕ → ℕ
mixed [] = 7
mixed (b ∷ bs) = (b + 31 * mixed bs) % 65536

abbrev tag : List ℕ → List ℕ → List ℕ
tag key bytes =
    put64 (mixed key)
    ++ (put64 (mixed bytes) ++ (put64 (length bytes) ++ put64 (mixed (key ++ bytes))))

tag-HasTagSize : HasTagSize tag
tag-HasTagSize key bytes = refl

abbrev psk : List ℕ
psk = 1 ∷ 2 ∷ 3 ∷ []

abbrev session : List ℕ
session = 9 ∷ 0 ∷ 0 ∷ 0 ∷ 0 ∷ 0 ∷ 0 ∷ 0 ∷ 0 ∷ 0 ∷ 0 ∷ 0 ∷ 0 ∷ 0 ∷ 0 ∷ 200 ∷ []

abbrev probe_message : Message
probe_message = record (empty_message (record { packet_type = type_ping; session_id = session })) {
  probe = record { token = 66051; timestamp = 5 };
}

probe_message-IsMessage : IsMessage probe_message
probe_message-IsMessage = record {
  header = record { type_range = omega arith; id_size = refl; id_bytes = ground arith };
  handshake = record {
    data_range = omega arith;
    parity_range = omega arith;
    payload_range = omega arith;
  };
  data_shard = record {
    id_range = omega arith;
    data_range = omega arith;
    parity_range = omega arith;
    index_range = omega arith;
    length_range = omega arith;
    payload_bytes = tt;
  };
  probe = record { token_range = omega arith; timestamp_range = omega arith };
}

abbrev signed_part : List ℕ
signed_part =
    b'M'
    ∷ b'P'
    ∷ b'U'
    ∷ b'D'
    ∷ 1
    ∷ 4
    ∷ 0
    ∷ 16
    ∷ (session ++ (0 ∷ 0 ∷ 0 ∷ 0 ∷ 0 ∷ 1 ∷ 2 ∷ 3 ∷ 0 ∷ 0 ∷ 0 ∷ 0 ∷ 0 ∷ 0 ∷ 0 ∷ 5 ∷ []))

abbrev probe_packet : List ℕ
probe_packet = signed_part ++ tag psk signed_part

probe-appended : append_authenticated tag [] probe_message psk 1200 ≡ ok probe_packet
unfolding append_authenticated validate_budget encoded_len validate_message validate_body kind_of
    validate_probe_body body_size encode_body encode_prefix encode_probe
probe-appended = refl

probe-decoded : decode_authenticated tag probe_packet psk 1500 ≡ ok probe_message
unfolding decode_authenticated open_packet check_size check_prefix check_tag validate_budget
    decode_body decode_probe kind_of validate_message validate_body validate_probe_body
probe-decoded = refl

-- A packet with another key's tag is refused.
wrong_key : decode_authenticated tag probe_packet (4 ∷ []) 1500 ≡ err authentication_failed
unfolding decode_authenticated open_packet check_size check_prefix check_tag validate_budget
wrong_key = refl

decode-append_example : decode_authenticated tag probe_packet psk 1500 ≡ ok probe_message
decode-append_example =
    decode-append tag psk probe_message 1200 1500 probe_packet tag-HasTagSize
      probe_message-IsMessage (omega arith) (omega arith) probe-appended

probe_packet-bytes : All IsByte probe_packet
probe_packet-bytes = ground arith

append-decode_example :
    append_authenticated tag (8 ∷ []) probe_message psk 1500 ≡ ok (8 ∷ probe_packet)
append-decode_example =
    append-decode tag psk probe_message 1500 (8 ∷ []) probe_packet probe_packet-bytes probe-decoded

length-append_authenticated_example : (encoded_len probe_message ≡ ok 72) × (0 < 72) × (72 ≤ 1200)
length-append_authenticated_example =
    length-append_authenticated tag psk probe_message [] probe_packet 1200 tag-HasTagSize
      probe_message-IsMessage probe-appended

abbrev no_more : List Message
no_more = []

abbrev refused : Result Error (Unit {0})
refused = err malformed

abbrev refusing : Message → Result Error (Unit {0})
refusing m = err malformed

probe-dispatched :
    decode_and_dispatch tag probe_packet psk 1500 (some refusing)
    ≡ (probe_message ∷ [], err malformed)
unfolding decode_and_dispatch decode_authenticated open_packet check_size check_prefix check_tag
    validate_budget decode_body decode_probe kind_of validate_message validate_body
    validate_probe_body
probe-dispatched = refl

decode_and_dispatch_calls_example :
    (no_more ≡ [])
    × (refused ≡ refusing probe_message)
    × (append_authenticated tag [] probe_message psk 1500 ≡ ok probe_packet)
decode_and_dispatch_calls_example =
    decode_and_dispatch_calls tag probe_packet psk 1500 refusing probe_message [] (err malformed)
      probe_packet-bytes probe-dispatched

probe-constructed : new_ping session 66051 5 ≡ ok probe_message
unfolding new_ping new_probe checked encoded_len validate_message validate_body kind_of
    validate_probe_body body_size
probe-constructed = refl

constructed_round_trip_example :
    (packet : List ℕ) × (append_authenticated tag [] probe_message psk max_udp_payload ≡ ok packet)
    × (decode_authenticated tag packet psk max_udp_payload ≡ ok probe_message)
constructed_round_trip_example =
    constructed_round_trip tag psk probe_message tag-HasTagSize (omega arith)
      probe_message-IsMessage (ping session 66051 5 probe-constructed)

abbrev used : Authenticator
used = record { key = psk; states = (1 ∷ 1 ∷ []) ∷ (5 ∷ []) ∷ [] }

cached_eq_plain_example :
    (append tag used probe_packet probe_message 1200
      ≡ append_authenticated tag probe_packet probe_message psk 1200)
    × (decode tag used probe_packet 1200 ≡ decode_authenticated tag probe_packet psk 1200)
    × ((verify tag used probe_packet 1200).0
        ≡ bytes_eq (tag psk (take 1200 probe_packet)) (drop 1200 probe_packet))
    × ((sign tag used probe_packet 1200).0
        ≡ take 1200 probe_packet ++ tag psk (take 1200 probe_packet))
cached_eq_plain_example = cached_eq_plain tag used probe_packet probe_message 1200

new_authenticator_made : new_authenticator psk ≡ ok (record { key = psk; states = [] })
unfolding new_authenticator
new_authenticator_made = refl
