-- ===== src/Wire/Messages.antt =====
-- internal/wire/types.go: the constructors, which return only messages that can be sent.
use mpudp.Prelude.{[], ℕ, ◌≡◌, ◌≢◌, List, length, Result, ok, ◌>>=◌, arith}
use mpudp.Wire.Types.{
  Error, Message, IsMessage, DataShard, type_hello, type_hello_ack, type_data_shard, type_ping,
  type_pong, type_close, max_udp_payload,
}
use mpudp.Wire.RoundTrip.{IsSendable, IsSendable-append, sealed, HasTagSize, decode-append}
use mpudp.Wire.Codec.{encoded_len, empty_message, append_authenticated, decode_authenticated}

-- `if _, err := EncodedLen(message); err != nil { return Message{}, err }; return message, nil`.
unfoldable pub checked : Message → Result Error Message
checked m = do encoded_len m >>= λ _. ok m

unfoldable pub new_handshake : ℕ → List ℕ → ℕ → ℕ → ℕ → Result Error Message
new_handshake packet_type session_id k r max_payload =
    checked
      (record (empty_message (record { packet_type = packet_type; session_id = session_id })) {
        handshake = record { data_shards = k; parity_shards = r; max_payload = max_payload };
      })

unfoldable pub new_hello : List ℕ → ℕ → ℕ → ℕ → Result Error Message
unfolding new_handshake
new_hello session_id k r max_payload = new_handshake type_hello session_id k r max_payload

unfoldable pub new_hello_ack : List ℕ → ℕ → ℕ → ℕ → Result Error Message
unfolding new_handshake
new_hello_ack session_id k r max_payload = new_handshake type_hello_ack session_id k r max_payload

unfoldable pub new_data_shard : List ℕ → DataShard → Result Error Message
new_data_shard session_id shard =
    checked
      (record (empty_message (record { packet_type = type_data_shard; session_id = session_id })) {
        data_shard = shard;
      })

unfoldable pub new_probe : ℕ → List ℕ → ℕ → ℕ → Result Error Message
new_probe packet_type session_id token timestamp =
    checked
      (record (empty_message (record { packet_type = packet_type; session_id = session_id })) {
        probe = record { token = token; timestamp = timestamp };
      })

unfoldable pub new_ping : List ℕ → ℕ → ℕ → Result Error Message
unfolding new_probe
new_ping session_id token timestamp = new_probe type_ping session_id token timestamp

unfoldable pub new_pong : List ℕ → ℕ → ℕ → Result Error Message
unfolding new_probe
new_pong session_id token timestamp = new_probe type_pong session_id token timestamp

unfoldable pub new_close : List ℕ → Result Error Message
new_close session_id =
    checked (empty_message (record { packet_type = type_close; session_id = session_id }))

-- A message that one of the constructors returned.
pub data IsConstructed (m : Message) : Type 0 where
  hello : (id : List ℕ) (k r limit : ℕ) → new_hello id k r limit ≡ ok m → IsConstructed m
  hello_ack : (id : List ℕ) (k r limit : ℕ) → new_hello_ack id k r limit ≡ ok m → IsConstructed m
  shard : (id : List ℕ) (d : DataShard) → new_data_shard id d ≡ ok m → IsConstructed m
  ping : (id : List ℕ) (token timestamp : ℕ) → new_ping id token timestamp ≡ ok m → IsConstructed m
  pong : (id : List ℕ) (token timestamp : ℕ) → new_pong id token timestamp ≡ ok m → IsConstructed m
  close : (id : List ℕ) → new_close id ≡ ok m → IsConstructed m

checked-IsSendable :
    (psk : List ℕ) (m m' : Message)
    → length psk ≢ 0
    → checked m ≡ ok m'
    → IsSendable m' psk max_udp_payload
unfolding checked encoded_len
checked-IsSendable psk m m' k e = let same : m ≡ m' = ground arith in rw (← same) (ground arith)

IsConstructed-IsSendable :
    (psk : List ℕ) (m : Message)
    → length psk ≢ 0
    → IsConstructed m
    → IsSendable m psk max_udp_payload
unfolding new_hello new_hello_ack new_data_shard new_ping new_pong new_close
IsConstructed-IsSendable psk m k (hello id x y z e) = checked-IsSendable psk _ m k e
IsConstructed-IsSendable psk m k (hello_ack id x y z e) = checked-IsSendable psk _ m k e
IsConstructed-IsSendable psk m k (shard id d e) = checked-IsSendable psk _ m k e
IsConstructed-IsSendable psk m k (ping id x y e) = checked-IsSendable psk _ m k e
IsConstructed-IsSendable psk m k (pong id x y e) = checked-IsSendable psk _ m k e
IsConstructed-IsSendable psk m k (close id e) = checked-IsSendable psk _ m k e

-- With tags of 32 bytes and a nonempty key: a message of a constructor, with field values of its Go
-- types, is always encoded within `MaxUDPPayload`, and what it is encoded to is decoded to it.
pub constructed_round_trip :
    (mac : List ℕ → List ℕ → List ℕ) (psk : List ℕ) (m : Message)
    → HasTagSize mac
    → length psk ≢ 0
    → IsMessage m
    → IsConstructed m
    → (packet : List ℕ) × (append_authenticated mac [] m psk max_udp_payload ≡ ok packet)
      × (decode_authenticated mac packet psk max_udp_payload ≡ ok m)
constructed_round_trip mac psk m size k r c =
    let sent =
      IsSendable-append mac psk [] m max_udp_payload (IsConstructed-IsSendable psk m k c) in
    (
      sealed mac psk [] m max_udp_payload,
      sent,
      decode-append mac psk m max_udp_payload max_udp_payload _ size r (omega arith) (omega arith)
          sent,
    )
