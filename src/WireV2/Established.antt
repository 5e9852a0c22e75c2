-- ===== src/WireV2/Established.antt =====
-- internal/wirev2/established.go: the route in front of a typed body.
pub mod RouteTrip
mod Tests
use mpudp.Prelude.{
  ℕ, ◌+◌, ◌-◌, List, [], ◌∷◌, ◌++◌, Bool, true, false, not, ◌&&◌, ◌||◌, ◌==◌, ltb, leb, length,
  drop, Result, ok, err, ◌>>=◌, ◌>>◌, reject_if, all_zero, put32, put64, get32, get64,
}
use mpudp.WireV2
use mpudp.WireV2.{
  Header, AuthenticatedEnvelope, is_handshake, body_of, validate_envelope, append_envelope,
  route_size, max_body_size, max_udp_payload,
}

-- The package's errors: the envelope's, and those of a route.
pub data Error : Type 0 where
  invalid_route invalid_payload_limit : Error
  from_envelope : WireV2.Error → Error

pub record Route : Type 0 where
  pub path_id : ℕ  -- uint32
  pub generation : ℕ  -- uint64
  pub budget_epoch : ℕ  -- uint32

pub record Established : Type 0 where
  pub header : Header
  pub route : Route
  pub body : List ℕ

abbrev pub enveloped {ℓ} : {A : Type ℓ} → Result WireV2.Error A → Result Error A
enveloped (err cause) = err (from_envelope cause)
enveloped (ok a) = ok a

-- `TypePathJoin` to `TypePathReady` are sent before the path has a budget.
unfoldable pub validate_route : ℕ → Route → Result Error (Unit {0})
validate_route packet_type r = do
  reject_if (ltb r.path_id 1 || ltb 256 r.path_id || r.generation == 0) invalid_route
  let pending = leb 16 packet_type && leb packet_type 19
  reject_if ((pending && not (r.budget_epoch == 0)) || (not pending && r.budget_epoch == 0))
      invalid_route

unfoldable pub encode_route : Route → List ℕ
encode_route r = put32 r.path_id ++ (put64 r.generation ++ put32 r.budget_epoch)

-- What `DecodeEstablished` reads as the route.
abbrev pub route_of : List ℕ → Route
route_of body = record {
  path_id = get32 body;
  generation = get64 (drop 4 body);
  budget_epoch = get32 (drop 12 body);
}

unfoldable pub decode_typed : Header → List ℕ → Result Error Established
decode_typed h body = do
  reject_if (is_handshake h.packet_type) (from_envelope WireV2.unknown_packet_type)
  reject_if (ltb (length body) route_size) (from_envelope WireV2.malformed)
  validate_route h.packet_type (route_of body)
  ok (record { header = h; route = route_of body; body = drop route_size body })

unfoldable pub decode_established : AuthenticatedEnvelope → Result Error Established
unfolding decode_typed
decode_established a = do
  reject_if (not a.verified) (from_envelope WireV2.authentication_failed)
  decode_typed a.envelope.header (body_of a)

unfoldable pub validate_payload_limit : ℕ → Result Error (Unit {0})
validate_payload_limit n = reject_if (ltb n 512 || ltb max_udp_payload n) invalid_payload_limit

module _ (mac : List ℕ → List ℕ → List ℕ) where
  unfoldable pub append_established :
      List ℕ → Header → Route → List ℕ → List ℕ → Result Error (List ℕ)
  append_established dst h r typed key = do
    reject_if (all_zero key) (from_envelope WireV2.invalid_key)
    reject_if (is_handshake h.packet_type) (from_envelope WireV2.unknown_packet_type)
    reject_if (ltb (max_body_size - route_size) (length typed))
        (from_envelope WireV2.packet_too_large)
    enveloped (validate_envelope h (route_size + length typed))
    validate_route h.packet_type r
    enveloped (append_envelope mac dst h (encode_route r ++ typed) key)
