-- ===== src/WireV2/Context/ContextTrip.antt =====
-- internal/wirev2/context.go: a context that is sent, decoded and acknowledged.
use mpudp.Prelude.{
  ℕ, ◌+◌, ◌^◌, ◌≤◌, ◌<◌, ◌≡◌, refl, sym, ap, ◌∙◌, List, [], ◌++◌, arith, length, drop, Result, ok,
  err, >>=-eq-ok, bytes_eq_refl, put32, get16-put16, get32-put32,
}
use mpudp.WireV2.{
  Header, Envelope, AuthenticatedEnvelope, parse_envelope, authenticate, validate_envelope,
}
use mpudp.WireV2.Framing.{IsHeader}
use mpudp.WireV2.RoundTrip.{HasTagSize}
use mpudp.WireV2.Established
use mpudp.WireV2.Established.{Route, validate_route, decode_established, append_established}
use mpudp.WireV2.Established.RouteTrip.{
  IsRoute, decode-append_established, append_established-checks, append_established-computes,
}
use mpudp.WireV2.Context.{
  routed, EncodingContext, ContextAck, validate_context, context_bytes, encode_context, context_of,
  read_context, decode_context, read_ack, decode_ack, new_ack, validate_ack, append_context,
  append_ack, context_type, ack_type,
}

abbrev pub HasDigestSize : (List ℕ → List ℕ) → Type 0
HasDigestSize digest = (bytes : List ℕ) → length (digest bytes) ≡ 32

pub routed-ok :
    {A : Type 0} (result : Result Established.Error A) (a : A)
    → routed result ≡ ok a
    → result ≡ ok a
routed-ok (err cause) a h = cc
routed-ok (ok b) a h = ground arith

-- A valid context's fields fit their places.
record HasSizes (c : EncodingContext) : Type 0 where
  pub epoch_set : 1 ≤ c.epoch
  pub layout_fits : c.layout_id < 2 ^ 16
  pub protection_fits : c.protection_id < 2 ^ 16
  pub shard_fits : c.shard_bytes < 2 ^ 16
  pub descriptors_fit : c.max_descriptors < 2 ^ 16
  pub limit_fits : c.logical_limit < 2 ^ 32

validate_context-HasSizes : (c : EncodingContext) → validate_context c ≡ ok tt → HasSizes c
unfolding validate_context
validate_context-HasSizes c h = record {
  epoch_set = ground arith;
  layout_fits = ground arith;
  protection_fits = ground arith;
  shard_fits = ground arith;
  descriptors_fit = ground arith;
  limit_fits = ground arith;
}

context_of-context_bytes :
    (c : EncodingContext) → c.epoch < 2 ^ 32 → HasSizes c → context_of (context_bytes c) ≡ c
context_of-context_bytes c small x =
    let b = context_bytes c in
    let e1 = get32-put32 c.epoch (drop 4 b) small in
    let e2 = get16-put16 c.layout_id (drop 6 b) x.layout_fits in
    let e3 = get16-put16 c.protection_id (drop 8 b) x.protection_fits in
    let e4 = get16-put16 c.shard_bytes (drop 12 b) x.shard_fits in
    let e5 = get16-put16 c.max_descriptors (drop 14 b) x.descriptors_fit in
    let e6 = get32-put32 c.logical_limit (drop 20 b) x.limit_fits in
    λ i. record {
      epoch = e1 i;
      layout_id = e2 i;
      protection_id = e3 i;
      data_shards = c.data_shards;
      parity_shards = c.parity_shards;
      shard_bytes = e4 i;
      max_descriptors = e5 i;
      logical_limit = e6 i;
    }

encode_context-parts :
    (c : EncodingContext) (body : List ℕ)
    → encode_context c ≡ ok body
    → (validate_context c ≡ ok tt) × (body ≡ context_bytes c)
unfolding encode_context
encode_context-parts c body h =
    let (_, valid, h1) = >>=-eq-ok (validate_context c) _ h in (valid, ground (arith, h1))

read_context-context_bytes :
    (h : Header) (r : Route) (c : EncodingContext)
    → h.packet_type ≡ context_type
    → c.epoch < 2 ^ 32
    → validate_context c ≡ ok tt
    → read_context (record { header = h; route = r; body = context_bytes c }) ≡ ok (r, c)
unfolding read_context
read_context-context_bytes h r c typed small valid =
    let same = context_of-context_bytes c small (validate_context-HasSizes c valid) in
    let valid' : validate_context (context_of (context_bytes c)) ≡ ok tt =
      ap validate_context same ∙ valid in
    rw (typed, valid') refl ∙ ap (λ (y : EncodingContext). ok (r, y)) same

read_ack-bytes :
    (h : Header) (r : Route) (ack : ContextAck)
    → h.packet_type ≡ ack_type
    → ack.epoch < 2 ^ 32
    → 1 ≤ ack.epoch
    → length ack.hash ≡ 32
    → read_ack (record { header = h; route = r; body = put32 ack.epoch ++ ack.hash }) ≡ ok (r, ack)
unfolding read_ack
read_ack-bytes h r ack typed small set long =
    let epoch = get32-put32 ack.epoch ack.hash small in
    rw (typed, epoch) (ground (arith, long, set))

-- A packet that carries a context can be answered: the same route and key serve for its acknowledgement.
answerable :
    (session_id hash : List ℕ) (c : EncodingContext)
    → length hash ≡ 32
    → validate_envelope (record { packet_type = context_type; session_id = session_id }) (16 + 24)
      ≡ ok tt
    → validate_envelope
        (record { packet_type = ack_type; session_id = session_id })
        (16 + length (put32 c.epoch ++ hash))
      ≡ ok tt
unfolding validate_envelope
answerable session_id hash c long h = ground arith

route_for_ack :
    (r : Route) → validate_route context_type r ≡ ok tt → validate_route ack_type r ≡ ok tt
unfolding validate_route
route_for_ack r h = ground arith

decoded_context :
    (a : AuthenticatedEnvelope) (h : Header) (r : Route) (c : EncodingContext)
    → decode_established a ≡ ok (record { header = h; route = r; body = context_bytes c })
    → h.packet_type ≡ context_type
    → c.epoch < 2 ^ 32
    → validate_context c ≡ ok tt
    → decode_context a ≡ ok (r, c)
unfolding decode_context
decoded_context a h r c e typed small valid =
    rw e (read_context-context_bytes h r c typed small valid)

decoded_ack :
    (a : AuthenticatedEnvelope) (h : Header) (r : Route) (ack : ContextAck)
    → decode_established a
      ≡ ok (record { header = h; route = r; body = put32 ack.epoch ++ ack.hash })
    → h.packet_type ≡ ack_type
    → ack.epoch < 2 ^ 32
    → 1 ≤ ack.epoch
    → length ack.hash ≡ 32
    → decode_ack a ≡ ok (r, ack)
unfolding decode_ack
decoded_ack a h r ack e typed small set long = rw e (read_ack-bytes h r ack typed small set long)

module _ (digest : List ℕ → List ℕ) (c : EncodingContext) (valid : validate_context c ≡ ok tt) where
  abbrev ack_of : ContextAck
  ack_of = record { epoch = c.epoch; hash = digest (context_bytes c) }

  new_ack-computes : new_ack digest c ≡ ok ack_of
  unfolding new_ack encode_context
  new_ack-computes = rw valid

  validate_ack-accepts : validate_ack digest ack_of c ≡ ok tt
  unfolding validate_ack
  validate_ack-accepts =
      rw (new_ack-computes, bytes_eq_refl (digest (context_bytes c))) (ground arith)

module _ (mac : List ℕ → List ℕ → List ℕ) (digest : List ℕ → List ℕ) (key : List ℕ) where
  append_context-parts :
      (session_id : List ℕ) (r : Route) (c : EncodingContext) (packet : List ℕ)
      → append_context mac [] session_id r c key ≡ ok packet
      → (validate_context c ≡ ok tt)
        × (append_established mac []
              (record { packet_type = context_type; session_id = session_id })
              r
              (context_bytes c)
              key
            ≡ ok packet)
  unfolding append_context
  append_context-parts session_id r c packet e =
      let (body, encoded, e1) = >>=-eq-ok (encode_context c) _ e in
      let (valid, same) = encode_context-parts c body encoded in
      let h : Header = record { packet_type = context_type; session_id = session_id } in
      (
        valid,
        ap (λ (y : List ℕ). append_established mac [] h r y key) (sym same)
            ∙ routed-ok (append_established mac [] h r body key) packet e1,
      )

  append_ack-computes :
      (session_id : List ℕ) (r : Route) (ack : ContextAck) (packet : List ℕ)
      → 1 ≤ ack.epoch
      → append_established mac []
          (record { packet_type = ack_type; session_id = session_id })
          r
          (put32 ack.epoch ++ ack.hash)
          key
        ≡ ok packet
      → append_ack mac [] session_id r ack key ≡ ok packet
  unfolding append_ack
  append_ack-computes session_id r ack packet set e = rw e (ground (arith, set))

  -- With tags and digests of 32 bytes: a packet that `AppendEncodingContext` makes is parsed, is authenticated
  -- under the same key, and is decoded to its route and its context. The receiver can answer it over that route:
  -- `NewEncodingContextAck` makes an acknowledgement that the sender's `ValidateContext` accepts for the context,
  -- and `AppendEncodingContextAck` makes a packet of it, which is parsed, authenticated and decoded to it.
  pub context-acknowledged :
      (session_id : List ℕ) (r : Route) (c : EncodingContext) (packet : List ℕ)
      → HasTagSize mac
      → HasDigestSize digest
      → length session_id ≡ 16
      → IsRoute r
      → c.epoch < 2 ^ 32
      → append_context mac [] session_id r c key ≡ ok packet
      → ((e : Envelope) × (a : AuthenticatedEnvelope) × (parse_envelope packet ≡ ok e)
          × (authenticate mac e key ≡ ok a)
          × (decode_context a ≡ ok (r, c)))
        × (ack : ContextAck) × (reply : List ℕ) × (new_ack digest c ≡ ok ack)
        × (validate_ack digest ack c ≡ ok tt)
        × (append_ack mac [] session_id r ack key ≡ ok reply)
        × (e : Envelope) × (a : AuthenticatedEnvelope) × (parse_envelope reply ≡ ok e)
        × (authenticate mac e key ≡ ok a)
        × (decode_ack a ≡ ok (r, ack))
  context-acknowledged session_id r c packet size digest_size sixteen x small made =
      let (valid, appended) = append_context-parts session_id r c packet made in
      let set = (validate_context-HasSizes c valid).epoch_set in
      let there : Header = record { packet_type = context_type; session_id = session_id } in
      let back : Header = record { packet_type = ack_type; session_id = session_id } in
      let hd : IsHeader there = record { type_range = omega arith; id_size = sixteen } in
      let hd' : IsHeader back = record { type_range = omega arith; id_size = sixteen } in
      let ack = ack_of digest c valid in
      let hash = digest_size (context_bytes c) in
      let answer = put32 ack.epoch ++ ack.hash in
      let (k, v, route_valid) =
        append_established-checks mac key [] there r (context_bytes c) packet appended in
      let (reply, replied) =
        append_established-computes mac key [] back r answer k refl (omega (arith, hash))
          (answerable session_id ack.hash c hash v) (route_for_ack r route_valid) in
      let (e, a, parsed, authenticated, decoded) =
        decode-append_established mac key there r (context_bytes c) packet size hd x appended in
      let (e', a', parsed', authenticated', decoded') =
        decode-append_established mac key back r answer reply size hd' x replied in
      (
        (e, a, parsed, authenticated, decoded_context a there r c decoded refl small valid),
        ack,
        reply,
        new_ack-computes digest c valid,
        validate_ack-accepts digest c valid,
        append_ack-computes session_id r ack reply set replied,
        e',
        a',
        parsed',
        authenticated',
        decoded_ack a' back r ack decoded' refl small set hash,
      )
