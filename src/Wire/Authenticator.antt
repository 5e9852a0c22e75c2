-- ===== src/Wire/Authenticator.antt =====
-- internal/wire/authenticator.go: a key with a cache of at most four HMAC working states.
-- A working state is what has been written to its hash since the last reset. The scratch tag,
-- which every use overwrites, is left out. `states` is the buffered channel, oldest first.
use mpudp.Prelude.{
  ℕ, ◌≤◌, ◌≡◌, refl, List, [], ◌∷◌, ◌++◌, Bool, length, length-append, take, drop, ltb, ◌==◌,
  if◌then◌else◌, Result, ok, ◌>>◌, reject_if, bytes_eq, arith, ap,
}
use mpudp.Wire.Types.{Error, invalid_key, Message}
use mpudp.Wire.Codec.{append_authenticated, decode_authenticated, open_packet, check_tag}

abbrev pub authentication_cache_capacity : ℕ
authentication_cache_capacity = 4

pub record Authenticator : Type 0 where
  pub key : List ℕ
  pub states : List (List ℕ)

unfoldable pub new_authenticator : List ℕ → Result Error Authenticator
new_authenticator psk = do
  reject_if (length psk == 0) invalid_key
  ok (record { key = psk; states = [] })

-- `state.mac.Reset()`.
reset : List ℕ → List ℕ
reset state = []

-- A cached state is reset; with no state at hand a fresh one is made.
unfoldable pub acquire : Authenticator → List ℕ × Authenticator
unfolding reset
acquire a = elim a.states [
  | [] ↦ ([], a)
  | state ∷ rest ↦ (reset state, record a { states = rest })
]

-- A send on the buffered channel, dropped when the channel is full.
unfoldable pub release : Authenticator → List ℕ → Authenticator
release a state =
    if ltb (length a.states) authentication_cache_capacity
    then record a { states = a.states ++ (state ∷ []) }
    else a

acquired_empty :
    (key : List ℕ) (states : List (List ℕ))
    → (acquire (record { key = key; states = states })).0 ≡ []
unfolding acquire
acquired_empty key [] = refl
acquired_empty key (s ∷ rest) = refl

module _ (mac : List ℕ → List ℕ → List ℕ) where
  -- The HMAC of `bytes` by an acquired state, and the cache after the state's release.
  unfoldable pub sum : Authenticator → List ℕ → List ℕ × Authenticator
  unfolding acquire release
  sum a bytes =
      let (state, a') = acquire a in
      let written = state ++ bytes in (mac a.key written, release a' written)

  -- The packet with the tag of its first `tag_offset` bytes written behind them.
  unfoldable pub sign : Authenticator → List ℕ → ℕ → List ℕ × Authenticator
  unfolding sum
  sign a packet tag_offset =
      let (tag, a') = sum a (take tag_offset packet) in (take tag_offset packet ++ tag, a')

  unfoldable pub verify : Authenticator → List ℕ → ℕ → Bool × Authenticator
  unfolding sum
  verify a packet tag_offset =
      let (tag, a') = sum a (take tag_offset packet) in (bytes_eq tag (drop tag_offset packet), a')

  -- `Append` and `Decode`: the plain functions with the cached states in place of a fresh HMAC.
  unfoldable pub append : Authenticator → List ℕ → Message → ℕ → Result Error (List ℕ)
  append a dst message budget =
      append_authenticated (λ _ bytes. (sum a bytes).0) dst message a.key budget

  unfoldable pub decode : Authenticator → List ℕ → ℕ → Result Error Message
  decode a datagram receive_limit =
      decode_authenticated (λ _ bytes. (sum a bytes).0) datagram a.key receive_limit

  sum-eq-mac : (a : Authenticator) → (λ (bytes : List ℕ). (sum a bytes).0) ≡ mac a.key
  unfolding sum
  sum-eq-mac a =
      ap {B = List ℕ → List ℕ} (λ (s : List ℕ) bytes. mac a.key (s ++ bytes))
        (acquired_empty a.key a.states)

  -- Whatever the cached states hold, an authenticator encodes, decodes and verifies just as the
  -- plain functions do with its key.
  pub cached_eq_plain :
      (a : Authenticator) (bytes : List ℕ) (message : Message) (limit : ℕ)
      → (append a bytes message limit ≡ append_authenticated mac bytes message a.key limit)
        × (decode a bytes limit ≡ decode_authenticated mac bytes a.key limit)
        × ((verify a bytes limit).0 ≡ bytes_eq (mac a.key (take limit bytes)) (drop limit bytes))
        × ((sign a bytes limit).0 ≡ take limit bytes ++ mac a.key (take limit bytes))
  unfolding append decode verify sign append_authenticated decode_authenticated open_packet
      check_tag
  cached_eq_plain a bytes message limit = (
    ap (λ (f : List ℕ → List ℕ). append_authenticated (λ _. f) bytes message a.key limit)
        (sum-eq-mac a),
    ap (λ (f : List ℕ → List ℕ). decode_authenticated (λ _. f) bytes a.key limit) (sum-eq-mac a),
    ap (λ (f : List ℕ → List ℕ). bytes_eq (f (take limit bytes)) (drop limit bytes)) (sum-eq-mac a),
    ap (λ (f : List ℕ → List ℕ). take limit bytes ++ f (take limit bytes)) (sum-eq-mac a),
  )

-- One caller's step on the shared cache: it takes a state out, or puts a state back.
pub data Access : Type 0 where
  takes : Access
  returns : List ℕ → Access

unfoldable pub access : Authenticator → Access → Authenticator
unfolding acquire release
access a takes = (acquire a).1
access a (returns state) = release a state

-- The accesses of all callers, in the order in which they reach the channel.
unfoldable pub accesses : Authenticator → List Access → Authenticator
accesses a [] = a
accesses a (x ∷ xs) = accesses (access a x) xs

taken-bounded :
    (key : List ℕ) (states : List (List ℕ))
    → length states ≤ authentication_cache_capacity
    → length (access (record { key = key; states = states }) takes).states
      ≤ authentication_cache_capacity
unfolding access
taken-bounded key [] h = omega arith
taken-bounded key (s ∷ rest) h = omega arith

access-bounded :
    (a : Authenticator) (x : Access)
    → length a.states ≤ authentication_cache_capacity
    → length (access a x).states ≤ authentication_cache_capacity
unfolding access
access-bounded a takes h = taken-bounded a.key a.states h
access-bounded a (returns state) h = ground (arith, length-append a.states (state ∷ []))

accesses-bounded :
    (a : Authenticator) (xs : List Access)
    → length a.states ≤ authentication_cache_capacity
    → length (accesses a xs).states ≤ authentication_cache_capacity
unfolding accesses
accesses-bounded a [] h = h
accesses-bounded a (x ∷ xs) h = accesses-bounded (access a x) xs (access-bounded a x h)

-- A new authenticator's cache never holds more than four states, in whatever order its users'
-- accesses interleave.
pub new_authenticator-bounded :
    (psk : List ℕ) (a : Authenticator) (xs : List Access)
    → new_authenticator psk ≡ ok a
    → length (accesses a xs).states ≤ authentication_cache_capacity
unfolding new_authenticator
new_authenticator-bounded psk a xs e = accesses-bounded a xs (ground arith)
