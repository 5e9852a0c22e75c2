-- ===== src/WireV2/Established/Tests.antt =====
-- internal/wirev2/established.go: a packet with a route.
use mpudp.Prelude.{ℕ, ◌+◌, ◌*◌, ◌%◌, ◌≡◌, refl, List, [], ◌∷◌, ◌++◌, length, ok, put64, replicate}
use mpudp.WireV2.{Header, append_envelope, validate_envelope, encode_prefix}
use mpudp.WireV2.Established.{Route, validate_route, encode_route, append_established}

-- A stand-in for HMAC-SHA-256.
abbrev mixed : List ℕ → ℕ
mixed [] = 5
mixed (b ∷ bs) = (b + 31 * mixed bs) % 65536

abbrev tag : List ℕ → List ℕ → List ℕ
tag key bytes = put64 (mixed bytes) ++ (put64 (mixed key) ++ (put64 1 ++ put64 (length bytes)))

abbrev key : List ℕ
key = replicate 32 4

abbrev header : Header
header = record { packet_type = 32; session_id = replicate 16 2 }

abbrev route : Route
route = record { path_id = 3; generation = 9; budget_epoch = 1 }

abbrev typed : List ℕ
typed = 1 ∷ 2 ∷ 3 ∷ []

abbrev signed_part : List ℕ
signed_part =
    b'M'
    ∷ b'P'
    ∷ b'U'
    ∷ b'D'
    ∷ 2
    ∷ 32
    ∷ 0
    ∷ 19
    ∷ (replicate 16 2 ++ (0 ∷ 0 ∷ 0 ∷ 3 ∷ (put64 9 ++ (0 ∷ 0 ∷ 0 ∷ 1 ∷ typed))))

abbrev packet : List ℕ
packet = signed_part ++ tag key signed_part

appended : append_established tag [] header route typed key ≡ ok packet
unfolding append_established append_envelope validate_envelope encode_prefix validate_route
    encode_route
appended = refl
