-- ===== src/Fec/Expiry.antt =====
-- internal/fec/expiry_heap.go: the entries of a heap, of which container/heap keeps a least one in front. `Less`
-- orders the entries of different keys totally, so the place of the others does not show.
use mpudp.Prelude.{ℕ, List, [], ◌∷◌, Bool, ◌&&◌, ◌==◌, ltb, if◌then◌else◌, bytes_eq}

pub record BlockKey : Type 0 where
  pub session_id : List ℕ  -- [16]byte
  pub packet_id : ℕ  -- uint64

pub record ExpiryEntry : Type 0 where
  pub key : BlockKey
  pub deadline : ℕ

abbrev pub same_key : BlockKey → BlockKey → Bool
same_key a b = a.packet_id == b.packet_id && bytes_eq a.session_id b.session_id

-- The loop of `keyLess`; `last` compares the packet IDs.
unfoldable pub bytes_less : List ℕ → List ℕ → Bool → Bool
bytes_less [] bs last = last
bytes_less (a ∷ rest) [] last = last
bytes_less (a ∷ more) (b ∷ bs) last =
    let rest = bytes_less more bs last in if a == b then rest else ltb a b

unfoldable pub key_less : BlockKey → BlockKey → Bool
unfolding bytes_less
key_less a b = bytes_less a.session_id b.session_id (ltb a.packet_id b.packet_id)

unfoldable pub entry_less : ExpiryEntry → ExpiryEntry → Bool
unfolding key_less
entry_less a b =
    if a.deadline == b.deadline then key_less a.key b.key else ltb a.deadline b.deadline

-- `heap[0]` of a heap with `e` and `es`.
unfoldable pub least : ExpiryEntry → List ExpiryEntry → ExpiryEntry
unfolding entry_less
least e [] = e
least e (f ∷ fs) = least (if entry_less f e then f else e) fs

-- No two entries of a heap have the same key and deadline, so this is the pointers' equality.
abbrev pub same_entry : ExpiryEntry → ExpiryEntry → Bool
same_entry a b = a.deadline == b.deadline && same_key a.key b.key

-- `heap.Pop` and `heap.Remove` of `e`.
abbrev pub without : ExpiryEntry → List ExpiryEntry → List ExpiryEntry
without e [] = []
without e (f ∷ fs) = let rest = without e fs in if same_entry f e then fs else f ∷ rest
