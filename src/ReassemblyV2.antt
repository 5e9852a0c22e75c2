-- ===== src/ReassemblyV2.antt =====
-- internal/reassemblyv2/reassembly.go: the assembly of one Datagram, its limits and the Receiver's state. Times are
-- nanoseconds on the owner's clock. The slice `data` is the field `contents`; the map `pending` is a list of
-- its entries, in which an ID stands once.
pub mod Receiver
pub mod Ranges
pub mod Assembling
pub mod Pending
pub mod Delivering
pub mod Groups
pub mod Ledger
mod Tests
use mpudp.Prelude.{
  ℕ, zero, suc, ◌+◌, ◌-◌, ◌*◌, ◌/◌, ◌%◌, ◌^◌, List, [], ◌∷◌, ◌++◌, Bool, true, false, not, ◌&&◌,
  ◌||◌, ◌==◌, ltb, if◌then◌else◌, length, get_or, take, drop, slice, bytes_eq, replicate, Option,
  none, some, Result, ok, err, ◌>>=◌, ◌>>◌, reject_if,
}
use mpudp.Credit
use mpudp.FecV2.{Fragment, max_datagram_limit, max_descriptors_limit, outside}
use mpudp.RecvWindow

pub data Error : Type 0 where
  invalid closed_receiver : Error
  from_credit : Credit.Error → Error

pub record Limits : Type 0 where
  pub max_datagrams : ℕ
  pub max_datagram_bytes : ℕ
  pub max_fragments : ℕ
  pub span : ℕ  -- uint32
  pub timeout : ℕ

pub record Interval : Type 0 where
  pub start : ℕ  -- uint32
  pub end : ℕ  -- uint32

pub record Assembly : Type 0 where
  pub total_bytes : ℕ  -- uint32
  pub admitted : ℕ
  pub contents : List ℕ
  pub ranges : List Interval
  pub received : ℕ  -- uint32
  pub lease : ℕ
  pub previous : ℕ  -- uint64
  pub next : ℕ  -- uint64

unfoldable pub required_initial_bytes : Limits → Result Error ℕ
required_initial_bytes l = do
  reject_if
      (outside 1 65536 l.max_datagrams
        || outside 1 max_datagram_limit l.max_datagram_bytes
        || outside 1 4096 l.max_fragments
        || outside 1 RecvWindow.max_span l.span
        || ltb l.span l.max_datagrams
        || outside 100000000 60000000000 l.timeout)
      invalid
  ok ((l.span + 63) / 64 * 16)

-- `slices.BinarySearchFunc` on ranges in order of their starts: the first place whose start is not below `offset`.
unfoldable pub search : List Interval → ℕ → ℕ
search [] offset = 0
search (r ∷ rs) offset = let place = search rs offset in if ltb r.start offset then suc place else 0

abbrev pub no_interval : Interval
no_interval = record { start = 0; end = 0 }

-- The place of the new range, and whether the fragment is there already.
unfoldable pub inspect : Assembly → Fragment → Result Error (ℕ × Bool)
inspect a f =
    let end = f.offset + length f.payload in
    let place = search a.ranges f.offset in
    let here = get_or a.ranges place no_interval in
    let before = get_or a.ranges (place - 1) no_interval in
    if ltb place (length a.ranges) && here.start == f.offset && here.end == end
    then (if bytes_eq (slice a.contents f.offset end) f.payload
        then ok (place, true)
        else err invalid)
    else if (ltb 0 place && ltb f.offset before.end)
        || (ltb place (length a.ranges) && ltb here.start end)
    then err invalid
    else ok (place, false)

-- `copy(data[offset:], payload)`.
unfoldable pub copy : List ℕ → ℕ → List ℕ → List ℕ
copy [] offset payload = []
copy (x ∷ xs) (suc offset) payload = x ∷ copy xs offset payload
copy (x ∷ xs) zero [] = x ∷ xs
copy (x ∷ xs) zero (p ∷ payload) = p ∷ copy xs zero payload

-- `slices.Insert`.
abbrev pub insert : List Interval → ℕ → Interval → List Interval
insert rs place r = take place rs ++ (r ∷ drop place rs)

-- What `AddGroup` writes to the assembly for a fragment that is not a duplicate.
unfoldable pub write : Assembly → Fragment → ℕ → Assembly
write a f place = record a {
  contents = copy a.contents f.offset f.payload;
  ranges = insert a.ranges place (record { start = f.offset; end = f.offset + length f.payload });
  received = a.received + length f.payload;
}

-- `&assembly{…}` with its buffers.
unfoldable pub fresh : ℕ → ℕ → ℕ → Assembly
fresh total now lease = record {
  total_bytes = total;
  admitted = now;
  contents = replicate total 0;
  ranges = [];
  received = 0;
  lease = lease;
  previous = 0;
  next = 0;
}

unfoldable pub is_due : Limits → Assembly → ℕ → Bool
is_due l a now = not (ltb (now - a.admitted) l.timeout)
