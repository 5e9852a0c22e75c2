-- ===== src/ReassemblyV2/Receiver.antt =====
-- internal/reassemblyv2/reassembly.go: the Receiver's operations, with `scope` for the credit Session. The owner
-- serializes the calls.
use mpudp.Prelude.{
  ℕ, zero, suc, ◌+◌, ◌-◌, ◌*◌, List, [], ◌∷◌, ◌++◌, Bool, true, false, not, ◌&&◌, ◌||◌, ◌==◌, ltb,
  if◌then◌else◌, length, Option, none, some, Result, ok, err, ◌>>=◌, ◌>>◌, reject_if,
}
use mpudp.Credit
use mpudp.FecV2.{Fragment, max_descriptors_limit}
use mpudp.RecvWindow
use mpudp.ReassemblyV2.{
  Error, invalid, closed_receiver, from_credit, Limits, Assembly, required_initial_bytes, inspect,
  write, fresh, is_due,
}

-- What the Receiver uses of its credit Session; `S` is the ledger's state, a lease is a number.
pub record Scope (S : Type 0) : Type 0 where
  pub is_closed : S → Bool
  pub is_pending : S → Bool
  pub reserve : S → ℕ → Result Credit.Error (S × ℕ)
  pub bind_bytes : S → ℕ → ℕ → Result Credit.Error (S × ℕ)
  pub release : S → ℕ → S
  pub shrink_bytes : S → ℕ → ℕ → S

pub record State : Type 0 where
  pub limits : Limits
  pub window : RecvWindow.Window
  pub window_lease : Option ℕ
  pub pending : List (ℕ × Assembly)
  pub head : ℕ  -- uint64
  pub tail : ℕ  -- uint64
  pub last : ℕ
  pub have_time : Bool
  pub is_closed : Bool

pub record Datagram : Type 0 where
  pub id : ℕ  -- uint64
  pub contents : List ℕ
  pub lease : ℕ

abbrev pub credit {ℓ} : {A : Type ℓ} → Result Credit.Error A → Result Error A
credit (err cause) = err (from_credit cause)
credit (ok a) = ok a

-- The map's operations.
abbrev pub find : List (ℕ × Assembly) → ℕ → Option Assembly
find [] id = none
find ((k, a) ∷ rest) id = if k == id then some a else find rest id

abbrev pub delete : List (ℕ × Assembly) → ℕ → List (ℕ × Assembly)
delete [] id = []
delete ((k, a) ∷ rest) id = let more = delete rest id in if k == id then more else (k, a) ∷ more

abbrev pub change : List (ℕ × Assembly) → ℕ → (Assembly → Assembly) → List (ℕ × Assembly)
change [] id f = []
change ((k, a) ∷ rest) id f = (if k == id then (k, f a) else (k, a)) ∷ change rest id f

unfoldable pub check_time : State → ℕ → Result Error (Unit {0})
check_time r now = do
  reject_if r.is_closed closed_receiver
  reject_if (r.have_time && ltb now r.last) invalid

unfoldable pub validate_each : Limits → ℕ → List Fragment → Result Error (Unit {0})
validate_each l previous [] = ok tt
validate_each l previous (f ∷ fs) = do
  reject_if
      (f.datagram_id == 0
        || not (ltb previous f.datagram_id)
        || ltb l.max_datagram_bytes f.total_bytes
        || ltb f.total_bytes f.offset
        || ltb (f.total_bytes - f.offset) (length f.payload)
        || (length f.payload == 0 && not (f.total_bytes == 0)))
      invalid
  validate_each l f.datagram_id fs

unfoldable pub validate : Limits → List Fragment → Result Error (Unit {0})
validate l fs = do
  reject_if (length fs == 0 || ltb max_descriptors_limit (length fs)) invalid
  validate_each l 0 fs

-- `planned`, and the same with the lease of a new assembly.
pub data Planned : Type 0 where
  ignored repeated expires opens : Planned
  adds : ℕ → Planned
  opens_with : ℕ → Planned

-- The plan for one fragment, and the number of pending Datagrams after it.
unfoldable pub plan_one : State → ℕ → Fragment → ℕ → Result Error (Planned × ℕ)
plan_one r now f count = elim (find r.pending f.datagram_id) [
  | some a ↦ do
    reject_if (not (a.total_bytes == f.total_bytes)) invalid
    if is_due r.limits a now then ok (expires, count - 1) else do
      (place, duplicate) ← inspect a f
      reject_if (not duplicate && length a.ranges == r.limits.max_fragments)
          (from_credit Credit.resource_limit)
      ok (if duplicate then repeated else adds place, count)
  | none ↦
      if RecvWindow.is_unseen (RecvWindow.state r.window f.datagram_id)
      then ok (opens, count + 1)
      else ok (ignored, count)
]

unfoldable pub plan_all :
    State → ℕ → List Fragment → ℕ → Result Error (List (Fragment × Planned) × ℕ)
plan_all r now [] count = ok ([], count)
plan_all r now (f ∷ fs) count = do
  (planned, after) ← plan_one r now f count
  (more, end) ← plan_all r now fs after
  ok ((f, planned) ∷ more, end)

-- `unsafe.Sizeof(interval{})` and `deadlineLinkBytes`.
abbrev pub interval_bytes : ℕ
interval_bytes = 8

abbrev pub link_bytes : ℕ
link_bytes = 16

abbrev pub charge_of : Limits → Fragment → ℕ
charge_of l f = f.total_bytes + l.max_fragments * interval_bytes + link_bytes

abbrev pub with_next : ℕ → Assembly → Assembly
with_next id a = record a { next = id }

abbrev pub with_previous : ℕ → Assembly → Assembly
with_previous id a = record a { previous = id }

unfoldable pub add_pending : State → ℕ → Assembly → State
add_pending r id a =
    let linked = (if r.tail == 0 then r.pending else change r.pending r.tail (with_next id)) in
    record r {
      head = if r.tail == 0 then id else r.head;
      pending = (id, record a { previous = r.tail }) ∷ linked;
      tail = id;
    }

unfoldable pub remove_pending : State → ℕ → Assembly → State
remove_pending r id a =
    let before =
      (if a.previous == 0 then r.pending else change r.pending a.previous (with_next a.next)) in
    let after = (if a.next == 0 then before else change before a.next (with_previous a.previous)) in
    record r {
      head = if a.previous == 0 then a.next else r.head;
      tail = if a.next == 0 then a.previous else r.tail;
      pending = delete after id;
    }

abbrev pub with_first :
    Fragment × Planned
    → Result Error (List (Fragment × Planned))
    → Result Error (List (Fragment × Planned))
with_first first (err cause) = err cause
with_first first (ok more) = ok (first ∷ more)

abbrev pub with_datagram : Option Datagram → List Datagram → List Datagram
with_datagram none ds = ds
with_datagram (some d) ds = d ∷ ds

module _ {S : Type 0} (scope : Scope S) where
  unfoldable pub new_prepaid : S → Limits → ℕ → Result Error (S × State)
  new_prepaid s l prepaid = do
    bytes ← required_initial_bytes l
    reject_if (scope.is_closed s || scope.is_pending s) invalid
    (s', lease) ← credit (scope.bind_bytes s prepaid bytes)
    ok (
      s',
      record {
        limits = l;
        window = record {
          span = l.span;
          highest = 0;
          done = RecvWindow.no_bits;
          lost = RecvWindow.no_bits;
          is_closed = false;
        };
        window_lease = some lease;
        pending = [];
        head = 0;
        tail = 0;
        last = 0;
        have_time = false;
        is_closed = false;
      },
    )

  -- `New`: a reservation that is given up where `NewPrepaid` fails.
  unfoldable pub new : S → Limits → S × Result Error State
  unfolding new_prepaid
  new s l = elim (required_initial_bytes l) [
    | err cause ↦ (s, err cause)
    | ok bytes ↦
        if scope.is_closed s || scope.is_pending s
        then (s, err invalid)
        else elim (scope.reserve s bytes) [
          | err cause ↦ (s, err (from_credit cause))
          | ok (s', lease) ↦ elim (new_prepaid s' l lease) [
            | err cause ↦ (scope.release s' lease, err cause)
            | ok (s'', r) ↦ (s'', ok r)
          ]
        ]
  ]

  unfoldable pub release_each : S → List ℕ → S
  release_each s [] = s
  release_each s (lease ∷ leases) = release_each (scope.release s lease) leases

  -- The reservations for the new Datagrams, all or none; `taken` are the leases so far.
  unfoldable pub reserve_all :
      S → Limits → List ℕ → List (Fragment × Planned) → S × Result Error (List (Fragment × Planned))
  reserve_all s l taken [] = (s, ok [])
  reserve_all s l taken ((f, opens) ∷ rest) = elim (scope.reserve s (charge_of l f)) [
    | err cause ↦ (release_each s taken, err (from_credit cause))
    | ok (s', lease) ↦
        let (s'', result) = reserve_all s' l (taken ++ (lease ∷ [])) rest in
        (s'', with_first (f, opens_with lease) result)
  ]
  reserve_all s l taken ((f, planned) ∷ rest) =
      let (s', result) = reserve_all s l taken rest in (s', with_first (f, planned) result)

  -- `expire`.
  unfoldable pub expire : S × State → ℕ → Assembly → S × State
  expire (s, r) id a =
      let r' = record r { window = (RecvWindow.finish r.window id RecvWindow.expired).1 } in
      (scope.release s a.lease, remove_pending r' id a)

  -- A fragment's bytes are written; the Datagram is handed over once it is whole.
  unfoldable pub settle : S × State → ℕ → Assembly → S × State × Option Datagram
  settle (s, r) id a =
      if a.received == a.total_bytes
      then (
        scope.shrink_bytes s a.lease (length a.contents),
        remove_pending
            (record r { window = (RecvWindow.finish r.window id RecvWindow.completed).1 }) id a,
        some (record { id = id; contents = a.contents; lease = a.lease }),
      )
      else (s, record r { pending = change r.pending id (λ _. a) }, none)

  -- One round of the committing loop. A planned assembly is still there: the IDs of a group differ.
  unfoldable pub commit_one : ℕ → S × State → Fragment → Planned → S × State × Option Datagram
  commit_one now (s, r) f (opens_with lease) =
      let a = record (fresh f.total_bytes now lease) { previous = r.tail } in
      settle
        (
          s,
          add_pending (record r { window = (RecvWindow.admit r.window f.datagram_id).1 })
              f.datagram_id a,
        )
        f.datagram_id (write a f 0)
  commit_one now (s, r) f (adds place) = elim (find r.pending f.datagram_id) [
    | none ↦ (s, r, none)
    | some a ↦ settle (s, r) f.datagram_id (write a f place)
  ]
  commit_one now (s, r) f expires = elim (find r.pending f.datagram_id) [
    | none ↦ (s, r, none)
    | some a ↦ let (s', r') = expire (s, r) f.datagram_id a in (s', r', none)
  ]
  commit_one now (s, r) f planned = (s, r, none)

  unfoldable pub commit_all : ℕ → S × State → List (Fragment × Planned) → S × State × List Datagram
  commit_all now (s, r) [] = (s, r, [])
  commit_all now (s, r) ((f, planned) ∷ rest) =
      let (s', r', done) = commit_one now (s, r) f planned in
      let (s'', r'', more) = commit_all now (s', r') rest in (s'', r'', with_datagram done more)

  -- The checks and the plan of `AddGroup`.
  unfoldable pub plan_group :
      S → State → ℕ → List Fragment → Result Error (List (Fragment × Planned))
  plan_group s r now fs = do
    check_time r now
    reject_if (scope.is_closed s) (from_credit Credit.closed_scope)
    validate r.limits fs
    (plan, count) ← plan_all r now fs (length r.pending)
    reject_if (ltb r.limits.max_datagrams count) (from_credit Credit.resource_limit)
    ok plan

  -- The rest of `AddGroup`, behind the reservations.
  unfoldable pub add_planned :
      S × Result Error (List (Fragment × Planned))
      → State
      → ℕ
      → S × State × Result Error (List Datagram)
  add_planned (s, err cause) r now = (s, r, err cause)
  add_planned (s, ok ready) r now =
      let (s', r', completed) =
        commit_all now (s, record r { last = now; have_time = true }) ready in
      (s', r', ok completed)

  unfoldable pub add_group :
      S → State → ℕ → List Fragment → S × State × Result Error (List Datagram)
  add_group s r now fs = elim (plan_group s r now fs) [
    | err cause ↦ (s, r, err cause)
    | ok plan ↦ add_planned (reserve_all s r.limits [] plan) r now
  ]

  -- The loop of `Expire`, at most once for each pending Datagram.
  unfoldable pub expire_due : ℕ → S × State → ℕ → S × State × List ℕ
  expire_due zero (s, r) now = (s, r, [])
  expire_due (suc fuel) (s, r) now = elim (find r.pending r.head) [
    | none ↦ (s, r, [])
    | some a ↦
        let (s', r', more) = expire_due fuel (expire (s, r) r.head a) now in
        if r.head == 0 || not (is_due r.limits a now) then (s, r, []) else (s', r', r.head ∷ more)
  ]

  unfoldable pub expire_all : S → State → ℕ → Result Error (S × State × List ℕ)
  expire_all s r now = do
    check_time r now
    ok (expire_due (length r.pending) (s, record r { last = now; have_time = true }) now)

  unfoldable pub drain : ℕ → S × State → S × State
  drain zero (s, r) = (s, r)
  drain (suc fuel) (s, r) = elim (find r.pending r.head) [
    | none ↦ (s, r)
    | some a ↦
        let rest = drain fuel (expire (s, r) r.head a) in if r.head == 0 then (s, r) else rest
  ]

  unfoldable pub close : S → State → S × State
  close s r =
      if r.is_closed
      then (s, r)
      else (let (s', r') = drain (length r.pending) (s, record r { is_closed = true }) in
          (
            elim r'.window_lease [ none ↦ s' | some lease ↦ scope.release s' lease ],
            record r' { pending = []; window = RecvWindow.close r'.window; window_lease = none },
          ))

unfoldable pub status : State → ℕ → RecvWindow.Status
status r id = if r.is_closed then RecvWindow.closed else RecvWindow.state r.window id

-- The earliest expiry, none where nothing is pending.
unfoldable pub next_deadline : State → Option ℕ
next_deadline r = if r.is_closed || r.head == 0 then none else elim (find r.pending r.head) [
  | none ↦ none
  | some a ↦ some (a.admitted + r.limits.timeout)
]
