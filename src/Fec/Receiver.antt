-- ===== src/Fec/Receiver.antt =====
-- internal/fec: the replay window as `AddVerifiedShard` and `sweepLocked` use it, with the keys of
-- the pending blocks. A block is opened, and is then delivered or dropped.
use mpudp.Prelude.{
  ℕ, ◌+◌, ◌-◌, ◌%◌, ◌≤◌, ◌<◌, ◌≡◌, ◌≢◌, refl, sym, subst, Bool, true, false, ◌==◌, leb,
  if◌then◌else◌, Bool-cases, ◌⊎◌, inl, inr, arith,
}
use mpudp.RecvWindow.{no_bits}
use mpudp.RecvWindow.Slots.{new_id-in_arc, old_id-in_arc}
use mpudp.Fec.Replay.{
  ReplayWindow, replay_window_ids, too_old, contains, moved_on, admit, complete,
  clear_positions-IsCleared,
}

-- `delivered id` counts the Datagrams that were returned for `id`.
pub record Receiver : Type 0 where
  pub window : ReplayWindow
  pub pending : ℕ → Bool
  pub delivered : ℕ → ℕ

abbrev pub empty_receiver : Receiver
empty_receiver = record {
  window = record { completed = no_bits; highest = 0; started = false };
  pending = λ _. false;
  delivered = λ _. 0;
}

abbrev pub with_pending : Receiver → ℕ → Bool → ℕ → Bool
with_pending r id b k = if k == id then b else r.pending k

abbrev pub with_delivered : Receiver → ℕ → ℕ → ℕ
with_delivered r id k = if k == id then r.delivered k + 1 else r.delivered k

-- A first shard's tests and `admit`; the last shard's `removePendingLocked` and `complete`; an
-- expired or broken block's removal.
pub data Step (r : Receiver) : Receiver → Type 0 where
  opens :
      (id : ℕ)
      → r.pending id ≡ false
      → too_old r.window id ≡ false
      → contains r.window id ≡ false
      → Step r (record r { window = admit r.window id; pending = with_pending r id true })
  delivers :
      (id : ℕ)
      → r.pending id ≡ true
      → Step r (record {
        window = complete r.window id;
        pending = with_pending r id false;
        delivered = with_delivered r id;
      })
  drops : (id : ℕ) → r.pending id ≡ true → Step r (record r { pending = with_pending r id false })

pub data Reach (r : Receiver) : Receiver → Type 0 where
  here : Reach r r
  next : {s t : Receiver} → Reach r s → Step s t → Reach r t

abbrev pub IsShown : ReplayWindow → ℕ → Type 0
IsShown w id = (w.started ≡ true) × (id ≤ w.highest) × (w.highest < id + replay_window_ids)

-- The bits are the deliveries of the shown IDs, and nothing is delivered that was not opened.
pub record IsExact (r : Receiver) : Type 0 where
  pub exact :
      (id : ℕ)
      → IsShown r.window id
      → r.window.completed.bits (id % replay_window_ids) ≡ leb 1 (r.delivered id)
  pub once : (id : ℕ) → r.delivered id ≤ 1
  pub apart : (id : ℕ) → r.pending id ≡ true → r.delivered id ≡ 0
  pub opened : (id : ℕ) → r.pending id ≡ true → (r.window.started ≡ true) × (id ≤ r.window.highest)
  pub above : (id : ℕ) → r.window.highest < id → r.delivered id ≡ 0
  pub idle :
      r.window.started ≡ false
      → (id : ℕ) → (r.window.completed.bits id ≡ false) × (r.delivered id ≡ 0)

pub empty-IsExact : IsExact empty_receiver
empty-IsExact = record {
  exact = λ id s. refl;
  once = λ id. omega arith;
  apart = λ id p. refl;
  opened = λ id p. cc;
  above = λ id a. refl;
  idle = λ _ id. (refl, refl);
}

pub contains-exact :
    (r : Receiver) (id : ℕ)
    → IsExact r
    → too_old r.window id ≡ false
    → contains r.window id ≡ leb 1 (r.delivered id)
unfolding contains too_old
contains-exact r id x new =
    let idle : r.window.started ≡ false → r.delivered id ≡ 0 = λ s. (x.idle s id).1 in
    let above : r.window.highest < id → r.delivered id ≡ 0 = x.above id in
    let shown : r.window.started ≡ true
        → id ≤ r.window.highest
        → r.window.highest < id + replay_window_ids
        → r.window.completed.bits (id % replay_window_ids) ≡ leb 1 (r.delivered id) =
      λ a b c. x.exact id (a, b, c) in
    ground (arith, idle, above, shown)

pub same_or_not : (a b : ℕ) → (a ≡ b) ⊎ (a ≢ b)
same_or_not a b = ground arith

-- The bits of the IDs that `moved_on` keeps and brings in.
moved_on-exact :
    (w : ReplayWindow) (id k : ℕ) (b : Bool)
    → w.highest < id
    → k ≤ id
    → id < k + replay_window_ids
    → (k ≤ w.highest → w.completed.bits (k % replay_window_ids) ≡ b)
    → (w.highest < k → b ≡ false)
    → (moved_on w id).bits (k % replay_window_ids) ≡ b
unfolding moved_on
moved_on-exact w id k b up le near old new =
    elim (Bool-cases (leb replay_window_ids (id - w.highest))) [
      | inl far ↦ rw far (sym (new (ground arith)))
      | inr close ↦
          let lt : id - w.highest < replay_window_ids = ground arith in
          let x =
            clear_positions-IsCleared w.completed ((w.highest + 1) % replay_window_ids)
              (id - w.highest) (omega arith) (omega arith) in
          let e = x.exact (k % replay_window_ids) (omega arith) in
          let side : (k ≤ w.highest) ⊎ (w.highest < k) = omega arith in
          rw close (elim side [
            | inl below ↦
                let a = old_id-in_arc w.highest id k replay_window_ids below up near in
                ground (arith, e, a, old below)
            | inr above ↦
                let a = new_id-in_arc w.highest id k replay_window_ids above le lt in
                ground (arith, e, a, new above)
          ])
    ]

-- The first ID of all.
start-IsExact :
    (r : Receiver) (id : ℕ)
    → IsExact r
    → r.window.started ≡ false
    → IsExact (record r {
      window = record { completed = r.window.completed; started = true; highest = id };
      pending = with_pending r id true;
    })
start-IsExact r id x off = record {
  exact = λ k s.
      let (a, b) = x.idle off (k % replay_window_ids) in
      let (c, d) = x.idle off k in ground (arith, a, d);
  once = x.once;
  apart = λ k p. (x.idle off k).1;
  opened = λ k p. (refl, pending_le k p);
  above = λ k a. (x.idle off k).1;
  idle = λ on k. cc;
}
  where
    pending_le : (k : ℕ) → with_pending r id true k ≡ true → k ≤ id
    pending_le k p = let o = x.opened k in ground (arith, o)

-- An ID that is not above the others.
known-IsExact :
    (r : Receiver) (id : ℕ)
    → IsExact r
    → r.window.started ≡ true
    → id ≤ r.window.highest
    → r.delivered id ≡ 0
    → IsExact (record r { pending = with_pending r id true })
known-IsExact r id x on le free = record {
  exact = x.exact;
  once = x.once;
  apart = λ k p. let a = x.apart k in ground (arith, a);
  opened = λ k p. let o = x.opened k in (on, ground (arith, o));
  above = x.above;
  idle = x.idle;
}

-- An ID above all others.
new-IsExact :
    (r : Receiver) (id : ℕ)
    → IsExact r
    → r.window.started ≡ true
    → r.window.highest < id
    → IsExact (record r {
      window = record { completed = moved_on r.window id; started = true; highest = id };
      pending = with_pending r id true;
    })
new-IsExact r id x on up = record {
  exact = λ k (_, le, near).
      moved_on-exact r.window id k (leb 1 (r.delivered k)) up le near
        (λ below. x.exact k (on, below, omega arith))
        (λ above. let z = x.above k above in ground arith);
  once = x.once;
  apart = λ k p. let a = x.apart k in let z = x.above id up in ground (arith, a, z);
  opened = λ k p. let o = x.opened k in (refl, ground (arith, o));
  above = λ k a. x.above k (omega arith);
  idle = λ off k. cc;
}

pub admit-IsExact :
    (r : Receiver) (id : ℕ)
    → IsExact r
    → r.delivered id ≡ 0
    → IsExact (record r { window = admit r.window id; pending = with_pending r id true })
unfolding admit
admit-IsExact r id x free =
    let moved : ReplayWindow → Type 0 =
      λ v. IsExact (record r { window = v; pending = with_pending r id true }) in
    elim (Bool-cases r.window.started) [
      | inr off ↦
          let same : admit r.window id
              ≡ record { completed = r.window.completed; started = true; highest = id } =
            ground arith in
          subst moved (sym same) (start-IsExact r id x off)
      | inl on ↦ elim (Bool-cases (leb id r.window.highest)) [
        | inl known ↦
            let same : admit r.window id ≡ r.window = ground arith in
            subst moved (sym same) (known-IsExact r id x on (ground arith) free)
        | inr new ↦
            let same : admit r.window id
                ≡ record { completed = moved_on r.window id; started = true; highest = id } =
              ground arith in
            subst moved (sym same) (new-IsExact r id x on (ground arith))
      ]
    ]
