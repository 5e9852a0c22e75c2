-- ===== src/Fec/Delivery.antt =====
-- internal/fec: a block's delivery marks its ID for as long as the ID can come again.
use mpudp.Prelude.{
  ℕ, ◌+◌, ◌%◌, ◌≤◌, ◌<◌, ◌≡◌, ◌≢◌, refl, sym, subst, true, false, not, ◌&&◌, leb, Bool-cases, ◌⊎◌,
  inl, inr, arith,
}
use mpudp.RecvWindow.{Bitmap, set_bit}
use mpudp.RecvWindow.Slots.{slots_apart}
use mpudp.Fec.Replay.{ReplayWindow, replay_window_ids, too_old, contains, complete}
use mpudp.Fec.Receiver.{
  Receiver, empty_receiver, with_pending, with_delivered, Step, opens, delivers, drops, Reach, here,
  next, IsShown, IsExact, empty-IsExact, contains-exact, same_or_not, admit-IsExact,
}

-- A delivery leaves a mark: a bit, or the ID is below the window.
delivered-IsExact :
    (r : Receiver) (id : ℕ) (b : Bitmap)
    → IsExact r
    → r.pending id ≡ true
    → ((k : ℕ)
        → k ≢ id
        → IsShown r.window k
        → b.bits (k % replay_window_ids) ≡ r.window.completed.bits (k % replay_window_ids))
    → (IsShown r.window id → b.bits (id % replay_window_ids) ≡ true)
    → IsExact (record {
      window = record r.window { completed = b };
      pending = with_pending r id false;
      delivered = with_delivered r id;
    })
delivered-IsExact r id b x p others mark =
    let zero_here = x.apart id p in
    let (on, le) = x.opened id p in
    record {
      exact = λ k s. elim (same_or_not k id) [
        | inl e ↦
            let bit = mark (subst (IsShown r.window) e s) in
            subst (λ (j : ℕ). b.bits (j % replay_window_ids) ≡ leb 1 (with_delivered r id j))
              (sym e) (ground (arith, bit))
        | inr n ↦ let o = others k n s in let y = x.exact k s in ground (arith, o, y)
      ];
      once = λ k. let o = x.once k in ground (arith, o, zero_here);
      apart = λ k q. let a = x.apart k in ground (arith, a);
      opened = λ k q. x.opened k (ground arith);
      above = λ k a. let z = x.above k a in ground (arith, z, le);
      idle = λ off k. cc;
    }

module _ (w : ReplayWindow) (id : ℕ) where
  complete-old : too_old w id ≡ true → complete w id ≡ w
  unfolding complete
  complete-old old = ground arith

  complete-marked :
      too_old w id ≡ false → w.completed.bits (id % replay_window_ids) ≡ true → complete w id ≡ w
  unfolding complete
  complete-marked young marked = ground arith

  complete-clear :
      too_old w id ≡ false
      → w.completed.bits (id % replay_window_ids) ≡ false
      → complete w id ≡ record w { completed = set_bit w.completed (id % replay_window_ids) }
  unfolding complete
  complete-clear young clear = ground arith

  old-below : too_old w id ≡ true → ¬ (w.highest < id + replay_window_ids)
  unfolding too_old
  old-below old near = ground arith

  young-shown : too_old w id ≡ false → w.started ≡ true → w.highest < id + replay_window_ids
  unfolding too_old
  young-shown young on = ground arith

set_bit-other :
    (b : Bitmap) (k id : ℕ)
    → k ≢ id
    → k % replay_window_ids ≢ id % replay_window_ids
    → (set_bit b (id % replay_window_ids)).bits (k % replay_window_ids)
      ≡ b.bits (k % replay_window_ids)
unfolding set_bit
set_bit-other b k id n apart = ground arith

apart_bits :
    (r : Receiver) (id k : ℕ)
    → IsExact r
    → r.pending id ≡ true
    → k ≢ id
    → too_old r.window id ≡ false
    → k ≤ r.window.highest
    → r.window.highest < k + replay_window_ids
    → k % replay_window_ids ≢ id % replay_window_ids
apart_bits r id k x p n young a b =
    let (on, le) = x.opened id p in
    let near = young-shown r.window id young on in
    let order : (k < id) ⊎ (id < k) = omega (arith, n) in
    elim order [
      | inl lt ↦ slots_apart k id replay_window_ids lt (omega arith)
      | inr gt ↦ λ e. slots_apart id k replay_window_ids gt (omega arith) (sym e)
    ]

complete-IsExact :
    (r : Receiver) (id : ℕ)
    → IsExact r
    → r.pending id ≡ true
    → IsExact (record {
      window = complete r.window id;
      pending = with_pending r id false;
      delivered = with_delivered r id;
    })
complete-IsExact r id x p =
    let finished : ReplayWindow → Type 0 = λ v.
      IsExact (record {
        window = v;
        pending = with_pending r id false;
        delivered = with_delivered r id;
      }) in
    elim (Bool-cases (too_old r.window id)) [
      | inl old ↦ subst finished (sym (complete-old r.window id old)) (
          delivered-IsExact r id r.window.completed x p (λ k n s. refl)
            (λ (_, _, near). absurd (old-below r.window id old near)))
      | inr young ↦ elim (Bool-cases (r.window.completed.bits (id % replay_window_ids))) [
        | inl marked ↦
            subst finished (sym (complete-marked r.window id young marked))
              (delivered-IsExact r id r.window.completed x p (λ k n s. refl) (λ s. marked))
        | inr clear ↦ subst finished (sym (complete-clear r.window id young clear)) (
            delivered-IsExact r id (set_bit r.window.completed (id % replay_window_ids)) x p
              (λ k n (_, a, b).
                set_bit-other r.window.completed k id n (apart_bits r id k x p n young a b))
              (λ s. unfold set_bit in ground arith))
      ]
    ]

Step-IsExact : {r s : Receiver} → Step r s → IsExact r → IsExact s
Step-IsExact {r} {s} (opens id free new unmarked) x =
    admit-IsExact r id x (let e = contains-exact r id x new in ground (arith, e, unmarked))
Step-IsExact {r} {s} (delivers id p) x = complete-IsExact r id x p
Step-IsExact {r} {s} (drops id p) x = record {
  exact = x.exact;
  once = x.once;
  apart = λ k q. let a = x.apart k in ground (arith, a);
  opened = λ k q. x.opened k (ground arith);
  above = x.above;
  idle = x.idle;
}

Reach-IsExact : {r s : Receiver} → Reach r s → IsExact r → IsExact s
Reach-IsExact here x = x
Reach-IsExact (next m st) x = Step-IsExact st (Reach-IsExact m x)

contains-old : (w : ReplayWindow) (id : ℕ) → too_old w id ≡ true → contains w id ≡ false
unfolding contains
contains-old w id old = ground arith

-- In every receiver that an empty one becomes, each packet ID's Datagram has been delivered at most
-- once; and `contains` holds for just the delivered IDs that are not too old.
pub delivered_once :
    (r : Receiver) (id : ℕ)
    → Reach empty_receiver r
    → (r.delivered id ≤ 1)
      × (contains r.window id ≡ (leb 1 (r.delivered id) && not (too_old r.window id)))
delivered_once r id m =
    let x = Reach-IsExact m empty-IsExact in
    (
      x.once id,
      elim (Bool-cases (too_old r.window id)) [
        | inl old ↦ let e = contains-old r.window id old in ground (arith, e)
        | inr young ↦ let e = contains-exact r id x young in ground (arith, e)
      ],
    )
