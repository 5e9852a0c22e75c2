-- ===== src/Fec/Decoder/Following.antt =====
-- internal/fec/decoder.go: with a replay window, what the Decoder does is what Receiver's steps allow.
use mpudp.Prelude.{
  ℕ, ◌+◌, ◌≡◌, sym, ap, ◌∙◌, List, true, false, ◌==◌, if◌then◌else◌, Bool-cases, inl, inr, Option,
  none, some, bytes_eq, bytes_eq→eq, bytes_eq_refl, arith,
}
use mpudp.Fec.Replay
use mpudp.Fec.Receiver.{Receiver, with_pending, with_delivered, delivers, drops, Reach, here, next}
use mpudp.Fec.Expiry.{BlockKey, ExpiryEntry}
use mpudp.Fec.Decoder.{PendingBlock, Decoder, find, delete, is_found}
use mpudp.Fec.Decoder.Expiration.{expire_pending, expire_completed, sweep_locked}
use mpudp.Fec.Decoder.Sweeping.{sweep_locked-keeps, expire_pending-cases, expire_completed-cases}
use mpudp.Fec.Decoder.Maps.{find-delete}

abbrev pub key : List ℕ → ℕ → BlockKey
key session id = record { session_id = session; packet_id = id }

-- `r` is what a Decoder with a replay window for `session` shows of its keys.
pub record Shows (session : List ℕ) (d : Decoder) (r : Receiver) : Type 0 where
  pub window : d.replay ≡ some (session, r.window)
  pub blocks : (id : ℕ) → is_found (find d.pending (key session id)) ≡ r.pending id

-- From `r`, steps lead to what `d` shows, with `hits id` more deliveries of each ID.
abbrev pub Follows : List ℕ → Receiver → Decoder → (ℕ → ℕ) → Type 0
Follows session r d hits =
    (r' : Receiver) × Reach r r'
    × Shows session d r'
    × ((id : ℕ) → r'.delivered id ≡ r.delivered id + hits id)

abbrev pub no_hits : ℕ → ℕ
no_hits id = 0

pub Reach-trans : {r s t : Receiver} → Reach r s → Reach s t → Reach r t
Reach-trans m here = m
Reach-trans m (next n st) = next (Reach-trans m n) st

pub still :
    (session : List ℕ) (d : Decoder) (r : Receiver)
    → Shows session d r
    → Follows session r d no_hits
still session d r x = (r, here, x, λ id. omega arith)

pub then-Follows :
    (session : List ℕ) (r r' : Receiver) (d : Decoder) (hits : ℕ → ℕ)
    → Reach r r'
    → ((id : ℕ) → r'.delivered id ≡ r.delivered id)
    → Follows session r' d hits
    → Follows session r d hits
then-Follows session r r' d hits m same (r'', n, x, counted) =
    (r'', Reach-trans m n, x, λ id. let a = counted id in let b = same id in omega arith)

-- A pending block of the Session is taken out.
pub dropped :
    (session : List ℕ) (d d' : Decoder) (r : Receiver) (id : ℕ)
    → Shows session d r
    → r.pending id ≡ true
    → d'.replay ≡ d.replay
    → d'.pending ≡ delete d.pending (key session id)
    → Follows session r d' no_hits
dropped session d d' r id x p same gone = (
  record r { pending = with_pending r id false },
  next here (drops id p),
  record {
    window = same ∙ x.window;
    blocks = λ k.
        let e = find-delete d.pending (key session id) (key session k) in
        let b = x.blocks k in
        let bytes = bytes_eq_refl session in
        ap (λ (q : List (BlockKey × PendingBlock)). is_found (find q (key session k))) gone
        ∙ rw e (ground (arith, b, bytes));
  },
  λ k. omega arith,
)

-- A block of another Session is.
passed :
    (session : List ℕ) (d d' : Decoder) (r : Receiver) (k : BlockKey)
    → Shows session d r
    → bytes_eq k.session_id session ≡ false
    → d'.replay ≡ d.replay
    → d'.pending ≡ delete d.pending k
    → Follows session r d' no_hits
passed session d d' r k x other same gone = still session d' r (record {
  window = same ∙ x.window;
  blocks = λ j.
      let e = find-delete d.pending k (key session j) in
      let b = x.blocks j in
      ap (λ (q : List (BlockKey × PendingBlock)). is_found (find q (key session j))) gone
      ∙ rw e (ground (arith, b, other));
})

removed-Follows :
    (session : List ℕ) (d d' : Decoder) (r : Receiver) (k : BlockKey) (block : PendingBlock)
    → Shows session d r
    → find d.pending k ≡ some block
    → d'.replay ≡ d.replay
    → d'.pending ≡ delete d.pending k
    → Follows session r d' no_hits
removed-Follows session d d' r k block x found same gone =
    elim (Bool-cases (bytes_eq k.session_id session)) [
      | inl ours ↦
          let e = bytes_eq→eq k.session_id session ours in
          let k_eq : k ≡ key session k.packet_id =
            λ i. record { session_id = e i; packet_id = k.packet_id } in
          let there : r.pending k.packet_id ≡ true =
            sym (x.blocks k.packet_id)
            ∙ ap (λ (j : BlockKey). is_found (find d.pending j)) (sym k_eq)
            ∙ ap is_found found in
          dropped session d d' r k.packet_id x there same (gone ∙ ap (delete d.pending) k_eq)
      | inr other ↦ passed session d d' r k x other same gone
    ]

pub unchanged :
    (session : List ℕ) (d d' : Decoder) (r : Receiver)
    → Shows session d r
    → d'.replay ≡ d.replay
    → d'.pending ≡ d.pending
    → Follows session r d' no_hits
unchanged session d d' r x same kept = still session d' r (record {
  window = same ∙ x.window;
  blocks = λ j.
      ap (λ (q : List (BlockKey × PendingBlock)). is_found (find q (key session j))) kept
      ∙ x.blocks j;
})

expire_pending-Follows :
    (session : List ℕ) (d : Decoder) (r : Receiver) (entry : ExpiryEntry)
    → Shows session d r
    → Follows session r (expire_pending d entry).0 no_hits
expire_pending-Follows session d r entry x =
    let (same, outcome) = expire_pending-cases d entry in
    elim outcome [
      | inl kept ↦ unchanged session d (expire_pending d entry).0 r x same.replay_eq kept
      | inr (block, found, _, gone) ↦
          removed-Follows session d (expire_pending d entry).0 r entry.key block x found
            same.replay_eq gone
    ]

pub sweep_locked-Follows :
    (session : List ℕ) (now : ℕ) (d : Decoder) (r : Receiver)
    → Shows session d r
    → Follows session r (sweep_locked now d).0 no_hits
sweep_locked-Follows session now d r x =
    sweep_locked-keeps (λ (s : Decoder). Follows session r s no_hits) now d
      (λ s top due (r', m, y, same).
        then-Follows session r r' (expire_pending s top).0 no_hits m
          (λ id. let e = same id in omega arith) (expire_pending-Follows session s r' top y))
      (λ s top (r', m, y, same).
        let (a, b) = expire_completed-cases s top in
        then-Follows session r r' (expire_completed s top).0 no_hits m
          (λ id. let e = same id in omega arith)
          (unchanged session s (expire_completed s top).0 r' y a.replay_eq b))
      (still session d r x)

abbrev pub hits : Option (ℕ × List ℕ) → ℕ → ℕ
hits none id = 0
hits (some (k, datagram)) id = if id == k then 1 else 0

-- The block of `id` is delivered.
pub delivered-Follows :
    (session : List ℕ) (d d' : Decoder) (r : Receiver) (id : ℕ) (datagram : List ℕ)
    → Shows session d r
    → r.pending id ≡ true
    → d'.replay ≡ some (session, Replay.complete r.window id)
    → d'.pending ≡ delete d.pending (key session id)
    → Follows session r d' (hits (some (id, datagram)))
delivered-Follows session d d' r id datagram x p marked gone = (
  record {
    window = Replay.complete r.window id;
    pending = with_pending r id false;
    delivered = with_delivered r id;
  },
  next here (delivers id p),
  record {
    window = marked;
    blocks = λ k.
        let e = find-delete d.pending (key session id) (key session k) in
        let b = x.blocks k in
        let bytes = bytes_eq_refl session in
        ap (λ (q : List (BlockKey × PendingBlock)). is_found (find q (key session k))) gone
        ∙ rw e (ground (arith, b, bytes));
  },
  λ k. ground arith,
)
