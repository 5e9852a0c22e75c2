-- ===== src/ReassemblyV2/Assembling.antt =====
-- internal/reassemblyv2/reassembly.go: an assembly of one message's fragments is, once it is whole, the message.
use mpudp.Prelude.{
  ℕ, zero, suc, ◌+◌, ◌-◌, ◌≤◌, ◌<◌, ◌≡◌, refl, sym, ap, ◌∙◌, subst, List, [], ◌∷◌, true, false, ltb,
  Bool-cases, arith, length, length-replicate, get_or, byte_at, All, ◌⊎◌, inl, inr, ok,
}
use mpudp.FecV2.{Fragment}
use mpudp.ReassemblyV2.{
  Interval, no_interval, Assembly, search, copy, insert, inspect, write, fresh,
}
use mpudp.ReassemblyV2.Ranges.{
  covered, IsSpread, AgreeOn, covered-eq, length-copy, copy_outside, copy_inside,
}

-- What `inspect` has seen of the neighbours of the place.
abbrev HasRoom : List Interval → ℕ → ℕ → ℕ → Type 0
HasRoom rs place start end =
    ((place ≡ 0) ⊎ ((get_or rs (place - 1) no_interval).end ≤ start))
    × ((length rs ≤ place) ⊎ (end ≤ (get_or rs place no_interval).start))

abbrev AreApart : ℕ → ℕ → List Interval → Type 0
AreApart start end rs = All (λ (r : Interval). (r.end ≤ start) ⊎ (end ≤ r.start)) rs

apart_after :
    (low high start end : ℕ) (rs : List Interval)
    → IsSpread low high rs
    → end ≤ low
    → AreApart start end rs
apart_after low high start end [] s h = tt
apart_after low high start end (r ∷ rs) s h =
    (inr (omega (arith, s.0)), apart_after r.end high start end rs s.2 (omega (arith, s.0, s.1)))

-- The ranges before the place end before the new one.
search_pos :
    (low high start p : ℕ) (rs : List Interval)
    → IsSpread low high rs
    → search rs start ≡ suc p
    → low ≤ start
unfolding search
search_pos low high start p [] s e = absurd (omega arith)
search_pos low high start p (r ∷ rs) s e = let a = s.0 in ground arith

room_first :
    (start end : ℕ) (r : Interval) (rs : List Interval)
    → HasRoom (r ∷ rs) 0 start end
    → end ≤ r.start
room_first start end r rs room = elim room.1 [ inl none_left ↦ absurd (omega arith) | inr e ↦ e ]

room_later :
    (start end p : ℕ) (r : Interval) (rs : List Interval)
    → HasRoom (r ∷ rs) (suc p) start end
    → ((r.end ≤ start) ⊎ ((k : ℕ) × (p ≡ suc k))) × HasRoom rs p start end
room_later start end zero r rs room =
    let e : suc 0 - 1 ≡ 0 = omega arith in
    let before : r.end ≤ start = elim room.0 [
      | inl z ↦ absurd (omega arith)
      | inr h ↦ subst (λ (n : ℕ). (get_or (r ∷ rs) n no_interval).end ≤ start) e h
    ] in
    (inl before, (inl refl, elim room.1 [ inl h ↦ inl (omega arith) | inr h ↦ inr h ]))
room_later start end (suc k) r rs room =
    let e : suc (suc k) - 1 ≡ suc k = omega arith in
    let f : k ≡ suc k - 1 = omega arith in
    let before : (get_or rs (suc k - 1) no_interval).end ≤ start = elim room.0 [
      | inl z ↦ absurd (omega arith)
      | inr h ↦
          subst (λ (n : ℕ). (get_or rs n no_interval).end ≤ start) f
            (subst (λ (n : ℕ). (get_or (r ∷ rs) n no_interval).end ≤ start) e h)
    ] in
    (inr (k, refl), (inr before, elim room.1 [ inl h ↦ inl (omega arith) | inr h ↦ inr h ]))

search_nil : (start : ℕ) → search [] start ≡ 0
unfolding search
search_nil start = refl

search_first :
    (r : Interval) (rs : List Interval) (start : ℕ)
    → ltb r.start start ≡ false
    → search (r ∷ rs) start ≡ 0
unfolding search
search_first r rs start h = rw h

search_later :
    (r : Interval) (rs : List Interval) (start : ℕ)
    → ltb r.start start ≡ true
    → search (r ∷ rs) start ≡ suc (search rs start)
unfolding search
search_later r rs start h = rw h

insert-IsSpread :
    (low high start end : ℕ) (rs : List Interval)
    → IsSpread low high rs
    → low ≤ start
    → start < end
    → end ≤ high
    → HasRoom rs (search rs start) start end
    → (let rs' = insert rs (search rs start) (record { start = start; end = end }) in
        IsSpread low high rs' × (covered rs' ≡ covered rs + (end - start)) × AreApart start end rs)
insert-IsSpread low high start end [] s h lt le room =
    rw (search_nil start) ((h, lt, le), omega arith, tt)
insert-IsSpread low high start end (r ∷ rs) s h lt le room = elim (Bool-cases (ltb r.start start)) [
  | inr first ↦
      let here : search (r ∷ rs) start ≡ 0 = search_first r rs start first in
      let after : end ≤ r.start =
        room_first start end r rs (subst (λ (n : ℕ). HasRoom (r ∷ rs) n start end) here room) in
      rw here (
        (h, lt, (after, s.1, s.2)),
        omega arith,
        (inr after, apart_after r.end high start end rs s.2 (omega (arith, s.1))),
      )
  | inl later ↦
      let p = search rs start in
      let here : search (r ∷ rs) start ≡ suc p = search_later r rs start later in
      let (before, room') =
        room_later start end p r rs (subst (λ (n : ℕ). HasRoom (r ∷ rs) n start end) here room) in
      let ends : r.end ≤ start = elim before [
        | inl e ↦ e
        | inr (k, e) ↦ search_pos r.end high start k rs s.2 e
      ] in
      let (spread, sum, apart) = insert-IsSpread r.end high start end rs s.2 ends lt le room' in
      rw here ((s.0, s.1, spread), omega (arith, sum), (inl ends, apart))
]

-- An assembly of the message `m`.
pub record IsPart (m : List ℕ) (a : Assembly) : Type 0 where
  pub whole : a.total_bytes ≡ length m
  pub buffer : length a.contents ≡ length m
  pub spread : IsSpread 0 (length m) a.ranges
  pub counted : a.received ≡ covered a.ranges
  pub agree : AgreeOn a.contents m a.ranges

-- A fragment with bytes of the message in it.
pub record IsFragmentOf (m : List ℕ) (f : Fragment) : Type 0 where
  pub whole : f.total_bytes ≡ length m
  pub within : f.offset + length f.payload ≤ length m
  pub bytes : (k : ℕ) → k < length f.payload → byte_at f.payload k ≡ byte_at m (f.offset + k)

AgreeOn-copy :
    (xs m : List ℕ) (offset : ℕ) (payload : List ℕ) (rs : List Interval)
    → AreApart offset (offset + length payload) rs
    → AgreeOn xs m rs
    → AgreeOn (copy xs offset payload) m rs
AgreeOn-copy xs m offset payload [] apart h = tt
AgreeOn-copy xs m offset payload (r ∷ rs) apart h = (
  λ k lo hi.
      copy_outside xs offset payload k
        (elim apart.0 [ inl before ↦ inl (omega arith) | inr after ↦ inr (omega arith) ])
      ∙ h.0 k lo hi,
  AgreeOn-copy xs m offset payload rs apart.1 h.1,
)

AgreeOn-insert :
    (xs m : List ℕ) (rs : List Interval) (place : ℕ) (r : Interval)
    → AgreeOn xs m rs
    → ((k : ℕ) → r.start ≤ k → k < r.end → byte_at xs k ≡ byte_at m k)
    → AgreeOn xs m (insert rs place r)
AgreeOn-insert xs m rs zero r h new = (new, h)
AgreeOn-insert xs m [] (suc place) r h new = (new, tt)
AgreeOn-insert xs m (x ∷ rs) (suc place) r h new = (h.0, AgreeOn-insert xs m rs place r h.1 new)

inspect-HasRoom :
    (a : Assembly) (f : Fragment) (place : ℕ)
    → inspect a f ≡ ok (place, false)
    → (place ≡ search a.ranges f.offset)
      × HasRoom a.ranges place f.offset (f.offset + length f.payload)
unfolding inspect
inspect-HasRoom a f place h = (ground arith, ground arith)

-- A fragment that `inspect` has a place for keeps an assembly an assembly of its message.
pub write-IsPart :
    (m : List ℕ) (a : Assembly) (f : Fragment) (place : ℕ)
    → IsPart m a
    → IsFragmentOf m f
    → 1 ≤ length f.payload
    → inspect a f ≡ ok (place, false)
    → IsPart m (write a f place)
unfolding write
write-IsPart m a f place x y some_bytes h =
    let (here, room) = inspect-HasRoom a f place h in
    let end = f.offset + length f.payload in
    let (spread, sum, apart) =
      insert-IsSpread 0 (length m) f.offset end a.ranges x.spread (omega arith) (omega arith)
        y.within (subst (λ (n : ℕ). HasRoom a.ranges n f.offset end) here room) in
    let r : Interval = record { start = f.offset; end = end } in
    let fits : f.offset + length f.payload ≤ length a.contents =
      omega (arith, x.buffer, y.within) in
    let taken : end - f.offset ≡ length f.payload = omega arith in
    record {
      whole = x.whole;
      buffer = length-copy a.contents f.offset f.payload ∙ x.buffer;
      spread = rw here spread;
      counted = rw here (omega (arith, sum, x.counted));
      agree =
          AgreeOn-insert (copy a.contents f.offset f.payload) m a.ranges place r
            (AgreeOn-copy a.contents m f.offset f.payload a.ranges apart x.agree)
            (λ k lo hi.
              let e : f.offset + (k - f.offset) ≡ k = omega arith in
              ap (byte_at (copy a.contents f.offset f.payload)) (sym e)
              ∙ copy_inside a.contents f.offset f.payload (k - f.offset) fits (omega arith)
              ∙ y.bytes (k - f.offset) (omega arith)
              ∙ ap (byte_at m) e);
    }

-- A whole assembly is the message.
pub IsPart-whole :
    (m : List ℕ) (a : Assembly) → IsPart m a → a.received ≡ a.total_bytes → a.contents ≡ m
IsPart-whole m a x e =
    covered-eq a.contents m a.ranges x.buffer
      (subst (λ (n : ℕ). IsSpread 0 n a.ranges) (sym x.buffer) x.spread)
      (sym x.counted ∙ e ∙ x.whole ∙ sym x.buffer) x.agree

pub fresh-IsPart :
    (m : List ℕ) (total now lease : ℕ) → total ≡ length m → IsPart m (fresh total now lease)
unfolding fresh
fresh-IsPart m total now lease e = record {
  whole = e;
  buffer = length-replicate total 0 ∙ e;
  spread = omega arith;
  counted = refl;
  agree = tt;
}
