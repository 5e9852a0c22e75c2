-- ===== src/Fec/Ids.antt =====
-- internal/fec/encoder.go: packet IDs over a sequence of Datagrams.
use mpudp.Prelude.{
  ℕ, zero, suc, ◌+◌, ◌-◌, ◌^◌, ◌<◌, ◌≡◌, sym, ap, ◌∙◌, inl, inr, List, [], ◌∷◌, false, ◌==◌,
  get_elem?, Option, some, Result, Result-cases, ok, ◌>>=◌, arith, Bool-cases,
}
use mpudp.Fec.{Error}
use mpudp.Fec.Encoder.{EncodedBlock, Encoder, advance_id, encode}
use mpudp.Fec.Block.{IsEncoder, encode-parts, check_block-accepted}

advance_id-IsEncoder : (e : Encoder) → IsEncoder e → IsEncoder (advance_id e)
unfolding advance_id
advance_id-IsEncoder e x = elim (Bool-cases (e.next == 2 ^ 64 - 1)) [
  | inl last ↦ rw last (record { valid = x.valid; safe = x.safe; id_range = x.id_range })
  | inr more ↦
      rw more (record { valid = x.valid; safe = x.safe; id_range = ground (arith, x.id_range) })
]

advance_id-next :
    (e : Encoder) → (advance_id e).exhausted ≡ false → (advance_id e).next ≡ e.next + 1
unfolding advance_id
advance_id-next e h = ground arith

module _ (codec : List (List ℕ) → Option (List (List ℕ))) where
  -- One Datagram after the other, up to the first that is refused.
  unfoldable pub encode_all : Encoder → List (List ℕ) → Result Error (List EncodedBlock × Encoder)
  encode_all e [] = ok ([], e)
  encode_all e (payload ∷ payloads) = do
    (b, e') ← encode codec e payload
    (bs, e'') ← encode_all e' payloads
    ok (b ∷ bs, e'')

  encode_all-parts :
      (e e'' : Encoder) (payload : List ℕ) (payloads : List (List ℕ)) (blocks : List EncodedBlock)
      → encode_all e (payload ∷ payloads) ≡ ok (blocks, e'')
      → (b : EncodedBlock) × (e' : Encoder) × (bs : List EncodedBlock) × (encode codec e payload
          ≡ ok (b, e'))
        × (encode_all e' payloads ≡ ok (bs, e''))
        × (blocks ≡ b ∷ bs)
  unfolding encode_all
  encode_all-parts e e'' payload payloads blocks h = elim (Result-cases (encode codec e payload)) [
    | inl ((b, e'), s) ↦ elim (Result-cases (encode_all e' payloads)) [
      | inl ((bs, f), t) ↦ (b, e', bs, s, ground arith, ground arith)
      | inr (x, t) ↦ ground arith
    ]
    | inr (x, s) ↦ ground arith
  ]

  encode_all-live :
      (e e' : Encoder) (payloads : List (List ℕ)) (blocks : List EncodedBlock) (i : ℕ)
      (b : EncodedBlock)
      → encode_all e payloads ≡ ok (blocks, e')
      → get_elem? blocks i ≡ some b
      → e.exhausted ≡ false
  encode_all-live e e' [] blocks i b h at = unfold encode_all in ground arith
  encode_all-live e e' (payload ∷ payloads) blocks i b h at =
      let (b', e1, bs, first, rest, same) = encode_all-parts e e' payload payloads blocks h in
      let (size, shards, checked, _, _, _) = encode-parts codec e e1 payload b' first in
      (check_block-accepted e payload size checked).1

  -- The blocks of a sequence of Datagrams get consecutive packet IDs, from the Encoder's next ID
  -- on, and no ID passes the range of uint64: none is given twice.
  pub encode_all-packet_id :
      (payloads : List (List ℕ)) (e e' : Encoder) (blocks : List EncodedBlock) (i : ℕ)
      (b : EncodedBlock)
      → IsEncoder e
      → encode_all e payloads ≡ ok (blocks, e')
      → get_elem? blocks i ≡ some b
      → (b.packet_id ≡ e.next + i) × (e.next + i < 2 ^ 64)
  unfolding encode_all
  encode_all-packet_id [] e e' blocks i b x h at = ground arith
  encode_all-packet_id (payload ∷ payloads) e e' blocks zero b x h at =
      let (b', e1, bs, first, rest, same) = encode_all-parts e e' payload payloads blocks h in
      let (size, shards, _, _, made, _) = encode-parts codec e e1 payload b' first in
      let eq : b' ≡ b = ground arith in
      (
        ap (λ (y : EncodedBlock). y.packet_id) (sym eq ∙ made) ∙ omega arith,
        omega (arith, x.id_range),
      )
  encode_all-packet_id (payload ∷ payloads) e e' blocks (suc i) b x h at =
      let (b', e1, bs, first, rest, same) = encode_all-parts e e' payload payloads blocks h in
      let (size, shards, _, _, made, moved) = encode-parts codec e e1 payload b' first in
      let there : get_elem? bs i ≡ some b = ground arith in
      let y : IsEncoder e1 = rw moved (advance_id-IsEncoder e x) in
      let (eq, range) = encode_all-packet_id payloads e1 e' bs i b y rest there in
      let live = encode_all-live e1 e' payloads bs i b rest there in
      let next : e1.next ≡ e.next + 1 =
        ap (λ (f : Encoder). f.next) moved
        ∙ advance_id-next e (ap (λ (f : Encoder). f.exhausted) (sym moved) ∙ live) in
      (omega (arith, eq, next), omega (arith, range, next))
