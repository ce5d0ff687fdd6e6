-- ===== src/Structure/EntryStream/Step.antt =====
-- src/structure/logarray.rs: what a call of the decoder does, by the word and the bytes it has.
use terminus_store.Prelude.{
  ℕ, suc, ◌+◌, ◌-◌, ◌*◌, ◌^◌, ◌≤◌, ◌<◌, ◌≡◌, ap, ◌∙◌, sym, arith, Bool-cases, none, ◌==◌, List, [],
  ◌∷◌, ◌++◌, length, length-append, append_assoc, drop, take, some, inl, inr,
}
use mathlib.Core.Path.{ap₂}
use terminus_store.Prelude.Outcome.{ok}
use terminus_store.Structure.Word.{ByteOrder, to_be_bytes}
use terminus_store.Structure.Word.Bytes.{word_bytes, length-to_be_bytes}
use terminus_store.Structure.LogArray.{read_bits}
use terminus_store.Structure.LogArray.Stream.{stream, stream-head, stream-tail}
use terminus_store.Structure.LogArray.Entry.{read_bits_lem}
use terminus_store.Structure.BitArray.Blocks.{take-word, drop-word, read-word}
use terminus_store.Structure.EntryStream.{LogArrayDecoder, advance, decode}
use terminus_store.Structure.Framed.Yields.{append_front}
use terminus_store.Structure.EntryStream.Decoder.{
  HoldsFrom, first_value, value_ext, decode-one, decode-two, decode-next,
}

first_value_one :
    (w o c : ℕ) (vs vals : List ℕ) (y : ℕ)
    → HoldsFrom w o (c ∷ vs) (y ∷ vals)
    → o + w ≤ 64
    → 1 ≤ w
    → y < 2 ^ w
    → read_bits c 0 o w ≡ ok y
first_value_one w o c vs vals y held ho wide hy =
    let (x, e, hx, bits) =
      read_bits_lem c 0 o w (omega arith) wide (omega arith) (λ _. omega arith) in
    e
    ∙ ap ok (
        value_ext w x y hx hy (λ j hj.
          bits j hj
          ∙ stream-head c (0 ∷ []) (o + j) (omega arith)
          ∙ sym (stream-head c vs (o + j) (omega arith))
          ∙ ap (stream (c ∷ vs)) {x = o + j} {y = o + w * 0 + j} (omega arith)
          ∙ held 0 j (omega arith) hj))

-- Past the first value, in the same words or without the first of them.
pub HoldsFrom-same :
    (w o : ℕ) (words vals : List ℕ) (y : ℕ)
    → HoldsFrom w o words (y ∷ vals)
    → HoldsFrom w (o + w) words vals
HoldsFrom-same w o words vals y held i j hi hj =
    ap (stream words) {x = o + w + w * i + j} {y = o + w * suc i + j} (grind arith)
    ∙ held (suc i) j (omega arith) hj

pub HoldsFrom-tail :
    (w o c : ℕ) (words vals : List ℕ)
    → 64 ≤ o
    → HoldsFrom w o (c ∷ words) vals
    → HoldsFrom w (o - 64) words vals
HoldsFrom-tail w o c words vals h held i j hi hj =
    sym (stream-tail c words (o - 64 + w * i + j))
    ∙ ap (stream (c ∷ words)) {x = o - 64 + w * i + j + 64} {y = o + w * i + j} (omega arith)
    ∙ held i j hi hj

abbrev pub decoder : ℕ → ℕ → ℕ → ℕ → LogArrayDecoder
decoder w c o n = record { current = c; width = w; offset = o; remaining = n }

abbrev pub file_from : List ℕ → List ℕ → List ℕ
file_from control vs = word_bytes vs ++ control

module _ (order : ByteOrder) where
  pub decode-done :
      (self : LogArrayDecoder) (bytes : List ℕ)
      → self.remaining ≡ 0
      → decode order self bytes ≡ ok (none, self, [])
  unfolding decode
  decode-done self bytes e = ground arith

  pub decode-wait :
      (self : LogArrayDecoder) (bytes : List ℕ)
      → 0 < self.remaining
      → self.width ≤ 64
      → 64 < self.offset + self.width
      → length bytes < 8
      → decode order self bytes ≡ ok (none, self, bytes)
  unfolding decode
  decode-wait self bytes r w h short = ground arith

  module _ (w : ℕ) (wide : 1 ≤ w) (narrow : w ≤ 64) (control : List ℕ) where
    -- A value within the current word.
    pub step-one :
        (o c y : ℕ) (vs vals buffer : List ℕ)
        → o + w ≤ 64
        → y < 2 ^ w
        → HoldsFrom w o (c ∷ vs) (y ∷ vals)
        → decode order (decoder w c o (suc (length vals))) buffer
          ≡ ok (some y, decoder w c (o + w) (length vals), buffer)
    step-one o c y vs vals buffer h hy held =
        decode-one order (decoder w c o (suc (length vals))) (omega arith) narrow buffer y h
          (first_value_one w o c vs vals y held h wide hy)
        ∙ ap (λ n. ok (some y, decoder w c (o + w) n, buffer)) {x = suc (length vals) - 1}
            {y = length vals} (omega arith)

    -- A value that ends in the next word, which the buffer has.
    pub step-two :
        (o c y v : ℕ) (vs vals more : List ℕ)
        → o ≤ 64
        → 64 < o + w
        → y < 2 ^ w
        → v < 2 ^ 64
        → HoldsFrom w o (c ∷ v ∷ vs) (y ∷ vals)
        → decode order (decoder w c o (suc (length vals))) (to_be_bytes 8 v ++ more)
          ≡ ok (some y, decoder w v (o + w - 64) (length vals), more)
    step-two o c y v vs vals more ho h hy hv held =
        let bytes = to_be_bytes 8 v ++ more in
        let self = decoder w c o (suc (length vals)) in
        let enough : 8 ≤ length bytes =
          omega (arith, length-append (to_be_bytes 8 v) more, length-to_be_bytes 8 v) in
        let read : order.read_u64 (take 8 bytes) ≡ v =
          ap order.read_u64 (take-word order v more) ∙ read-word order v hv in
        let left : suc (length vals) - 1 ≡ length vals = omega arith in
        let called : decode order self bytes
            ≡ ok (some y, advance self v (o + w - 64), drop 8 bytes) =
          elim (Bool-cases (o == 64)) [
            | inl full ↦
                let z : o - 64 ≡ 0 = ground arith in
                decode-next order self (omega arith) narrow bytes v y enough read hv (ground arith)
                  wide
                  (first_value_one w 0 v vs vals y
                    (rw z at (HoldsFrom-tail w o c (v ∷ vs) (y ∷ vals) (ground arith) held))
                    (omega arith) wide hy)
            | inr part ↦
                decode-two order self (omega arith) narrow bytes v y enough read (ground arith) h
                  (first_value w o c v vs vals y held (ground arith) wide narrow hy hv)
          ] in
        called
        ∙ ap₂ (λ n rest. ok (some y, decoder w v (o + w - 64) n, rest)) left
            (drop-word order v more)

    -- The file does not end before the next word.
    pub not_at_end :
        {A : Type 0} (v : ℕ) (vs buffer unread : List ℕ)
        → length buffer < 8
        → buffer ++ unread ≡ file_from control (v ∷ vs)
        → unread ≡ []
        → A
    unfolding word_bytes
    not_at_end v vs buffer unread h e last = absurd (
        omega (
          arith,
          ap length e,
          length-append (to_be_bytes 8 v ++ word_bytes vs) control,
          length-append (to_be_bytes 8 v) (word_bytes vs),
          length-to_be_bytes 8 v,
          length-append buffer unread,
          ap length last,
        ))

    -- The next word of the file, once the buffer has it.
    pub next_word :
        (v : ℕ) (vs buffer unread : List ℕ)
        → 8 ≤ length buffer
        → buffer ++ unread ≡ file_from control (v ∷ vs)
        → (more : List ℕ) × (buffer ≡ to_be_bytes 8 v ++ more)
          × (more ++ unread ≡ file_from control vs)
    unfolding word_bytes
    next_word v vs buffer unread h e =
        append_front (to_be_bytes 8 v) (file_from control vs) buffer unread
          (omega (arith, length-to_be_bytes 8 v))
          (e ∙ append_assoc (to_be_bytes 8 v) (word_bytes vs) control)
