-- ===== src/Structure/EntryStream/Decoder.antt =====
-- src/structure/logarray.rs: each call of the decoder returns the next value.
use terminus_store.Prelude.{
  ℕ, ◌+◌, ◌-◌, ◌*◌, ◌%◌, ◌^◌, ◌≤◌, ◌<◌, ◌≡◌, ap, ◌∙◌, sym, arith, Bool-cases, ltb, List, [], ◌∷◌,
  length, drop, take, get_or, some, inl, inr,
}
use terminus_store.Prelude.Bits.{bit, bit_ext}
use terminus_store.Prelude.Outcome.{ok}
use terminus_store.Structure.Word.{ByteOrder, shl, shr}
use terminus_store.Structure.LogArray.{read_bits}
use terminus_store.Structure.LogArray.Stream.{stream, stream-head, stream-tail}
use terminus_store.Structure.LogArray.Entry.{read_bits_lem}
use terminus_store.Structure.EntryStream.{LogArrayDecoder, advance, decode, decode_second}

module _ (order : ByteOrder) (self : LogArrayDecoder) (some_left : 0 < self.remaining)
    (narrow : self.width ≤ 64) where
  pub decode-one :
      (bytes : List ℕ) (x : ℕ)
      → self.offset + self.width ≤ 64
      → read_bits self.current 0 self.offset self.width ≡ ok x
      → decode order self bytes
        ≡ ok (some x, advance self self.current (self.offset + self.width), bytes)
  unfolding decode read_bits
  decode-one bytes x h e = ground arith

  pub decode-two :
      (bytes : List ℕ) (second x : ℕ)
      → 8 ≤ length bytes
      → order.read_u64 (take 8 bytes) ≡ second
      → self.offset < 64
      → 64 < self.offset + self.width
      → read_bits self.current second self.offset self.width ≡ ok x
      → decode order self bytes
        ≡ ok (some x, advance self second (self.offset + self.width - 64), drop 8 bytes)
  unfolding decode decode_second read_bits
  decode-two bytes second x enough read ho h e =
      let o : self.width - (64 - self.offset) ≡ self.offset + self.width - 64 = omega arith in
      ground (arith, ap (advance self second) o)

  pub decode-next :
      (bytes : List ℕ) (second x : ℕ)
      → 8 ≤ length bytes
      → order.read_u64 (take 8 bytes) ≡ second
      → second < 2 ^ 64
      → self.offset ≡ 64
      → 0 < self.width
      → read_bits second 0 0 self.width ≡ ok x
      → decode order self bytes
        ≡ ok (some x, advance self second (self.offset + self.width - 64), drop 8 bytes)
  unfolding decode decode_second read_bits shl shr
  decode-next bytes second x enough read small ho pos e =
      let o : self.width ≡ self.offset + self.width - 64 = omega arith in
      let unshifted : second * 2 ^ 0 % 2 ^ 64 ≡ second = omega arith in
      ground (arith, unshifted, ap (advance self second) o)

pub value_ext :
    (w x y : ℕ)
    → x < 2 ^ w
    → y < 2 ^ w
    → ((j : ℕ) → j < w → bit x (w - 1 - j) ≡ bit y (w - 1 - j))
    → x ≡ y
value_ext w x y hx hy same = bit_ext w x y hx hy (λ k hk.
    ap (bit x) {x = k} {y = w - 1 - (w - 1 - k)} (omega arith)
    ∙ same (w - 1 - k) (omega arith)
    ∙ ap (bit y) (omega arith))

-- The stream of the first two of some words.
stream-front :
    (c v : ℕ) (vs : List ℕ) (q : ℕ) → q < 128 → stream (c ∷ v ∷ []) q ≡ stream (c ∷ v ∷ vs) q
stream-front c v vs q h = elim (Bool-cases (ltb q 64)) [
  | inl here ↦
      stream-head c (v ∷ []) q (ground arith) ∙ sym (stream-head c (v ∷ vs) q (ground arith))
  | inr further ↦
      let e : q - 64 + 64 ≡ q = ground arith in
      ap (stream (c ∷ v ∷ [])) (sym e)
      ∙ stream-tail c (v ∷ []) (q - 64)
      ∙ stream-head v [] (q - 64) (ground arith)
      ∙ sym (stream-head v vs (q - 64) (ground arith))
      ∙ sym (stream-tail c (v ∷ vs) (q - 64))
      ∙ ap (stream (c ∷ v ∷ vs)) e
]

-- The words from the current one on hold the values, the first at the decoder's offset.
abbrev pub HoldsFrom : ℕ → ℕ → List ℕ → List ℕ → Type 0
HoldsFrom w o words vals =
    (i j : ℕ)
    → i < length vals
    → j < w
    → stream words (o + w * i + j) ≡ bit (get_or vals i 0) (w - 1 - j)

pub first_value :
    (w o c v : ℕ) (vs vals : List ℕ) (y : ℕ)
    → HoldsFrom w o (c ∷ v ∷ vs) (y ∷ vals)
    → o < 64
    → 1 ≤ w
    → w ≤ 64
    → y < 2 ^ w
    → v < 2 ^ 64
    → read_bits c v o w ≡ ok y
first_value w o c v vs vals y held ho wide narrow hy hv =
    let (x, e, hx, bits) = read_bits_lem c v o w ho wide narrow (λ _. hv) in
    e
    ∙ ap ok (
        value_ext w x y hx hy (λ j hj.
          bits j hj
          ∙ stream-front c v vs (o + j) (omega arith)
          ∙ ap (stream (c ∷ v ∷ vs)) {x = o + j} {y = o + w * 0 + j} (omega arith)
          ∙ held 0 j (omega arith) hj))
