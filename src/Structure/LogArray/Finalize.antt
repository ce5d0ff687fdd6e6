-- ===== src/Structure/LogArray/Finalize.antt =====
-- src/structure/logarray.rs: what `finalize` writes is what `parse` accepts.
use terminus_store.Prelude.{
  ℕ, zero, suc, ◌+◌, ◌-◌, ◌*◌, ◌^◌, ◌≤◌, ◌<◌, ◌≡◌, ap, ◌∙◌, sym, arith, List, [], ◌∷◌, ◌++◌, length,
  get_or, drop, set, set-append, get_or-append_at, replicate, length-append, append-nil, Bool-cases,
  ◌==◌, inl, inr, if◌then◌else◌, drop-append, bit_and,
}
use mathlib.Core.Path.{ap₂}
use terminus_store.Prelude.Bits.{bit_and_mask}
use terminus_store.Structure.Word.{to_be_bytes, ByteOrder}
use terminus_store.Structure.Word.Bytes.{
  word_bytes, word_bytes-append, length-word_bytes, AllWords, length-to_be_bytes,
  to_be_bytes-AllBytes, be_value-to_be_bytes,
}
use terminus_store.Structure.LogArray.{
  LogArray, LogArrayFileBuilder, parsed, parse, finalize, byte_at, control_word, read_control_word,
  expected_buf_size,
}
use terminus_store.Structure.LogArray.Stream.{stream, stream-append_left}
use terminus_store.Structure.LogArray.Push.{Holds}
use terminus_store.Structure.LogArray.Invariant.{AllFit, AllWords-append}
use terminus_store.Structure.LogArray.RoundTrip.{Stores}

module _ (order : ByteOrder) (len width : ℕ) where
  pub control_bytes : control_word order len width ≡ to_be_bytes 4 len ++ (width ∷ 0 ∷ 0 ∷ 0 ∷ [])
  control_bytes = rw (order.write_u32_front (replicate 8 0) len (omega arith)) (
      ap (λ i. set (to_be_bytes 4 len ++ (0 ∷ 0 ∷ 0 ∷ 0 ∷ [])) i width)
        (sym (length-to_be_bytes 4 len))
      ∙ set-append (to_be_bytes 4 len) 0 (0 ∷ 0 ∷ 0 ∷ []) width)

  pub length-control : length (control_word order len width) ≡ 8
  length-control = rw control_bytes (
      omega (
        arith,
        length-append (to_be_bytes 4 len) (width ∷ 0 ∷ 0 ∷ 0 ∷ []),
        length-to_be_bytes 4 len,
      ))

  read_len : len < 2 ^ 32 → order.read_u32 (control_word order len width) ≡ len
  read_len h =
      ap order.read_u32 control_bytes
      ∙ order.read_u32_front (to_be_bytes 4 len) (width ∷ 0 ∷ 0 ∷ 0 ∷ []) (length-to_be_bytes 4 len)
          (to_be_bytes-AllBytes 4 len)
      ∙ omega (arith, be_value-to_be_bytes 4 len)

  read_width : byte_at (control_word order len width) 4 ≡ width
  read_width =
      ap₂ byte_at control_bytes (sym (length-to_be_bytes 4 len))
      ∙ get_or-append_at (to_be_bytes 4 len) width (0 ∷ 0 ∷ 0 ∷ []) 0

  -- A control word that fits the size of the file is read back.
  pub read_control :
      (size : ℕ)
      → len < 2 ^ 32
      → width ≤ 64
      → size ≡ expected_buf_size len width
      → read_control_word order (control_word order len width) size ≡ parsed (len, width)
  unfolding read_control_word
  read_control size hl hw hs = ground (arith, length-control, read_len hl, read_width)

-- The words of the data part, the last one filled up with zeros.
abbrev data_words : LogArrayFileBuilder → List ℕ → List ℕ
data_words self ws = if self.offset == 0 then ws else ws ++ (self.current ∷ [])

module _ (order : ByteOrder) (self : LogArrayFileBuilder) (ws vals : List ℕ)
    (inv : Holds self ws vals) where
  aligned : bit_and (self.count * self.width) 0b11_1111 ≡ self.offset
  aligned =
      bit_and_mask 6 (self.count * self.width)
      ∙ omega (arith, inv.position, inv.room, ap (λ (t : ℕ). t * self.width) inv.counted)

  finalize-words :
      finalize order self
      ≡ word_bytes (data_words self ws) ++ control_word order self.count self.width
  unfolding finalize word_bytes
  finalize-words = elim (Bool-cases (self.offset == 0)) [
    | inl none_left ↦ ground (arith, aligned, inv.written)
    | inr some_left ↦ ground (
      arith,
      aligned,
      inv.written,
      word_bytes-append ws (self.current ∷ []),
      append-nil (to_be_bytes 8 self.current),
    )
  ]

  data_words-size : 8 * length (data_words self ws) + 8 ≡ expected_buf_size self.count self.width
  data_words-size = elim (Bool-cases (self.offset == 0)) [
    | inl none_left ↦ ground (arith, size)
    | inr some_left ↦ ground (arith, size, length-append ws (self.current ∷ []))
  ]
    where
      size : self.count * self.width ≡ 64 * length ws + self.offset
      size = omega (arith, inv.position, ap (λ (t : ℕ). t * self.width) inv.counted)

  data_words-stream :
      (p : ℕ)
      → p < self.width * length vals
      → stream (data_words self ws) p ≡ stream (ws ++ (self.current ∷ [])) p
  data_words-stream p hp = elim (Bool-cases (self.offset == 0)) [
    | inl none_left ↦
        let inside : p < 64 * length ws = ground (arith, inv.position) in
        rw none_left (sym (stream-append_left ws (self.current ∷ []) p inside))
    | inr some_left ↦ rw some_left
  ]

  data_words-AllWords : AllWords (data_words self ws)
  data_words-AllWords = elim (Bool-cases (self.offset == 0)) [
    | inl none_left ↦ rw none_left inv.words
    | inr some_left ↦ rw some_left (AllWords-append ws self.current inv.words inv.fits)
  ]

AllFit-get_or :
    (width : ℕ) (vals : List ℕ) (i : ℕ)
    → AllFit width vals
    → i < length vals
    → get_or vals i 0 < 2 ^ width
AllFit-get_or width [] i a h = absurd (omega arith)
AllFit-get_or width (v ∷ vals) zero (hv, a) h = hv
AllFit-get_or width (v ∷ vals) (suc i) (hv, a) h = AllFit-get_or width vals i a (omega arith)

abbrev pub whole : LogArrayFileBuilder → List ℕ → LogArray
whole self file = record { first = 0; len = self.count; width = self.width; input_buf = file }

module _ (order : ByteOrder) (self : LogArrayFileBuilder) (ws vals : List ℕ)
    (inv : Holds self ws vals) (wide : 1 ≤ self.width) (narrow : self.width ≤ 64)
    (few : self.count < 2 ^ 32) (fit : AllFit self.width vals) where
  abbrev file : List ℕ
  file = finalize order self

  abbrev pub words : List ℕ
  words = data_words self ws

  length-file : length file ≡ 8 * length words + 8
  length-file =
      ap length (finalize-words order self ws vals inv)
      ∙ omega (
        arith,
        length-append (word_bytes words) (control_word order self.count self.width),
        length-word_bytes words,
        length-control order self.count self.width,
      )

  drop-file : drop (length file - 8) file ≡ control_word order self.count self.width
  drop-file =
      ap₂ (λ n l. drop n l) (omega (arith, length-file, length-word_bytes words))
        (finalize-words order self ws vals inv)
      ∙ drop-append (word_bytes words) (control_word order self.count self.width)

  -- `parse` accepts the file and finds the count and the width that the builder had.
  pub parse-finalize : parse order (finalize order self) ≡ parsed (whole self (finalize order self))
  unfolding parse
  parse-finalize = ground (
    arith,
    length-file,
    drop-file,
    read_control order self.count self.width (length file) few narrow
        (omega (arith, length-file, data_words-size order self ws vals inv)),
  )

  pub finalize-Stores :
      Stores
        (whole self (finalize order self))
        words
        (control_word order self.count self.width)
        vals
  finalize-Stores = record {
    laid_out = finalize-words order self ws vals inv;
    control_size = length-control order self.count self.width;
    words = data_words-AllWords order self ws vals inv;
    sized = inv.counted;
    narrow = narrow;
    wide = wide;
    inside = omega (arith, data_words-size order self ws vals inv);
    fit = λ i hi. AllFit-get_or self.width vals i fit hi;
    stored = λ i j hi hj.
        let inside : self.width * i + j < self.width * length vals = grind arith in
        ap (stream words) (omega arith)
        ∙ data_words-stream order self ws vals inv (self.width * i + j) inside
        ∙ inv.stored i j hi hj;
  }
