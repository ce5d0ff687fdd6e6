-- ===== src/Structure/LogArray/RoundTrip.antt =====
-- src/structure/logarray.rs: `parse`, `entry` and `slice` on a file that the builder wrote.
use terminus_store.Prelude.{
  ℕ, zero, suc, ◌+◌, ◌-◌, ◌*◌, ◌/◌, ◌%◌, ◌^◌, ◌≤◌, ◌<◌, ◌≡◌, true, ap, ◌∙◌, arith, List, [], ◌∷◌,
  ◌++◌, length, get_or, drop, length-append, Bool-cases, ltb, inl, inr,
}
use mathlib.Core.Path.{ap₂}
use terminus_store.Prelude.Bits.{bit, bit_ext, bit_and_mask}
use terminus_store.Prelude.Outcome.{ok}
use terminus_store.Structure.Word.{ByteOrder, read_u64_at}
use terminus_store.Structure.Word.Bytes.{
  word_bytes, length-word_bytes, AllWords, read_u64_at-word_bytes,
}
use terminus_store.Structure.LogArray.{LogArray, entry}
use terminus_store.Structure.LogArray.Stream.{stream, stream-head, stream-tail}
use terminus_store.Structure.LogArray.Entry.{read_bits_lem}

-- The array stands for `vals`: its words hold them from bit `width * first` on, and the control
-- word comes last.
pub record Stores (self : LogArray) (ws control vals : List ℕ) : Type 0 where
  pub laid_out : self.input_buf ≡ word_bytes ws ++ control
  pub control_size : length control ≡ 8
  pub words : AllWords ws
  pub sized : self.len ≡ length vals
  pub narrow : self.width ≤ 64
  pub wide : 1 ≤ self.width
  pub inside : self.width * (self.first + self.len) ≤ 64 * length ws
  pub fit : (i : ℕ) → i < length vals → get_or vals i 0 < 2 ^ self.width
  pub stored :
      (i j : ℕ)
      → i < length vals
      → j < self.width
      → stream ws (self.width * (self.first + i) + j) ≡ bit (get_or vals i 0) (self.width - 1 - j)

-- Reading eight bytes anywhere in a buffer gives some number.
read_u64_inside :
    (order : ByteOrder) (buf : List ℕ) (i : ℕ)
    → i + 8 ≤ length buf
    → (x : ℕ) × (read_u64_at order buf i ≡ ok x)
unfolding read_u64_at
read_u64_inside order buf i h = (order.read_u64 (drop i buf), ground arith)

AllWords-get_or : (ws : List ℕ) (k : ℕ) → AllWords ws → get_or ws k 0 < 2 ^ 64
AllWords-get_or [] k a = omega arith
AllWords-get_or (w ∷ ws) zero (h, a) = h
AllWords-get_or (w ∷ ws) (suc k) (h, a) = AllWords-get_or ws k a

-- Two neighbouring words, the second one only if it is asked for.
stream-two :
    (ws : List ℕ) (b j x : ℕ)
    → (b / 64 * 64 + 64 ≤ b + j → x ≡ get_or ws (b / 64 + 1) 0)
    → j ≤ 64
    → stream (get_or ws (b / 64) 0 ∷ x ∷ []) (b % 64 + j) ≡ stream ws (b + j)
unfolding stream
stream-two ws b j x h hj = elim (Bool-cases (ltb (b % 64 + j) 64)) [
  | inl one ↦
      stream-head (get_or ws (b / 64) 0) (x ∷ []) (b % 64 + j) (ground arith)
      ∙ ap₂ bit (ap (λ k. get_or ws k 0) (ground arith)) (ground arith)
  | inr two ↦
      let q = b % 64 + j - 64 in
      let e : b % 64 + j ≡ q + 64 = ground arith in
      ap (stream (get_or ws (b / 64) 0 ∷ x ∷ [])) e
      ∙ stream-tail (get_or ws (b / 64) 0) (x ∷ []) q
      ∙ stream-head x [] q (omega arith)
      ∙ ap₂ bit (h (omega arith) ∙ ap (λ k. get_or ws k 0) (omega arith)) (omega arith)
]

module _ (order : ByteOrder) (self : LogArray) (ws control vals : List ℕ)
    (s : Stores self ws control vals) (i : ℕ) (hi : i < length vals) where
  abbrev start : ℕ
  start = self.width * (self.first + i)

  start-inside : start + self.width ≤ 64 * length ws
  start-inside =
      let e : i + 1 ≤ self.len = omega (arith, s.sized) in
      let m : self.width * (self.first + i + 1) ≤ self.width * (self.first + self.len) =
        grind arith in
      omega (arith, m, s.inside)

  buf-length : length self.input_buf ≡ 8 * length ws + 8
  buf-length =
      ap length s.laid_out
      ∙ omega (arith, length-append (word_bytes ws) control, length-word_bytes ws, s.control_size)

  word_at : (k : ℕ) → k < length ws → read_u64_at order self.input_buf (8 * k) ≡ ok (get_or ws k 0)
  word_at k h = rw s.laid_out (read_u64_at-word_bytes order ws control k s.words h)

  first_read :
      read_u64_at order self.input_buf (start / 2 ^ 6 * 2 ^ 3) ≡ ok (get_or ws (start / 64) 0)
  first_read =
      ap (read_u64_at order self.input_buf) (omega arith)
      ∙ word_at (start / 64) (omega (arith, start-inside, s.wide))

  second_read :
      (x : ℕ) × (read_u64_at order self.input_buf (start / 2 ^ 6 * 2 ^ 3 + 8) ≡ ok x)
      × (64 < start % 64 + self.width → x ≡ get_or ws (start / 64 + 1) 0)
  second_read =
      let (x, e) =
        read_u64_inside order self.input_buf (start / 2 ^ 6 * 2 ^ 3 + 8)
          (omega (arith, buf-length, start-inside, s.wide)) in
      (
        x,
        e,
        λ h.
            let w = word_at (start / 64 + 1) (omega (arith, start-inside)) in
            let same : 8 * (start / 64 + 1) ≡ start / 2 ^ 6 * 2 ^ 3 + 8 = omega arith in
            let w' = rw same at w in cc (e, w'),
      )

  entry_value :
      (v : ℕ)
      → v < 2 ^ self.width
      → ((j : ℕ) → j < self.width → bit v (self.width - 1 - j) ≡ stream ws (start + j))
      → v ≡ get_or vals i 0
  entry_value v hv bits = bit_ext self.width v (get_or vals i 0) hv (s.fit i hi) λ k hk.
      let e : self.width - 1 - (self.width - 1 - k) ≡ k = omega arith in
      let l = bits (self.width - 1 - k) (omega arith) in
      let r = s.stored i (self.width - 1 - k) hi (omega arith) in rw e at (l ∙ r)

  -- `entry` returns the value at the index.
  pub entry_lem : entry order self i ≡ ok (get_or vals i 0)
  unfolding entry
  entry_lem =
      let (x, second, over) = second_read in
      let (v, e, hv, bits) =
        read_bits_lem (get_or ws (start / 64) 0) x (start % 64) self.width (omega arith) s.wide
          s.narrow (λ h. rw (over h) (AllWords-get_or ws (start / 64 + 1) s.words)) in
      let found : v ≡ get_or vals i 0 = entry_value v hv (λ j hj.
        bits j hj
        ∙ stream-two ws start j x (λ h. over (omega (arith, h, hj)))
            (omega (arith, hj, s.narrow))) in
      let fits : ltb i self.len ≡ true = ground (arith, s.sized) in
      rw (fits, first_read, second, bit_and_mask 6 start, e, found)
