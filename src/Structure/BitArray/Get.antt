-- ===== src/Structure/BitArray/Get.antt =====
-- src/structure/bitarray.rs: `from_bits` and `get` on a file that the builder wrote.
use terminus_store.Prelude.{
  ℕ, zero, suc, ◌+◌, ◌-◌, ◌*◌, ◌/◌, ◌%◌, ◌^◌, ◌≤◌, ◌<◌, ◌≡◌, refl, ap, ◌∙◌, sym, arith, Bool, true,
  false, not, List, [], ◌∷◌, ◌++◌, length, get_or, drop, take, length-append, append_assoc,
  append-nil, Bool-cases, ltb, ◌==◌, inl, inr, bit_and, if◌then◌else◌, drop-append, take-append,
}
use terminus_store.Prelude.Bits.{
  bit_zero, bit, bit_and_mask, bit_and_two_pow, two_pow-add, bit-shr, bit-mod_lt,
}
use terminus_store.Prelude.Outcome.{ok, panic}
use terminus_store.Structure.Word.{to_be_bytes, ByteOrder, read_u64_at}
use terminus_store.Structure.LogArray.Invariant.{AllWords-append}
use native.Mathlib.Nat.{pow-suc, one-le-pow, div-eq_of_eq-mul_right}
use terminus_store.Structure.Word.Bytes.{
  word_bytes, word_bytes-append, length-word_bytes, AllWords, length-to_be_bytes,
  to_be_bytes-AllBytes, be_value-to_be_bytes,
}
use terminus_store.Structure.BitArray.{
  BitArray, BitArrayFileBuilder, parsed, from_bits, get, new, push_all, finalize, finalize_data,
  expected_buf_size,
}
use terminus_store.Structure.BitArray.Bits.{bitarray_len_from_file}
use terminus_store.Structure.BitArray.Push.{Holds, new-Holds, push_all-Holds, to_bit, bit_or_false}
use terminus_store.Structure.LogArray.Stream.{
  stream, get_or-append_right, stream-append_left, stream-head, stream-tail,
}

pow_256 : (n : ℕ) → 256 ^ n ≡ 2 ^ (8 * n)
pow_256 zero = refl
pow_256 (suc n) =
    pow-suc 256 n
    ∙ ap (λ (t : ℕ). t * 256) (pow_256 n)
    ∙ sym (ap (λ t. 2 ^ t) (omega arith) ∙ two_pow-add (8 * n) 8)

-- Bit `s` of byte `r` of a word.
byte_bit :
    (w r s : ℕ) → r < 8 → s < 8 → bit (w / 256 ^ (7 - r) % 256) (7 - s) ≡ bit w (63 - (8 * r + s))
byte_bit w r s hr hs =
    bit-mod_lt 8 (7 - s) (w / 256 ^ (7 - r)) (omega arith)
    ∙ ap (λ t. bit (w / t) (7 - s)) (pow_256 (7 - r))
    ∙ bit-shr (8 * (7 - r)) w (7 - s)
    ∙ ap (bit w) (omega arith)

byte-word :
    (n w : ℕ) (rest : List ℕ) (r : ℕ)
    → r < n
    → get_or (to_be_bytes n w ++ rest) r 0 ≡ w / 256 ^ (n - 1 - r) % 256
unfolding to_be_bytes
byte-word zero w rest r h = absurd (omega arith)
byte-word (suc n) w rest zero h = ap (λ t. w / 256 ^ t % 256) (omega arith)
byte-word (suc n) w rest (suc r) h =
    byte-word n w rest r (omega arith) ∙ ap (λ t. w / 256 ^ t % 256) (omega arith)

-- Byte `k` of a file of words holds the bits from `8 * k` on.
bytes-stream :
    (ws rest : List ℕ) (k s : ℕ)
    → k < 8 * length ws
    → s < 8
    → bit (get_or (word_bytes ws ++ rest) k 0) (7 - s) ≡ stream ws (8 * k + s)
unfolding word_bytes
bytes-stream [] rest k s h hs = absurd (omega arith)
bytes-stream (w ∷ ws) rest k s h hs = elim (Bool-cases (ltb k 8)) [
  | inl here ↦
      let e : k < 8 = ground arith in
      rw (append_assoc (to_be_bytes 8 w) (word_bytes ws) rest) (
        ap (λ t. bit t (7 - s)) (byte-word 8 w (word_bytes ws ++ rest) k e)
        ∙ byte_bit w k s e hs
        ∙ sym (stream-head w ws (8 * k + s) (omega arith)))
  | inr further ↦
      let e : 8 ≤ k = ground arith in
      rw (append_assoc (to_be_bytes 8 w) (word_bytes ws) rest) (
        ap (λ t. bit t (7 - s))
          (get_or-append_right (to_be_bytes 8 w) (word_bytes ws ++ rest) k (k - 8)
            (omega (arith, length-to_be_bytes 8 w)))
        ∙ bytes-stream ws rest (k - 8) s (omega arith) hs
        ∙ sym (stream-tail w ws (8 * (k - 8) + s))
        ∙ ap (stream (w ∷ ws)) (omega arith))
]

-- The words of the data part, the last one filled up with zeros.
abbrev pub data_words : BitArrayFileBuilder → List ℕ → List ℕ
data_words self ws = if self.count % 64 == 0 then ws else ws ++ (self.current ∷ [])

abbrev pub whole : BitArrayFileBuilder → BitArray
whole self = record { len = self.count; buf = finalize_data self }

get_or-past : (ws : List ℕ) (k : ℕ) → length ws ≤ k → get_or ws k 0 ≡ 0
get_or-past [] k h = refl
get_or-past (w ∷ ws) zero h = absurd (omega arith)
get_or-past (w ∷ ws) (suc k) h = get_or-past ws k (omega arith)

module _ (order : ByteOrder) (self : BitArrayFileBuilder) (ws : List ℕ) (bits : List Bool)
    (inv : Holds self ws bits) (few : length bits < 2 ^ 64) where
  abbrev words : List ℕ
  words = data_words self ws

  pub finalize_data-words : finalize_data self ≡ word_bytes words
  unfolding finalize_data word_bytes
  finalize_data-words = ground (
    arith,
    bit_and_mask 6 self.count,
    inv.written,
    word_bytes-append ws (self.current ∷ []),
    append-nil (to_be_bytes 8 self.current),
  )

  pub words-stream :
      (p : ℕ) → p < length bits → stream words p ≡ stream (ws ++ (self.current ∷ [])) p
  words-stream p hp = elim (Bool-cases (self.count % 64 == 0)) [
    | inl full ↦ rw full (
        sym
          (stream-append_left ws (self.current ∷ []) p (ground (arith, inv.position, inv.counted))))
    | inr part ↦ rw part
  ]

  pub length-words : 8 * length words + 8 ≡ expected_buf_size self.count
  length-words = ground (
    arith,
    bit_and_mask 6 self.count,
    inv.position,
    inv.counted,
    length-append ws (self.current ∷ []),
  )

  pub words-cover : length bits ≤ 64 * length words
  words-cover = ground (arith, inv.position, inv.counted, length-append ws (self.current ∷ []))

  pub words-AllWords : AllWords words
  words-AllWords = elim (Bool-cases (self.count % 64 == 0)) [
    | inl full ↦ rw full inv.words
    | inr part ↦ rw part (AllWords-append ws self.current inv.words inv.fits)
  ]

  -- Behind the bits there are zeros.
  pub words-padded : (p : ℕ) → length bits ≤ p → stream words p ≡ 0
  unfolding stream
  words-padded p hp = elim (Bool-cases (self.count % 64 == 0)) [
    | inl full ↦ rw full (
        ap (λ t. bit t (63 - p % 64)) (get_or-past ws (p / 64) (omega (arith, inv.position)))
        ∙ bit_zero (63 - p % 64))
    | inr part ↦ rw part (elim (Bool-cases (p / 64 == length ws)) [
      | inl last ↦
          ap (λ t. bit t (63 - p % 64))
            (get_or-append_right ws (self.current ∷ []) (p / 64) 0 (ground arith))
          ∙ inv.clear (p % 64) (ground (arith, inv.position)) (omega arith)
      | inr past ↦
          ap (λ t. bit t (63 - p % 64))
            (get_or-past (ws ++ (self.current ∷ [])) (p / 64)
              (ground (arith, inv.position, length-append ws (self.current ∷ []))))
          ∙ bit_zero (63 - p % 64)
    ])
  ]

  length-data : length (finalize_data self) + 8 ≡ expected_buf_size self.count
  length-data = omega (arith, ap length finalize_data-words, length-word_bytes words, length-words)

  read_control : read_u64_at order (to_be_bytes 8 self.count) 0 ≡ ok self.count
  unfolding read_u64_at
  read_control = ground (
    arith,
    length-to_be_bytes 8 self.count,
    append-nil (to_be_bytes 8 self.count),
    order.read_u64_front (to_be_bytes 8 self.count) [] (length-to_be_bytes 8 self.count)
        (to_be_bytes-AllBytes 8 self.count),
    be_value-to_be_bytes 8 self.count,
    inv.counted,
  )

  length-finalize : length (finalize self) ≡ length (finalize_data self) + 8
  unfolding finalize
  length-finalize = omega (
    arith,
    length-append (finalize_data self) (to_be_bytes 8 self.count),
    length-to_be_bytes 8 self.count,
  )

  drop-finalize : drop (length (finalize self) - 8) (finalize self) ≡ to_be_bytes 8 self.count
  unfolding finalize
  drop-finalize =
      ap (λ n. drop n (finalize self)) (omega (arith, length-finalize))
      ∙ drop-append (finalize_data self) (to_be_bytes 8 self.count)

  take-finalize : take (length (finalize self) - 8) (finalize self) ≡ finalize_data self
  unfolding finalize
  take-finalize =
      ap (λ n. take n (finalize self)) (omega (arith, length-finalize))
      ∙ take-append (finalize_data self) (to_be_bytes 8 self.count)

  pub bitarray_len_from_file-finalize :
      bitarray_len_from_file order (finalize self) ≡ parsed self.count
  unfolding bitarray_len_from_file
  bitarray_len_from_file-finalize =
      ground (arith, length-finalize, drop-finalize, read_control, length-data)

  -- The finished file is accepted, with the number of bits that were pushed.
  pub from_bits-finalize : from_bits order (finalize self) ≡ parsed (whole self)
  unfolding from_bits
  from_bits-finalize =
      ground (arith, length-finalize, drop-finalize, take-finalize, read_control, length-data)

two_pow-div : (s : ℕ) → s ≤ 7 → 0b1000_0000 / 2 ^ s ≡ 2 ^ (7 - s)
two_pow-div s h =
    div-eq_of_eq-mul_right (one-le-pow s 2 (omega arith))
      (ap (λ t. 2 ^ t) {x = 7} {y = s + (7 - s)} (omega arith) ∙ two_pow-add s (7 - s))

-- The test of `get` on a byte whose bit is known.
tested : (byte m : ℕ) (b : Bool) → bit byte m ≡ to_bit b → not (bit_and byte (2 ^ m) == 0) ≡ b
tested byte m true e =
    ground
      (arith, bit_and_two_pow m byte, ap (λ (t : ℕ). t * 2 ^ m) e, one-le-pow m 2 (omega arith))
tested byte m false e = ground (arith, bit_and_two_pow m byte, ap (λ (t : ℕ). t * 2 ^ m) e)

module _ (order : ByteOrder) (self : BitArrayFileBuilder) (ws : List ℕ) (bits : List Bool)
    (inv : Holds self ws bits) (few : length bits < 2 ^ 64) where
  get_byte :
      (i : ℕ)
      → i < length bits
      → bit (get_or (finalize_data self) (i / 8) 0) (7 - i % 8) ≡ to_bit (bit_or_false bits i)
  get_byte i hi = rw (finalize_data-words order self ws bits inv few) (
      rw (append-nil (word_bytes (data_words self ws))) at (
        bytes-stream (data_words self ws) [] (i / 8) (i % 8)
          (omega (arith, words-cover order self ws bits inv few)) (omega arith))
      ∙ ap (stream (data_words self ws)) (omega arith)
      ∙ words-stream order self ws bits inv few i hi
      ∙ inv.stored i hi)

  pub get-whole : (i : ℕ) → i < length bits → get (whole self) i ≡ ok (bit_or_false bits i)
  unfolding get
  get-whole i hi = ground (
    arith,
    inv.counted,
    length-data order self ws bits inv few,
    length-words order self ws bits inv few,
    words-cover order self ws bits inv few,
    ap (bit_and (get_or (finalize_data self) (i / 8) 0)) (two_pow-div (i % 8) (omega arith)),
    tested (get_or (finalize_data self) (i / 8) 0) (7 - i % 8) (bit_or_false bits i)
        (get_byte i hi),
  )

get_outside : (self : BitArray) (i : ℕ) → self.len ≤ i → get self i ≡ panic
unfolding get
get_outside self i h = ground arith

-- Fewer than 2 ^ 64 bits, pushed to a builder over an empty file, give a file that `from_bits`
-- accepts as an array of that length, whose `get` returns each bit at its index and panics at any
-- other.
pub get-push_all :
    (order : ByteOrder) (bits : List Bool)
    → length bits < 2 ^ 64
    → (array : BitArray) × (from_bits order (finalize (push_all (new []) bits)) ≡ parsed array)
      × (array.len ≡ length bits)
      × ((i : ℕ) → get array i ≡ (if ltb i (length bits) then ok (bit_or_false bits i) else panic))
get-push_all order bits few =
    let (ws, inv) = push_all-Holds bits (new []) [] [] new-Holds in
    let self = push_all (new []) bits in
    (whole self, from_bits-finalize order self ws bits inv few, inv.counted, at ws self inv)
  where
    at :
        (ws : List ℕ) (self : BitArrayFileBuilder)
        → Holds self ws bits
        → (i : ℕ)
        → get (whole self) i ≡ (if ltb i (length bits) then ok (bit_or_false bits i) else panic)
    at ws self inv i = elim (Bool-cases (ltb i (length bits))) [
      | inl inside ↦ rw inside (get-whole order self ws bits inv few i (ground arith))
      | inr outside ↦ rw outside (get_outside (whole self) i (ground (arith, inv.counted)))
    ]
