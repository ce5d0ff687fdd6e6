-- ===== src/Structure/VByte/Decode.antt =====
-- src/structure/vbyte.rs: `decode` on any buffer.
use terminus_store.Prelude.{
  ℕ, ◌+◌, ◌*◌, ◌%◌, ◌^◌, ◌≤◌, ◌<◌, ◌≡◌, ◌⊎◌, refl, ap, ◌∙◌, bit_and, bit_or, arith, ltb, ◌==◌, ◌&&◌,
  if◌then◌else◌, List, [], ◌∷◌, ◌++◌, length, Bool-cases, inl, inr, false,
}
use terminus_store.Prelude.Bits.{
  bit_or_add, bit_and_mask, bit_or_comm, half-two_pow-suc, two_pow_mono,
}
use terminus_store.Structure.VByte.{
  ok, err, encoded_value_too_large, unexpected_end_of_buffer, unexpected_encoding_len, decode,
  decode_loop, shl64,
}
use native.Mathlib.Nat.{mod-eq_of_lt}
use native.Mathlib.Numerals.{towards_suc}

-- The number that seven-bit groups denote, lowest first, whatever their top bits are.
unfoldable pub value : List ℕ → ℕ
value [] = 0
value (b ∷ bs) = b % 128 + 128 * value bs

abbrev pub AllMore : List ℕ → Type 0
AllMore [] = Unit {0}
AllMore (b ∷ bs) = (b < 128) × AllMore bs

-- `num |= b << shift` adds `b * 2 ^ shift` above the bits read so far.
pub add_group :
    (b num shift : ℕ)
    → num < 2 ^ shift
    → b * 2 ^ shift < 2 ^ 64
    → bit_or num (shl64 b shift) ≡ num + b * 2 ^ shift
add_group b num shift hn hb =
    ap (bit_or num) (mod-eq_of_lt hb) ∙ bit_or_comm num _ ∙ bit_or_add shift b num hn ∙ omega arith

group_fits : (b shift : ℕ) → b < 128 → shift < 58 → b * 2 ^ shift < 2 ^ 64
group_fits b shift hb hs = grind (arith, two_pow_mono shift 57 (omega arith))

at_63 : (g shift : ℕ) → shift ≡ 63 → g * 2 ^ shift < 2 ^ 64 → g ≤ 1
at_63 g shift e h = let h' : g * 2 ^ 63 < 2 ^ 64 = rw e at h in omega arith

-- One round at a group that is not the last.
pub decode_loop-more :
    (b : ℕ) (buf : List ℕ) (i num shift : ℕ)
    → b < 128
    → shift < 58
    → num < 2 ^ shift
    → decode_loop (b ∷ buf) i num shift ≡ decode_loop buf (i + 1) (num + b * 2 ^ shift) (shift + 7)
unfolding decode_loop
decode_loop-more b buf i num shift hb hs hn =
    ground (arith, add_group b num shift hn (group_fits b shift hb hs))

pub decode_loop-last :
    (g : ℕ) (buf : List ℕ) (i num shift : ℕ)
    → g < 128
    → num < 2 ^ shift
    → num + g * 2 ^ shift < 2 ^ 64
    → decode_loop ((g + 128) ∷ buf) i num shift ≡ ok (num + g * 2 ^ shift, i + 1)
unfolding decode_loop
decode_loop-last g buf i num shift hg hn fits = ground (
  arith,
  bit_and_mask 7 (g + 128),
  at_63 g shift,
  add_group g num shift hn (omega arith),
  ap (λ t. shl64 t shift) {x = bit_and (g + 128) 0x7f} {y = g}
      (bit_and_mask 7 (g + 128) ∙ omega arith),
)

pub pow_seven : (s : ℕ) → 2 ^ (s + 7) ≡ 128 * 2 ^ s
pow_seven s = simp towards_suc (omega (arith, half-two_pow-suc))

-- The value of the groups `b ∷ bs` at bit `s`, one group at a time.
value_shift : (b v s : ℕ) → b * 2 ^ s + v * 2 ^ (s + 7) ≡ (b + 128 * v) * 2 ^ s
value_shift b v s = omega (arith, ap (λ (t : ℕ). v * t) (pow_seven s))

num_grows : (b num s : ℕ) → b < 128 → num < 2 ^ s → num + b * 2 ^ s < 2 ^ (s + 7)
num_grows b num s hb hn = let e = pow_seven s in grind arith

marked_room :
    (b num shift : ℕ)
    → 128 ≤ b
    → b < 256
    → num < 2 ^ shift
    → (shift ≤ 56) ⊎ ((shift ≡ 63) × (b ≤ 0x81))
    → num + b % 128 * 2 ^ shift < 2 ^ 64
marked_room b num shift lo hi hn (inl small) =
    let e = two_pow_mono shift 56 small in let h : b % 128 < 128 = omega arith in grind arith
marked_room b num shift lo hi hn (inr (e, hb)) =
    let p : 2 ^ shift ≡ 2 ^ 63 = ap (λ s. 2 ^ s) e in
    let hn' : num < 2 ^ 63 = rw p at hn in rw p (omega arith)

too_large :
    (b num shift : ℕ) (rest : List ℕ) (i : ℕ)
    → 0x81 < b
    → shift ≡ 63
    → decode_loop (b ∷ rest) i num shift ≡ err encoded_value_too_large
unfolding decode_loop
too_large b num shift rest i hb e = ground arith

fits_marked :
    (b num shift : ℕ) (rest : List ℕ) (i : ℕ)
    → 128 ≤ b
    → b < 256
    → num < 2 ^ shift
    → (shift ≤ 56) ⊎ ((shift ≡ 63) × (b ≤ 0x81))
    → decode_loop (b ∷ rest) i num shift ≡ ok (num + b % 128 * 2 ^ shift, i + 1)
fits_marked b num shift rest i lo hi hn room =
    ap (λ t. decode_loop (t ∷ rest) i num shift) (omega arith)
    ∙ decode_loop-last (b % 128) rest i num shift (omega arith) hn
        (marked_room b num shift lo hi hn room)

decode_loop_marked :
    (front : List ℕ) (b : ℕ) (rest : List ℕ) (i num shift j : ℕ)
    → AllMore front
    → 128 ≤ b
    → b < 256
    → shift ≡ 7 * j
    → j + length front < 10
    → num < 2 ^ shift
    → decode_loop (front ++ (b ∷ rest)) i num shift ≡ (
        if (j + length front) == 9 && ltb 0x81 b
        then err encoded_value_too_large
        else ok (num + value (front ++ (b ∷ [])) * 2 ^ shift, i + length front + 1))
unfolding value
decode_loop_marked [] b rest i num shift j m hb hb' e hj hn =
    elim (Bool-cases (j == 9 && ltb 0x81 b)) [
      | inl big ↦ ground (arith, too_large b num shift rest i)
      | inr small ↦ ground (arith, fits_marked b num shift rest i hb hb' hn (room small))
    ]
  where
    room : (j == 9 && ltb 0x81 b) ≡ false → (shift ≤ 56) ⊎ ((shift ≡ 63) × (b ≤ 0x81))
    room small = elim (Bool-cases (j == 9)) [
      | inl nine ↦ inr (ground arith, ground arith)
      | inr less ↦ inl (ground arith)
    ]
decode_loop_marked (c ∷ front) b rest i num shift j (hc, m) hb hb' e hj hn = ground (
  arith,
  decode_loop-more c (front ++ (b ∷ rest)) i num shift hc (omega arith) hn,
  decode_loop_marked front b rest (i + 1) (num + c * 2 ^ shift) (shift + 7) (j + 1) m hb hb'
      (omega arith) (omega arith) (num_grows c num shift hc hn),
  value_shift c (value (front ++ (b ∷ []))) shift,
)

-- A group with no mark at the tenth byte ends the decoding.
decode_loop-tenth :
    (b : ℕ) (rest : List ℕ) (i num shift : ℕ)
    → b < 128
    → 58 ≤ shift
    → decode_loop (b ∷ rest) i num shift ≡ err unexpected_encoding_len
unfolding decode_loop
decode_loop-tenth b rest i num shift hb hs = ground arith

decode_loop_overlong :
    (front rest : List ℕ) (i num shift j : ℕ)
    → AllMore front
    → shift ≡ 7 * j
    → j + length front ≡ 10
    → j < 10
    → num < 2 ^ shift
    → decode_loop (front ++ rest) i num shift ≡ err unexpected_encoding_len
decode_loop_overlong [] rest i num shift j m e hj hl hn = absurd (omega arith)
decode_loop_overlong (c ∷ front) rest i num shift j (hc, m) e hj hl hn =
    elim (Bool-cases (j == 9)) [
      | inl nine ↦ decode_loop-tenth c (front ++ rest) i num shift hc (ground arith)
      | inr less ↦
          decode_loop-more c (front ++ rest) i num shift hc (ground arith) hn
          ∙ decode_loop_overlong front rest (i + 1) (num + c * 2 ^ shift) (shift + 7) (j + 1) m
              (omega arith) (omega arith) (ground arith) (num_grows c num shift hc hn)
    ]

decode_loop_unended :
    (buf : List ℕ) (i num shift j : ℕ)
    → AllMore buf
    → shift ≡ 7 * j
    → j + length buf < 10
    → num < 2 ^ shift
    → decode_loop buf i num shift ≡ err unexpected_end_of_buffer
decode_loop_unended [] i num shift j m e hj hn = unfold decode_loop in refl
decode_loop_unended (c ∷ front) i num shift j (hc, m) e hj hn =
    decode_loop-more c front i num shift hc (omega arith) hn
    ∙ decode_loop_unended front (i + 1) (num + c * 2 ^ shift) (shift + 7) (j + 1) m (omega arith)
        (omega arith) (num_grows c num shift hc hn)

-- A buffer of bytes with the mark first met at the byte `b`, among the first ten, decodes to the
-- value of its seven-bit groups and their number; only a tenth byte above 0x81 is refused, as too
-- large for a u64.
pub decode_marked :
    (front : List ℕ) (b : ℕ) (rest : List ℕ)
    → AllMore front
    → length front < 10
    → 128 ≤ b
    → b < 256
    → decode (front ++ (b ∷ rest)) ≡ (
        if length front == 9 && ltb 0x81 b
        then err encoded_value_too_large
        else ok (value (front ++ (b ∷ [])), length front + 1))
unfolding decode
decode_marked front b rest m h lo hi =
    ground (arith, decode_loop_marked front b rest 0 0 0 0 m lo hi)

-- Ten bytes with no mark end the decoding with `unexpected_encoding_len`, whatever follows them.
pub decode_overlong :
    (front rest : List ℕ)
    → AllMore front
    → length front ≡ 10
    → decode (front ++ rest) ≡ err unexpected_encoding_len
unfolding decode
decode_overlong front rest m h =
    decode_loop_overlong front rest 0 0 0 0 m (omega arith) (omega arith) (omega arith)
      (omega arith)

-- A buffer of fewer than ten bytes, none of them marked, gives `unexpected_end_of_buffer`.
pub decode_unended :
    (buf : List ℕ) → AllMore buf → length buf < 10 → decode buf ≡ err unexpected_end_of_buffer
unfolding decode
decode_unended buf m h = decode_loop_unended buf 0 0 0 0 m (omega arith) (omega arith) (omega arith)
