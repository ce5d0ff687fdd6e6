-- ===== src/Structure/LogArray/Entry.antt =====
-- src/structure/logarray.rs: the shifts of `entry` take a field out of two words.
use terminus_store.Prelude.{
  ℕ, ◌+◌, ◌-◌, ◌*◌, ◌/◌, ◌%◌, ◌^◌, ◌≤◌, ◌<◌, ◌≡◌, ap, ◌∙◌, sym, arith, [], ◌∷◌, bit_or, Bool-cases,
  leb, ltb, inl, inr,
}
use terminus_store.Prelude.Bits.{
  bit, bit-bit_or, bit-shr, bit-shl, bit-shl_lt, bit_of_lt, bit-mod_lt, two_pow_mono, two_pow-add,
  shl-lt, bit_or-lt,
}
use terminus_store.Prelude.Outcome.{ok}
use terminus_store.Structure.LogArray.{read_bits}
use terminus_store.Structure.LogArray.Stream.{stream, stream-head, stream-tail}
use native.Mathlib.Nat.{mod-lt, mod-le, one-le-pow, div-lt_iff_lt-mul}

-- `x >> s` has `s` bits less.
pub shr-lt : (m s x : ℕ) → x < 2 ^ (m + s) → x / 2 ^ s < 2 ^ m
shr-lt m s x h = (div-lt_iff_lt-mul (one-le-pow s 2 (omega arith))).1 (rw two_pow-add at h)

-- A field within one word: `first_word << off >> 64 - w`.
module _ (first off w : ℕ) (pos : 1 ≤ w) (hw : off + w ≤ 64) where
  abbrev inner : ℕ
  inner = first * 2 ^ off % 2 ^ 64 / 2 ^ (64 - w)

  inner-lt : inner < 2 ^ w
  inner-lt =
      shr-lt w (64 - w) _
        (rw (sum w (omega arith)) (mod-lt (first * 2 ^ off) {m = 2 ^ 64} (omega arith)))
    where
      sum : (w : ℕ) → w ≤ 64 → w + (64 - w) ≡ 64
      sum w h = omega arith

  one_word_lem : (j : ℕ) → j < w → bit inner (w - 1 - j) ≡ bit first (63 - (off + j))
  one_word_lem j hj =
      bit-shr (64 - w) (first * 2 ^ off % 2 ^ 64) (w - 1 - j)
      ∙ bit-mod_lt 64 (w - 1 - j + (64 - w)) (first * 2 ^ off) (omega arith)
      ∙ ap (bit (first * 2 ^ off)) (omega arith)
      ∙ bit-shl off first (63 - (off + j))

-- A field over two words: the end of the first and the start of the second.
module _ (first second off w : ℕ) (ho : off < 64) (hw : w ≤ 64) (hs : 64 < off + w)
    (h2 : second < 2 ^ 64) where
  abbrev over : ℕ
  over = w - (64 - off)

  abbrev front : ℕ
  front = first * 2 ^ off % 2 ^ 64 / 2 ^ off * 2 ^ over % 2 ^ 64

  abbrev back : ℕ
  back = second / 2 ^ (64 - over)

  back-lt : back < 2 ^ over
  back-lt =
      shr-lt over (64 - over) second
        (omega (arith, h2, ap (λ t. 2 ^ t) {x = over + (64 - over)} {y = 64} (omega arith)))

  front-lt : front < 2 ^ w
  front-lt =
      let low = shr-lt (64 - off) off (first * 2 ^ off % 2 ^ 64) (
        omega (
          arith,
          mod-lt (first * 2 ^ off) {m = 2 ^ 64} (omega arith),
          ap (λ t. 2 ^ t) {x = 64 - off + off} {y = 64} (omega arith),
        )) in
      let full = shl-lt (64 - off) over (first * 2 ^ off % 2 ^ 64 / 2 ^ off) low in
      omega (
        arith,
        full,
        ap (λ t. 2 ^ t) {x = 64 - off + over} {y = w} (omega arith),
        mod-le (first * 2 ^ off % 2 ^ 64 / 2 ^ off * 2 ^ over) (2 ^ 64),
      )

  over-lt : bit_or front back < 2 ^ w
  over-lt =
      bit_or-lt w front back front-lt (omega (arith, back-lt, two_pow_mono over w (omega arith)))

  first_part_lem : (j : ℕ) → off + j < 64 → bit front (w - 1 - j) ≡ bit first (63 - (off + j))
  first_part_lem j hj =
      bit-mod_lt 64 (w - 1 - j) _ (omega arith)
      ∙ ap (bit _) (omega arith)
      ∙ bit-shl over (first * 2 ^ off % 2 ^ 64 / 2 ^ off) (63 - (off + j))
      ∙ bit-shr off (first * 2 ^ off % 2 ^ 64) (63 - (off + j))
      ∙ bit-mod_lt 64 (63 - (off + j) + off) (first * 2 ^ off) (omega arith)
      ∙ bit-shl off first (63 - (off + j))

  first_part_clear : (k : ℕ) → k < over → bit front k ≡ 0
  first_part_clear k hk = bit-mod_lt 64 k _ (omega arith) ∙ bit-shl_lt over _ k hk

  second_part_lem :
      (j : ℕ) → 64 ≤ off + j → j < w → bit back (w - 1 - j) ≡ bit second (63 - (off + j - 64))
  second_part_lem j hj hjw = bit-shr (64 - over) second (w - 1 - j) ∙ ap (bit second) (omega arith)

  second_part_clear : (k : ℕ) → over ≤ k → bit back k ≡ 0
  second_part_clear k hk = bit_of_lt k back (omega (arith, back-lt, two_pow_mono over k hk))

  over_bit :
      (j : ℕ) → j < w → bit (bit_or front back) (w - 1 - j) ≡ stream (first ∷ second ∷ []) (off + j)
  over_bit j hj = elim (Bool-cases (ltb (off + j) 64)) [
    | inl here ↦
        let e : off + j < 64 = ground arith in
        omega (
          arith,
          bit-bit_or (w - 1 - j) front back,
          first_part_lem j e,
          second_part_clear (w - 1 - j) (omega arith),
          stream-head first (second ∷ []) (off + j) e,
        )
    | inr there ↦
        let e : 64 ≤ off + j = ground arith in
        omega (
          arith,
          bit-bit_or (w - 1 - j) front back,
          first_part_clear (w - 1 - j) (omega arith),
          second_part_lem j e hj,
          ap (stream (first ∷ second ∷ [])) {x = off + j - 64 + 64} {y = off + j} (omega arith),
          stream-tail first (second ∷ []) (off + j - 64),
          stream-head second [] (off + j - 64) (omega arith),
        )
  ]

-- `read_bits` returns the number whose `w` bits stand at `off` in the two words. The second word
-- matters, and has to be a u64, only where the field reaches it.
pub read_bits_lem :
    (first second off w : ℕ)
    → off < 64
    → 1 ≤ w
    → w ≤ 64
    → (64 < off + w → second < 2 ^ 64)
    → (v : ℕ) × (read_bits first second off w ≡ ok v)
      × (v < 2 ^ w)
      × ((j : ℕ) → j < w → bit v (w - 1 - j) ≡ stream (first ∷ second ∷ []) (off + j))
unfolding read_bits
read_bits_lem first second off w ho pos hw h2 = elim (Bool-cases (leb (off + w) 64)) [
  | inl one ↦
      let e : off + w ≤ 64 = ground arith in
      (
        inner first off w pos e,
        ground arith,
        inner-lt first off w pos e,
        λ j hj.
            one_word_lem first off w pos e j hj
            ∙ sym (stream-head first (second ∷ []) (off + j) (omega arith)),
      )
  | inr two ↦
      let e : 64 < off + w = ground arith in
      (
        bit_or (front first second off w ho hw e (h2 e)) (back first second off w ho hw e (h2 e)),
        ground arith,
        over-lt first second off w ho hw e (h2 e),
        over_bit first second off w ho hw e (h2 e),
      )
]
