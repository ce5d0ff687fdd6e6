-- ===== src/Structure/BitIndex/Ones.antt =====
-- src/structure/bitindex.rs: counting the ones of a word, of a sequence of words and of a list.
use terminus_store.Prelude.{
  ℕ, zero, suc, ◌+◌, ◌-◌, ◌*◌, ◌/◌, ◌%◌, ◌^◌, ◌≤◌, ◌<◌, ◌≡◌, refl, ap, ◌∙◌, arith, List, [], ◌∷◌,
  length, get_or, Bool, true, false,
}
use terminus_store.Prelude.Bits.{bit, half-two_pow-suc}
use terminus_store.Structure.Word.Bytes.{AllWords}
use terminus_store.Structure.BitIndex.{count_ones_loop, count_ones}
use terminus_store.Structure.BitArray.Push.{to_bit, bit_or_false}
use terminus_store.Structure.LogArray.Stream.{stream, stream-head, stream-tail}
use native.Mathlib.Nat.{div-div-eq-div-mul, div-le_self}

-- The ones among the first `n` bits of the words.
unfoldable pub ones_upto : List ℕ → ℕ → ℕ
ones_upto ws zero = 0
ones_upto ws (suc n) = ones_upto ws n + stream ws n

-- The number of `true` among the first `n` of the bits.
unfoldable pub count_true : ℕ → List Bool → ℕ
count_true zero bits = 0
count_true (suc n) bits = count_true n bits + to_bit (bit_or_false bits n)

-- The number of `false` among them.
unfoldable pub count_false : ℕ → List Bool → ℕ
count_false zero bits = 0
count_false (suc n) bits = count_false n bits + (1 - to_bit (bit_or_false bits n))

to_bit-le : (b : Bool) → to_bit b ≤ 1
to_bit-le true = omega arith
to_bit-le false = omega arith

pub count_true-add-count_false :
    (n : ℕ) (bits : List Bool) → count_true n bits + count_false n bits ≡ n
unfolding count_true count_false
count_true-add-count_false zero bits = refl
count_true-add-count_false (suc n) bits =
    omega (arith, count_true-add-count_false n bits, to_bit-le (bit_or_false bits n))

pub count_mono :
    (n k : ℕ) (bits : List Bool)
    → (count_true n bits ≤ count_true (n + k) bits)
      × (count_false n bits ≤ count_false (n + k) bits)
unfolding count_true count_false
count_mono n zero bits = (
  omega (arith, ap (λ t. count_true t bits) {x = n + 0} {y = n} (omega arith)),
  omega (arith, ap (λ t. count_false t bits) {x = n + 0} {y = n} (omega arith)),
)
count_mono n (suc k) bits =
    let (t, f) = count_mono n k bits in
    (
      omega (arith, t, ap (λ t. count_true t bits) {x = n + suc k} {y = suc (n + k)} (omega arith)),
      omega
          (arith, f, ap (λ t. count_false t bits) {x = n + suc k} {y = suc (n + k)} (omega arith)),
    )

count_ones-fuel : (f x : ℕ) → x < 2 ^ f → count_ones_loop (suc f) x ≡ count_ones_loop f x
unfolding count_ones_loop
count_ones-fuel zero x h = omega arith
count_ones-fuel (suc f) x h =
    ap (λ t. x % 2 + t) (count_ones-fuel f (x / 2) (omega (arith, half-two_pow-suc f)))

pub count_ones-le : (f x : ℕ) → count_ones_loop f x ≤ f
unfolding count_ones_loop
count_ones-le zero x = omega arith
count_ones-le (suc f) x = omega (arith, count_ones-le f (x / 2))

pub count_ones-zero : (f : ℕ) → count_ones_loop f 0 ≡ 0
unfolding count_ones_loop
count_ones-zero zero = refl
count_ones-zero (suc f) = omega (arith, count_ones-zero f)

halve_shift : (w k : ℕ) → w / 2 ^ k / 2 ≡ w / 2 ^ suc k
halve_shift w k =
    div-div-eq-div-mul w (2 ^ k) 2 ∙ ap (λ t. w / t) (omega (arith, half-two_pow-suc k))

top_bit : (w : ℕ) → bit w 63 ≡ w / 2 ^ 63 % 2
unfolding bit
top_bit w = refl

shift_step :
    (w k : ℕ) → k < 63 → w < 2 ^ 64 → count_ones (w / 2 ^ k) ≡ count_ones (w / 2 ^ suc k) + bit w k
unfolding bit
shift_step w k hk h =
    let y : ℕ = w / 2 ^ k in
    let half : y / 2 ≡ w / 2 ^ suc k = halve_shift w k in
    let small : y / 2 < 2 ^ 63 = omega (arith, div-le_self w (2 ^ k)) in
    let low : count_ones y ≡ y % 2 + count_ones_loop 63 (y / 2) = unfold count_ones_loop in refl in
    omega (arith, low, count_ones-fuel 63 (y / 2) small, ap count_ones half)

-- Shifting out what stands behind bit `q` leaves the ones of the bits up to `q`.
pub count_ones-shr :
    (w : ℕ) (ws : List ℕ) (q : ℕ)
    → w < 2 ^ 64
    → q < 64
    → count_ones (w / 2 ^ (63 - q)) ≡ ones_upto (w ∷ ws) (suc q)
unfolding ones_upto
count_ones-shr w ws zero h hq =
    let top : w / 2 ^ 63 < 2 = omega arith in
    let one : count_ones (w / 2 ^ 63) ≡ w / 2 ^ 63 % 2 + count_ones_loop 63 (w / 2 ^ 63 / 2) =
      unfold count_ones_loop in refl in
    omega (
      arith,
      one,
      ap (count_ones_loop 63) {x = w / 2 ^ 63 / 2} {y = 0} (omega arith),
      count_ones-zero 63,
      top_bit w,
      stream-head w ws 0 hq,
    )
count_ones-shr w ws (suc q) h hq =
    ap (λ t. count_ones (w / 2 ^ t)) (omega arith)
    ∙ shift_step w (62 - q) (omega arith) h
    ∙ omega (
      arith,
      ap (λ t. count_ones (w / 2 ^ t)) {x = suc (62 - q)} {y = 63 - q} (omega arith),
      count_ones-shr w ws q h (omega arith),
      stream-head w ws (suc q) hq,
      ap (bit w) {x = 63 - suc q} {y = 62 - q} (omega arith),
    )

pub ones_upto-cons :
    (w : ℕ) (ws : List ℕ) (n : ℕ)
    → w < 2 ^ 64
    → ones_upto (w ∷ ws) (n + 64) ≡ count_ones w + ones_upto ws n
unfolding ones_upto
ones_upto-cons w ws zero h = omega (
  arith,
  count_ones-shr w ws 63 h (omega arith),
  ap count_ones {x = w / 2 ^ 0} {y = w} (omega arith),
)
ones_upto-cons w ws (suc n) h = omega (
  arith,
  ap (ones_upto (w ∷ ws)) {x = suc n + 64} {y = suc (n + 64)} (omega arith),
  ones_upto-cons w ws n h,
  stream-tail w ws n,
)

-- Where the words hold the bits, the ones of the words are the `true` bits.
pub ones_upto-count_true :
    (ws : List ℕ) (bits : List Bool) (n : ℕ)
    → ((p : ℕ) → p < n → stream ws p ≡ to_bit (bit_or_false bits p))
    → ones_upto ws n ≡ count_true n bits
unfolding ones_upto count_true
ones_upto-count_true ws bits zero h = refl
ones_upto-count_true ws bits (suc n) h =
    omega (arith, ones_upto-count_true ws bits n (λ p hp. h p (omega arith)), h n (omega arith))

-- The ones of the first `k` words.
unfoldable pub words_ones : ℕ → List ℕ → ℕ
words_ones zero ws = 0
words_ones (suc k) [] = 0
words_ones (suc k) (w ∷ ws) = count_ones w + words_ones k ws

-- The ones up to bit `q` of word `k`: those of the words before it, and its own.
pub ones_upto-words :
    (ws : List ℕ) (k q : ℕ)
    → AllWords ws
    → k < length ws
    → q < 64
    → words_ones k ws + count_ones (get_or ws k 0 / 2 ^ (63 - q)) ≡ ones_upto ws (64 * k + q + 1)
unfolding words_ones
ones_upto-words [] k q a h hq = absurd (omega arith)
ones_upto-words (w ∷ ws) zero q (hw, a) h hq = omega (
  arith,
  count_ones-shr w ws q hw hq,
  ap (ones_upto (w ∷ ws)) {x = 64 * 0 + q + 1} {y = suc q} (omega arith),
)
ones_upto-words (w ∷ ws) (suc k) q (hw, a) h hq = omega (
  arith,
  ones_upto-words ws k q a (omega arith) hq,
  ones_upto-cons w ws (64 * k + q + 1) hw,
  ap (ones_upto (w ∷ ws)) {x = 64 * suc k + q + 1} {y = 64 * k + q + 1 + 64} (omega arith),
)
