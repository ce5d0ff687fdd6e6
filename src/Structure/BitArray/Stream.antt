-- ===== src/Structure/BitArray/Stream.antt =====
-- src/structure/bititer.rs and src/structure/bitarray.rs: the stream of bits is the list that was pushed.
use terminus_store.Prelude.{
  ℕ, zero, suc, ◌-◌, ◌*◌, ◌/◌, ◌^◌, ◌≤◌, ◌<◌, ◌≡◌, refl, ap, ◌∙◌, sym, bit_and, arith, Bool, true,
  false, not, ◌==◌, if◌then◌else◌, List, [], ◌∷◌, ◌++◌, length, take, length-append, Option, none,
  some, map, Bool-cases, ltb, inl, inr,
}
use mathlib.Core.Path.{ap₂}
use mathlib.Core.List.{map-append}
use native.Mathlib.Nat.{one-le-pow}
use terminus_store.Prelude.Outcome.{ok, err, panic, invalid_data}
use terminus_store.Structure.Framed.{FramedRead}
use terminus_store.Prelude.Bits.{bit, bit_and_two_pow, half-two_pow-suc, bit-le-one}
use terminus_store.Structure.Word.{ByteOrder, to_be_bytes}
use terminus_store.Structure.LogArray.Stream.{stream, stream-head, stream-tail}
use terminus_store.Structure.BitArray.Bits.{
  BitIter, next, collect, block_bits, flatten, bitarray_len_from_file, bitarray_stream_bits,
}
use terminus_store.Structure.BitArray.{
  BitArrayFileBuilder, new, push_all, finalize, ParseResult, parsed, rejected, panicked,
  bitarray_stream_blocks,
}
use terminus_store.Structure.BitArray.Push.{Holds, new-Holds, push_all-Holds, to_bit, bit_or_false}
use terminus_store.Structure.BitArray.Get.{
  data_words, words-stream, words-cover, finalize_data-words, words-AllWords,
  bitarray_len_from_file-finalize,
}
use terminus_store.Structure.BitArray.Blocks.{bitarray_stream_blocks-words}

-- The bits of a block from bit `k` down.
unfoldable pub bits_below : ℕ → ℕ → List Bool
bits_below block zero = []
bits_below block (suc k) = (bit block k == 1) ∷ bits_below block k

tested : (block k : ℕ) → not (bit_and block (2 ^ k) == 0) ≡ (bit block k == 1)
tested block k = elim (Bool-cases (bit block k == 0)) [
  | inl clear ↦ ground (
    arith,
    bit_and_two_pow k block,
    ap (λ (t : ℕ). t * 2 ^ k) {x = bit block k} {y = 0} (ground arith),
  )
  | inr not_clear ↦
      let e : bit block k ≡ 1 = ground (arith, bit-le-one block k) in
      ground
        (arith, bit_and_two_pow k block, ap (λ (t : ℕ). t * 2 ^ k) e, one-le-pow k 2 (omega arith))
]

abbrev at : ℕ → ℕ → BitIter
at block mask = record { value = block; mask = mask }

next_lem : (block k : ℕ) → next (at block (2 ^ k)) ≡ (some (bit block k == 1), at block (2 ^ k / 2))
unfolding next
next_lem block k =
    ground (arith, one-le-pow k 2 (omega arith))
    ∙ ap (λ b. (some b, at block (2 ^ k / 2))) (tested block k)

collect-some :
    (fuel : ℕ) (it it' : BitIter) (b : Bool)
    → next it ≡ (some b, it')
    → collect (suc fuel) it ≡ b ∷ collect fuel it'
unfolding collect
collect-some fuel it it' b e =
    ap
      (λ (step : Option Bool × BitIter). elim step.0 [
        | none ↦ []
        | some c ↦ c ∷ collect fuel step.1
      ])
      e

collect-end : (fuel block : ℕ) → collect fuel (at block 0) ≡ []
unfolding collect
collect-end zero block = refl
collect-end (suc fuel) block = ground arith

collect-below :
    (fuel block k : ℕ) → k < fuel → collect fuel (at block (2 ^ k)) ≡ bits_below block (suc k)
unfolding bits_below
collect-below zero block k h = absurd (omega arith)
collect-below (suc fuel) block zero h =
    collect-some fuel (at block (2 ^ 0)) _ _ (next_lem block 0)
    ∙ ap (λ t. (bit block 0 == 1) ∷ t)
        (ap (λ m. collect fuel (at block m)) {x = 2 ^ 0 / 2} {y = 0} (omega arith)
          ∙ collect-end fuel block)
collect-below (suc fuel) block (suc k) h =
    collect-some fuel (at block (2 ^ suc k)) _ _ (next_lem block (suc k))
    ∙ ap (λ t. (bit block (suc k) == 1) ∷ t)
        (ap (λ m. collect fuel (at block m)) {x = 2 ^ suc k / 2} {y = 2 ^ k}
            (omega (arith, half-two_pow-suc k))
          ∙ collect-below fuel block k (omega arith))

length-bits_below : (block k : ℕ) → length (bits_below block k) ≡ k
unfolding bits_below
length-bits_below block zero = refl
length-bits_below block (suc k) = ap suc (length-bits_below block k)

bits_below-at :
    (block k i : ℕ) → i < k → bit_or_false (bits_below block k) i ≡ (bit block (k - 1 - i) == 1)
unfolding bits_below
bits_below-at block zero i h = absurd (omega arith)
bits_below-at block (suc k) zero h = ap (λ t. bit block t == 1) (omega arith)
bits_below-at block (suc k) (suc i) h =
    bits_below-at block k i (omega arith) ∙ ap (λ t. bit block t == 1) (omega arith)

block_bits-below : (block : ℕ) → block_bits block ≡ bits_below block 64
block_bits-below block = collect-below 65 block 63 (omega arith)

length-block_bits : (block : ℕ) → length (block_bits block) ≡ 64
length-block_bits block = ap length (block_bits-below block) ∙ length-bits_below block 64

-- The bits of some words.
unfoldable words_bits : List ℕ → List Bool
words_bits [] = []
words_bits (w ∷ ws) = block_bits w ++ words_bits ws

flatten-ok : (ws : List ℕ) → flatten (map ok ws) ≡ map ok (words_bits ws)
unfolding flatten words_bits
flatten-ok [] = refl
flatten-ok (w ∷ ws) =
    ap (λ t. map ok (block_bits w) ++ t) (flatten-ok ws)
    ∙ sym (map-append ok (block_bits w) (words_bits ws))

take-ok : (n : ℕ) (bits : List Bool) → take n (map ok bits) ≡ map ok (take n bits)
take-ok zero bits = refl
take-ok (suc n) [] = refl
take-ok (suc n) (b ∷ bits) = ap (λ t. ok b ∷ t) (take-ok n bits)

length-words_bits : (ws : List ℕ) → length (words_bits ws) ≡ 64 * length ws
unfolding words_bits
length-words_bits [] = refl
length-words_bits (w ∷ ws) =
    omega (
      arith,
      length-append (block_bits w) (words_bits ws),
      length-block_bits w,
      length-words_bits ws,
    )

bit_or_false-append :
    (xs ys : List Bool) (i : ℕ)
    → bit_or_false (xs ++ ys) i
      ≡ (if ltb i (length xs) then bit_or_false xs i else bit_or_false ys (i - length xs))
bit_or_false-append [] ys i = ground arith
bit_or_false-append (x ∷ xs) ys zero = ground arith
bit_or_false-append (x ∷ xs) ys (suc i) =
    let rest = bit_or_false-append xs ys i in
    let shift : suc i - suc (length xs) ≡ i - length xs = omega arith in
    ground (arith, rest, ap (bit_or_false ys) shift)

words_bits-at :
    (ws : List ℕ) (p : ℕ) → p < 64 * length ws → bit_or_false (words_bits ws) p ≡ (stream ws p == 1)
unfolding words_bits
words_bits-at [] p h = absurd (omega arith)
words_bits-at (w ∷ ws) p h = elim (Bool-cases (ltb p 64)) [
  | inl here ↦
      ground (arith, bit_or_false-append (block_bits w) (words_bits ws) p, length-block_bits w)
      ∙ ap (λ l. bit_or_false l p) (block_bits-below w)
      ∙ bits_below-at w 64 p (ground arith)
      ∙ ap (λ t. t == 1) (sym (stream-head w ws p (ground arith)))
  | inr further ↦
      ground (arith, bit_or_false-append (block_bits w) (words_bits ws) p, length-block_bits w)
      ∙ words_bits-at ws (p - 64) (ground arith)
      ∙ ap (λ t. t == 1) (sym (stream-tail w ws (p - 64)) ∙ ap (stream (w ∷ ws)) (ground arith))
]

take_ext :
    (xs bits : List Bool)
    → length bits ≤ length xs
    → ((p : ℕ) → p < length bits → bit_or_false xs p ≡ bit_or_false bits p)
    → take (length bits) xs ≡ bits
take_ext xs [] h e = refl
take_ext [] (b ∷ bits) h e = absurd (omega arith)
take_ext (x ∷ xs) (b ∷ bits) h e =
    ap₂ (λ u us. u ∷ us) (e 0 (omega arith))
      (take_ext xs bits (omega arith) (λ p hp. e (suc p) (omega arith)))

-- The blocks that the stream yields from the file are its words.
pub blocks-finalize :
    (framed : FramedRead) (order : ByteOrder) (self : BitArrayFileBuilder) (ws : List ℕ)
    (bits : List Bool)
    → Holds self ws bits
    → length bits < 2 ^ 64
    → bitarray_stream_blocks framed order (finalize self) ≡ map ok (data_words self ws)
unfolding finalize
blocks-finalize framed order self ws bits inv few =
    ap (λ t. bitarray_stream_blocks framed order (t ++ to_be_bytes 8 self.count))
      (finalize_data-words order self ws bits inv few)
    ∙ bitarray_stream_blocks-words order framed (data_words self ws) self.count
        (words-AllWords order self ws bits inv few)

stream_bits-parsed :
    (framed : FramedRead) (order : ByteOrder) (file words : List ℕ) (len : ℕ)
    → bitarray_len_from_file order file ≡ parsed len
    → bitarray_stream_blocks framed order file ≡ map ok words
    → bitarray_stream_bits framed order file ≡ ok (map ok (take len (words_bits words)))
unfolding bitarray_stream_bits
stream_bits-parsed framed order file words len e blocks =
    ap
      (λ (r : ParseResult ℕ). elim r [
        | parsed n ↦ ok (take n (flatten (bitarray_stream_blocks framed order file)))
        | rejected e ↦ err invalid_data
        | panicked ↦ panic
      ])
      e
    ∙ ap (λ t. ok (take len (flatten t))) blocks
    ∙ ap (λ t. ok (take len t)) (flatten-ok words)
    ∙ ap ok (take-ok len (words_bits words))

bit_test : (b : Bool) → (to_bit b == 1) ≡ b
bit_test true = refl
bit_test false = refl

-- Fewer than 2 ^ 64 bits, pushed to a builder over an empty file, are what the stream of
-- `bitarray_stream_bits` yields from the finished file, in the order in which they were pushed and
-- without an error, whatever chunks the `FramedRead` reads the file in.
pub bitarray_stream_bits-push_all :
    (framed : FramedRead) (order : ByteOrder) (bits : List Bool)
    → length bits < 2 ^ 64
    → bitarray_stream_bits framed order (finalize (push_all (new []) bits)) ≡ ok (map ok bits)
bitarray_stream_bits-push_all framed order bits few =
    let (ws, inv) = push_all-Holds bits (new []) [] [] new-Holds in
    let self = push_all (new []) bits in
    let words = data_words self ws in
    let cover = words-cover order self ws bits inv few in
    stream_bits-parsed framed order (finalize self) words self.count
      (bitarray_len_from_file-finalize order self ws bits inv few)
      (blocks-finalize framed order self ws bits inv few)
    ∙ ap (λ n. ok (map ok (take n (words_bits words)))) inv.counted
    ∙ ap (λ t. ok (map ok t))
        (take_ext (words_bits words) bits (omega (arith, length-words_bits words, cover)) (λ p hp.
          words_bits-at words p (omega arith)
          ∙ ap (λ t. t == 1) (words-stream order self ws bits inv few p hp ∙ inv.stored p hp)
          ∙ bit_test (bit_or_false bits p)))
