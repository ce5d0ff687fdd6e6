-- ===== src/Structure/Word/Bytes.antt =====
-- Words and their bytes.
use terminus_store.Prelude.{
  ℕ, zero, suc, ◌+◌, ◌*◌, ◌/◌, ◌%◌, ◌^◌, ◌≤◌, ◌<◌, ◌≡◌, refl, ap, ◌∙◌, sym, ◌↔◌, drop-add, arith,
  List, [], ◌∷◌, ◌++◌, length, length-append, drop, get_or, append_assoc,
}
use terminus_store.Prelude.Bits.{half-two_pow-suc}
use terminus_store.Prelude.Outcome.{ok}
use terminus_store.Structure.Word.{
  to_be_bytes, be_value, AllBytes, ByteOrder, read_u64_at, bit_length_loop,
}
use native.Mathlib.Nat.{
  pow-suc, one-le-pow, mod-lt, mod-eq_of_lt, div-add-mod, mul-add-mod_self_left,
}

pub length-to_be_bytes : (n x : ℕ) → length (to_be_bytes n x) ≡ n
unfolding to_be_bytes
length-to_be_bytes zero x = refl
length-to_be_bytes (suc n) x = ap suc (length-to_be_bytes n x)

pub to_be_bytes-AllBytes : (n x : ℕ) → AllBytes (to_be_bytes n x)
unfolding to_be_bytes
to_be_bytes-AllBytes zero x = tt
to_be_bytes-AllBytes (suc n) x = (omega arith, to_be_bytes-AllBytes n x)

mod_split : (m x : ℕ) → 0 < m → x / m % 256 * m + x % m ≡ x % (256 * m)
mod_split m x h =
    let c : ℕ = x / m % 256 * m + x % m in
    let e : x ≡ 256 * m * (x / m / 256) + c =
      omega (arith, div-add-mod x m, ap (λ (t : ℕ). m * t) (div-add-mod (x / m) 256)) in
    let small : x / m % 256 < 256 = omega arith in
    let low : x % m < m = mod-lt x h in
    let fits : c < 256 * m = grind arith in
    sym (
      ap (λ t. t % (256 * m)) e
      ∙ mul-add-mod_self_left (256 * m) (x / m / 256) c
      ∙ mod-eq_of_lt fits)

pub be_value-to_be_bytes : (n x : ℕ) → be_value (to_be_bytes n x) ≡ x % 256 ^ n
unfolding to_be_bytes be_value
be_value-to_be_bytes zero x = omega arith
be_value-to_be_bytes (suc n) x =
    rw (length-to_be_bytes n x, be_value-to_be_bytes n x)
      (mod_split (256 ^ n) x (one-le-pow n 256 (omega arith))
        ∙ ap (λ t. x % t) (omega (arith, pow-suc 256 n)))

-- A file of words: the bytes of each, one after the other.
unfoldable pub word_bytes : List ℕ → List ℕ
word_bytes [] = []
word_bytes (w ∷ ws) = to_be_bytes 8 w ++ word_bytes ws

abbrev pub AllWords : List ℕ → Type 0
AllWords [] = Unit {0}
AllWords (w ∷ ws) = (w < 2 ^ 64) × AllWords ws

pub length-word_bytes : (ws : List ℕ) → length (word_bytes ws) ≡ 8 * length ws
unfolding word_bytes
length-word_bytes [] = refl
length-word_bytes (w ∷ ws) = omega (
  arith,
  length-append (to_be_bytes 8 w) (word_bytes ws),
  length-to_be_bytes 8 w,
  length-word_bytes ws,
)

pub word_bytes-append : (vs ws : List ℕ) → word_bytes (vs ++ ws) ≡ word_bytes vs ++ word_bytes ws
unfolding word_bytes
word_bytes-append [] ws = refl
word_bytes-append (v ∷ vs) ws =
    rw (word_bytes-append vs ws)
      (sym (append_assoc (to_be_bytes 8 v) (word_bytes vs) (word_bytes ws)))

-- Reading at the start of word `k` gives that word.
pub read_u64_at-word_bytes :
    (order : ByteOrder) (ws : List ℕ) (rest : List ℕ) (k : ℕ)
    → AllWords ws
    → k < length ws
    → read_u64_at order (word_bytes ws ++ rest) (8 * k) ≡ ok (get_or ws k 0)
unfolding word_bytes read_u64_at
read_u64_at-word_bytes order [] rest k a h = absurd (omega arith)
read_u64_at-word_bytes order (w ∷ ws) rest zero (hw, a) h = ground (
  arith,
  append_assoc (to_be_bytes 8 w) (word_bytes ws) rest,
  length-append (to_be_bytes 8 w) (word_bytes ws ++ rest),
  length-to_be_bytes 8 w,
  be_value-to_be_bytes 8 w,
  order.read_u64_front (to_be_bytes 8 w) (word_bytes ws ++ rest) (length-to_be_bytes 8 w)
      (to_be_bytes-AllBytes 8 w),
)
read_u64_at-word_bytes order (w ∷ ws) rest (suc k) (hw, a) h = ground (
  arith,
  append_assoc (to_be_bytes 8 w) (word_bytes ws) rest,
  length-append (to_be_bytes 8 w) (word_bytes ws ++ rest),
  length-to_be_bytes 8 w,
  drop-add (to_be_bytes 8 w) (word_bytes ws ++ rest) (8 * k),
  ap (λ i. drop i (to_be_bytes 8 w ++ (word_bytes ws ++ rest))) (skip_word k),
  read_u64_at-word_bytes order ws rest k a (omega arith),
)
  where
    skip_word : (k : ℕ) → 8 * suc k ≡ length (to_be_bytes 8 w) + 8 * k
    skip_word k = omega (arith, length-to_be_bytes 8 w)

bit_length-positive :
    (fuel v : ℕ) → 0 < v → bit_length_loop (suc fuel) v ≡ bit_length_loop fuel (v / 2) + 1
unfolding bit_length_loop
bit_length-positive fuel v h = ground arith

-- A number has at most `w` binary digits exactly when it is below `2 ^ w`.
pub bit_length-le_iff : (fuel v w : ℕ) → v < 2 ^ fuel → (bit_length_loop fuel v ≤ w) ↔ (v < 2 ^ w)
bit_length-le_iff zero v w h =
    (λ _. omega (arith, one-le-pow w 2 (omega arith)), λ _. unfold bit_length_loop in omega arith)
bit_length-le_iff (suc fuel) zero w h =
    (λ _. omega (arith, one-le-pow w 2 (omega arith)), λ _. unfold bit_length_loop in omega arith)
bit_length-le_iff (suc fuel) (suc v) zero h = (
  λ e. absurd (omega (arith, bit_length-positive fuel (suc v) (omega arith))),
  λ e. absurd (omega arith),
)
bit_length-le_iff (suc fuel) (suc v) (suc w) h =
    let step = bit_length-positive fuel (suc v) (omega arith) in
    let ih = bit_length-le_iff fuel (suc v / 2) w (omega (arith, half-two_pow-suc fuel)) in
    (
      λ e. (let r = ih.0 (omega (arith, step)) in omega (arith, r, half-two_pow-suc w)),
      λ e. (let r = ih.1 (omega (arith, half-two_pow-suc w)) in omega (arith, r, step)),
    )
