-- ===== src/Structure/Select/Words.antt =====
-- src/structure/bitindex.rs: the wanted bits before a block, and the ranks that a select reads.
use terminus_store.Prelude.{
  ℕ, zero, suc, ◌+◌, ◌-◌, ◌*◌, ◌/◌, ◌^◌, ◌≤◌, ◌<◌, ◌≡◌, refl, ap, ◌∙◌, sym, arith, Bool, true,
  false, map, List, [], ◌∷◌, ◌++◌, length, get_or,
}
use terminus_store.Prelude.Bits.{bit-le-one}
use terminus_store.Structure.Word.Bytes.{AllWords}
use terminus_store.Structure.LogArray.Stream.{stream-head}
use terminus_store.Structure.BitIndex.{count_ones, count_ones_loop, sum}
use terminus_store.Structure.BitIndex.Ones.{ones_upto, count_ones-shr, count_ones-zero, words_ones}
use terminus_store.Structure.BitIndex.Build.{sblock_counts, AllChunks, concat, words_ones-append}
use terminus_store.Structure.Select.Scan.{hits}

-- The wanted bits in the first `k` words.
unfoldable pub before : Bool → List ℕ → ℕ → ℕ
before wanted ws zero = 0
before wanted ws (suc k) = before wanted ws k + hits wanted (get_or ws k 0) 64

pub hits-both : (w n : ℕ) → hits true w n + hits false w n ≡ n
unfolding hits
hits-both w zero = refl
hits-both w (suc n) = omega (arith, hits-both w n, bit-le-one w (63 - n))

pub hits-ones : (w : ℕ) (ws : List ℕ) (n : ℕ) → n ≤ 64 → hits true w n ≡ ones_upto (w ∷ ws) n
unfolding hits ones_upto
hits-ones w ws zero h = refl
hits-ones w ws (suc n) h =
    omega (arith, hits-ones w ws n (omega arith), stream-head w ws n (omega arith))

hits-count_ones : (w : ℕ) → w < 2 ^ 64 → hits true w 64 ≡ count_ones w
hits-count_ones w h =
    hits-ones w [] 64 (omega arith)
    ∙ sym (count_ones-shr w [] 63 h (omega arith))
    ∙ ap count_ones {x = w / 2 ^ (63 - 63)} {y = w} (omega arith)

words_ones-suc :
    (ws : List ℕ) (k : ℕ) → words_ones (suc k) ws ≡ words_ones k ws + count_ones (get_or ws k 0)
unfolding words_ones
words_ones-suc [] zero = omega (arith, count_ones-zero 64)
words_ones-suc [] (suc k) = omega (arith, count_ones-zero 64)
words_ones-suc (w ∷ ws) zero = omega arith
words_ones-suc (w ∷ ws) (suc k) = omega (arith, words_ones-suc ws k)

pub AllWords-get_or : (ws : List ℕ) (k : ℕ) → AllWords ws → get_or ws k 0 < 2 ^ 64
AllWords-get_or [] k a = omega arith
AllWords-get_or (w ∷ ws) zero (h, a) = h
AllWords-get_or (w ∷ ws) (suc k) (h, a) = AllWords-get_or ws k a

module _ (ws : List ℕ) (a : AllWords ws) where
  pub before-ones : (k : ℕ) → before true ws k ≡ words_ones k ws
  unfolding before
  before-ones zero = unfold words_ones in refl
  before-ones (suc k) = omega (
    arith,
    before-ones k,
    words_ones-suc ws k,
    hits-count_ones (get_or ws k 0) (AllWords-get_or ws k a),
  )

pub before-both : (ws : List ℕ) (k : ℕ) → before true ws k + before false ws k ≡ 64 * k
unfolding before
before-both ws zero = omega arith
before-both ws (suc k) = omega (arith, before-both ws k, hits-both (get_or ws k 0) 64)

pub before-add :
    (wanted : Bool) (ws : List ℕ) (k n : ℕ) → before wanted ws k ≤ before wanted ws (k + n)
unfolding before
before-add wanted ws k zero = omega (arith, ap (before wanted ws) {x = k + 0} {y = k} (omega arith))
before-add wanted ws k (suc n) = omega (
  arith,
  before-add wanted ws k n,
  ap (before wanted ws) {x = k + suc n} {y = suc (k + n)} (omega arith),
)

pub before_mono :
    (wanted : Bool) (ws : List ℕ) (i j : ℕ) → i ≤ j → before wanted ws i ≤ before wanted ws j
before_mono wanted ws i j h = omega (
  arith,
  before-add wanted ws i (j - i),
  ap (before wanted ws) {x = i + (j - i)} {y = j} (omega arith),
)

-- A superblock's count is the ones up to its end.
words_ones-nil : (k : ℕ) → words_ones k [] ≡ 0
unfolding words_ones
words_ones-nil zero = refl
words_ones-nil (suc k) = refl

words_ones-zero : (ws : List ℕ) → words_ones 0 ws ≡ 0
unfolding words_ones
words_ones-zero ws = refl

pub sblock_counts-ones :
    (cs : List (List ℕ)) (r j : ℕ)
    → AllChunks cs
    → j < length (sblock_counts r cs)
    → get_or (sblock_counts r cs) j 0 ≡ r + words_ones (52 * (j + 1)) (concat cs)
unfolding sblock_counts
sblock_counts-ones [] r j a h = absurd (omega arith)
sblock_counts-ones (c ∷ []) r zero (lo, hi) h = omega (
  arith,
  words_ones-append c [] (52 - length c),
  ap (λ n. words_ones n (c ++ [])) {x = length c + (52 - length c)} {y = 52 * (0 + 1)}
      (omega arith),
  words_ones-nil (52 - length c),
)
sblock_counts-ones (c ∷ []) r (suc j) a h = absurd (omega arith)
sblock_counts-ones (c ∷ d ∷ cs) r zero (full, a) h = omega (
  arith,
  words_ones-append c (concat (d ∷ cs)) 0,
  ap (λ n. words_ones n (c ++ concat (d ∷ cs))) {x = length c + 0} {y = 52 * (0 + 1)} (omega arith),
  words_ones-zero (concat (d ∷ cs)),
)
sblock_counts-ones (c ∷ d ∷ cs) r (suc j) (full, a) h = omega (
  arith,
  words_ones-append c (concat (d ∷ cs)) (52 * (j + 1)),
  ap (λ n. words_ones n (c ++ concat (d ∷ cs))) {x = length c + 52 * (j + 1)} {y = 52 * (suc j + 1)}
      (omega arith),
  sblock_counts-ones (d ∷ cs) (r + sum (map (count_ones_loop 64) c)) j a (omega arith),
)
