-- ===== src/Structure/BitIndex/Build.antt =====
-- src/structure/bitindex.rs: the counts that `build_bitindex` stores.
use terminus_store.Prelude.{
  ℕ, zero, suc, ◌+◌, ◌-◌, ◌*◌, ◌/◌, ◌^◌, ◌≤◌, ◌<◌, ◌≡◌, refl, ap, ◌∙◌, sym, arith, List, [], ◌∷◌,
  ◌++◌, length, get_or, map, length-append, Bool-cases, ltb, inl, inr,
}
use mathlib.Core.Path.{fun_ext}
use terminus_store.Prelude.Outcome.{ok, ◌>>=◌, >>=-eq-ok, >>=_assoc}
use terminus_store.Structure.Word.{checked_sub}
use terminus_store.Structure.LogArray.{LogArrayFileBuilder, push, push_vec}
use terminus_store.Structure.LogArray.Invariant.{AllFit}
use terminus_store.Structure.LogArray.Stream.{get_or-append_left, get_or-append_right}
use terminus_store.Structure.BitIndex.{count_ones_loop, sum, push_blocks, build_loop}
use terminus_store.Structure.BitIndex.Ones.{words_ones, count_ones-le}

-- What is left of a superblock's count at each block.
unfoldable pub suffix_sums : List ℕ → List ℕ
suffix_sums [] = []
suffix_sums (x ∷ xs) = (x + sum xs) ∷ suffix_sums xs

unfoldable pub block_counts : List (List ℕ) → List ℕ
block_counts [] = []
block_counts (c ∷ cs) = suffix_sums (map (count_ones_loop 64) c) ++ block_counts cs

unfoldable pub sblock_counts : ℕ → List (List ℕ) → List ℕ
sblock_counts r [] = []
sblock_counts r (c ∷ cs) =
    (r + sum (map (count_ones_loop 64) c)) ∷ sblock_counts (r + sum (map (count_ones_loop 64) c)) cs

-- The words of all chunks.
abbrev pub concat : List (List ℕ) → List ℕ
concat [] = []
concat (c ∷ cs) = c ++ concat cs

-- `chunks(SBLOCK_SIZE)` yields chunks of 52 words, the last of 1 to 52.
abbrev pub AllChunks : List (List ℕ) → Type 0
AllChunks [] = Unit {0}
AllChunks (c ∷ []) = (1 ≤ length c) × (length c ≤ 52)
AllChunks (c ∷ d ∷ cs) = (length c ≡ 52) × AllChunks (d ∷ cs)

sub_front : (x y : ℕ) → checked_sub (x + y) x ≡ ok y
sub_front x y = ground arith

push_blocks-push_vec :
    (b : LogArrayFileBuilder) (xs : List ℕ)
    → push_blocks b (sum xs) xs ≡ push_vec b (suffix_sums xs)
unfolding push_blocks push_vec suffix_sums
push_blocks-push_vec b [] = refl
push_blocks-push_vec b (x ∷ xs) =
    ap (λ k. push b (x + sum xs) >>= k)
      (fun_ext λ m. rw (sub_front x (sum xs)) (push_blocks-push_vec m xs))

pub push_vec-append :
    (b : LogArrayFileBuilder) (xs ys : List ℕ)
    → push_vec b (xs ++ ys) ≡ (push_vec b xs >>= λ m. push_vec m ys)
unfolding push_vec
push_vec-append b [] ys = refl
push_vec-append b (x ∷ xs) ys =
    ap (λ k. push b x >>= k) (fun_ext λ m. push_vec-append m xs ys)
    ∙ sym (>>=_assoc (push b x) (λ m. push_vec m xs) (λ m. push_vec m ys))

-- The two files get the two lists of counts.
pub build_loop-push_vec :
    (cs : List (List ℕ)) (r : ℕ) (b s : LogArrayFileBuilder) {b' s' : LogArrayFileBuilder}
    → push_vec b (block_counts cs) ≡ ok b'
    → push_vec s (sblock_counts r cs) ≡ ok s'
    → build_loop cs r b s ≡ ok (b', s')
unfolding build_loop block_counts sblock_counts push_vec
build_loop-push_vec [] r b s hb hs = cc
build_loop-push_vec (c ∷ cs) r b s hb hs =
    let counts : List ℕ = map (count_ones_loop 64) c in
    let (b1, eb, eb') =
      >>=-eq-ok (push_vec b (suffix_sums counts)) (λ m. push_vec m (block_counts cs))
        (sym (push_vec-append b (suffix_sums counts) (block_counts cs)) ∙ hb) in
    let (s1, es, es') =
      >>=-eq-ok (push s (r + sum counts)) (λ m. push_vec m (sblock_counts (r + sum counts) cs))
        hs in
    rw (push_blocks-push_vec b counts, eb, es)
      (build_loop-push_vec cs (r + sum counts) b1 s1 eb' es')

sum-le : (c : List ℕ) → sum (map (count_ones_loop 64) c) ≤ 64 * length c
sum-le [] = omega arith
sum-le (w ∷ c) = omega (arith, count_ones-le 64 w, sum-le c)

AllFit-append : (n : ℕ) (xs ys : List ℕ) → AllFit n xs → AllFit n ys → AllFit n (xs ++ ys)
AllFit-append n [] ys a b = b
AllFit-append n (x ∷ xs) ys (h, a) b = (h, AllFit-append n xs ys a b)

suffix_sums-AllFit :
    (c : List ℕ) → length c ≤ 52 → AllFit 12 (suffix_sums (map (count_ones_loop 64) c))
unfolding suffix_sums
suffix_sums-AllFit [] h = tt
suffix_sums-AllFit (w ∷ c) h =
    (omega (arith, count_ones-le 64 w, sum-le c), suffix_sums-AllFit c (omega arith))

AllChunks-head :
    (c : List ℕ) (cs : List (List ℕ)) → AllChunks (c ∷ cs) → (length c ≤ 52) × AllChunks cs
AllChunks-head c [] (lo, hi) = (hi, tt)
AllChunks-head c (d ∷ cs) (e, a) = (omega arith, a)

pub block_counts-AllFit : (cs : List (List ℕ)) → AllChunks cs → AllFit 12 (block_counts cs)
unfolding block_counts
block_counts-AllFit [] a = tt
block_counts-AllFit (c ∷ cs) a =
    let (h, a') = AllChunks-head c cs a in
    AllFit-append 12 _ _ (suffix_sums-AllFit c h) (block_counts-AllFit cs a')

pub sblock_counts-AllFit :
    (cs : List (List ℕ)) (r : ℕ)
    → r + 64 * length (concat cs) < 2 ^ 64
    → AllFit 64 (sblock_counts r cs)
unfolding sblock_counts
sblock_counts-AllFit [] r h = tt
sblock_counts-AllFit (c ∷ cs) r h = (
  omega (arith, sum-le c, length-append c (concat cs)),
  sblock_counts-AllFit cs _ (omega (arith, sum-le c, length-append c (concat cs))),
)

length-suffix_sums : (c : List ℕ) → length (suffix_sums (map (count_ones_loop 64) c)) ≡ length c
unfolding suffix_sums
length-suffix_sums [] = refl
length-suffix_sums (w ∷ c) = ap suc (length-suffix_sums c)

pub length-block_counts : (cs : List (List ℕ)) → length (block_counts cs) ≡ length (concat cs)
unfolding block_counts
length-block_counts [] = refl
length-block_counts (c ∷ cs) = omega (
  arith,
  length-append (suffix_sums (map (count_ones_loop 64) c)) (block_counts cs),
  length-append c (concat cs),
  length-suffix_sums c,
  length-block_counts cs,
)

-- One chunk: what is left at block `k`, and the blocks before it.
suffix_sums-get_or :
    (c rest : List ℕ) (k : ℕ)
    → k < length c
    → words_ones k (c ++ rest) + get_or (suffix_sums (map (count_ones_loop 64) c)) k 0
      ≡ sum (map (count_ones_loop 64) c)
unfolding words_ones suffix_sums
suffix_sums-get_or [] rest k h = absurd (omega arith)
suffix_sums-get_or (w ∷ c) rest zero h = omega arith
suffix_sums-get_or (w ∷ c) rest (suc k) h = omega (arith, suffix_sums-get_or c rest k (omega arith))

pub words_ones-append :
    (c rest : List ℕ) (i : ℕ)
    → words_ones (length c + i) (c ++ rest) ≡ sum (map (count_ones_loop 64) c) + words_ones i rest
unfolding words_ones
words_ones-append [] rest i =
    omega (arith, ap (λ t. words_ones t rest) {x = 0 + i} {y = i} (omega arith))
words_ones-append (w ∷ c) rest i =
    ap (λ t. words_ones t (w ∷ (c ++ rest))) {x = suc (length c) + i} {y = suc (length c + i)}
      (omega arith)
    ∙ omega (arith, words_ones-append c rest i)

AllChunks-full :
    (c : List ℕ) (cs : List (List ℕ)) → AllChunks (c ∷ cs) → 0 < length (concat cs) → length c ≡ 52
AllChunks-full c [] a h = absurd (omega arith)
AllChunks-full c (d ∷ cs) (e, a) h = e

-- The difference of the two counts is the number of ones in the blocks before.
pub counts_lem :
    (cs : List (List ℕ)) (r k : ℕ)
    → AllChunks cs
    → k < length (concat cs)
    → get_or (sblock_counts r cs) (k / 52) 0
      ≡ r + words_ones k (concat cs) + get_or (block_counts cs) k 0
unfolding sblock_counts block_counts
counts_lem [] r k a h = absurd (omega arith)
counts_lem (c ∷ cs) r k a h = elim (Bool-cases (ltb k (length c))) [
  | inl here ↦
      let e : k < length c = ground arith in
      let zeroth : k / 52 ≡ 0 = omega (arith, AllChunks-head c cs a) in
      let first =
        (get_or-append_left (suffix_sums counts) (block_counts cs) k
          (omega (arith, length-suffix_sums c))) in
      omega (
        arith,
        ap (λ i. get_or ((r + sum counts) ∷ sblock_counts (r + sum counts) cs) i 0) zeroth,
        first,
        suffix_sums-get_or c (concat cs) k e,
      )
  | inr further ↦
      let lo : length c ≤ k = ground arith in
      let full : length c ≡ 52 =
        AllChunks-full c cs a (omega (arith, h, length-append c (concat cs))) in
      let next : k / 52 ≡ suc ((k - 52) / 52) = omega arith in
      omega (
        arith,
        ap (λ i. get_or ((r + sum counts) ∷ sblock_counts (r + sum counts) cs) i 0) next,
        get_or-append_right (suffix_sums counts) (block_counts cs) k (k - 52)
            (omega (arith, length-suffix_sums c)),
        words_ones-append c (concat cs) (k - 52),
        ap (λ t. words_ones t (c ++ concat cs)) {x = length c + (k - 52)} {y = k} (omega arith),
        counts_lem cs (r + sum counts) (k - 52) (AllChunks-head c cs a).1
            (omega (arith, h, length-append c (concat cs))),
      )
]
  where
    counts : List ℕ
    counts = map (count_ones_loop 64) c

-- The superblocks: one for each 52 blocks, and one for what is left.
pub length-sblock_counts :
    (cs : List (List ℕ)) (r : ℕ)
    → AllChunks cs
    → length (sblock_counts r cs) ≡ (length (concat cs) + 51) / 52
unfolding sblock_counts
length-sblock_counts [] r a = omega arith
length-sblock_counts (c ∷ []) r (lo, hi) = omega (arith, length-append c [])
length-sblock_counts (c ∷ d ∷ cs) r (e, a) = omega (
  arith,
  length-append c (concat (d ∷ cs)),
  length-sblock_counts (d ∷ cs) (r + sum (map (count_ones_loop 64) c)) a,
)
