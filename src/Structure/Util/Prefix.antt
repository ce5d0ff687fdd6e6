-- ===== src/Structure/Util/Prefix.antt =====
-- src/structure/util.rs: `find_common_prefix` returns the length of the longest common prefix.
use terminus_store.Prelude.{
  ℕ, suc, ◌+◌, ◌≤◌, ◌≡◌, ◌≢◌, ◌⊎◌, inl, inr, refl, arith, Bool-cases, ◌==◌, List, [], ◌∷◌, length,
  take, get_or,
}
use mathlib.Core.Path.{ap₂}
use terminus_store.Structure.Util.{common_loop, find_common_prefix}

-- `n` bytes agree, and the next ones differ or one of the buffers ends.
abbrev pub IsCommonPrefix : List ℕ → List ℕ → ℕ → Type 0
IsCommonPrefix b1 b2 n =
    (n ≤ length b1)
    × (n ≤ length b2)
    × (take n b1 ≡ take n b2)
    × ((n ≡ length b1) ⊎ ((n ≡ length b2) ⊎ (get_or b1 n 0 ≢ get_or b2 n 0)))

common_loop-IsCommonPrefix :
    (b1 b2 : List ℕ) (common : ℕ)
    → (n : ℕ) × (common_loop b1 b2 common ≡ common + n) × IsCommonPrefix b1 b2 n
unfolding common_loop
common_loop-IsCommonPrefix [] b2 common =
    (0, omega arith, (omega arith, omega arith, refl, inl refl))
common_loop-IsCommonPrefix (x ∷ b1) [] common =
    (0, omega arith, (omega arith, omega arith, refl, inr (inl refl)))
common_loop-IsCommonPrefix (x ∷ b1) (y ∷ b2) common = elim (Bool-cases (x == y)) [
  | inl same ↦
      let (n, e, (h1, h2, agree, stop)) = common_loop-IsCommonPrefix b1 b2 (common + 1) in
      let xy : x ≡ y = ground arith in
      (
        suc n,
        ground (arith, e),
        (
          omega arith,
          omega arith,
          ap₂ (λ u us. u ∷ us) xy agree,
          elim stop [
            | inl a ↦ inl (omega arith)
            | inr (inl b) ↦ inr (inl (omega arith))
            | inr (inr c) ↦ inr (inr c)
          ],
        ),
      )
  | inr differ ↦ (0, ground arith, (omega arith, omega arith, refl, inr (inr (λ e. ground arith))))
]

-- For any two buffers, that many bytes of both agree, and behind them one of the buffers ends or the
-- bytes differ.
pub find_common_prefix-IsCommonPrefix :
    (b1 b2 : List ℕ) → IsCommonPrefix b1 b2 (find_common_prefix b1 b2)
unfolding find_common_prefix
find_common_prefix-IsCommonPrefix b1 b2 =
    let (n, e, found) = common_loop-IsCommonPrefix b1 b2 0 in
    let e' : common_loop b1 b2 0 ≡ n = omega (arith, e) in rw e' found
