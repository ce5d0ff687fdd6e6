-- ===== src/Structure/LogArray/Push.antt =====
-- src/structure/logarray.rs: what a `push` does to the bits of the file.
use terminus_store.Prelude.{
  ℕ, ◌+◌, ◌-◌, ◌*◌, ◌/◌, ◌^◌, ◌≤◌, ◌<◌, ◌≡◌, refl, arith, List, [], ◌∷◌, ◌++◌, length, get_or,
  bit_or,
}
use terminus_store.Prelude.Bits.{bit, bit-bit_or, bit_or-lt, bit_zero}
use terminus_store.Structure.Word.Bytes.{word_bytes, AllWords}
use terminus_store.Structure.LogArray.{LogArrayFileBuilder, new}
use native.Mathlib.Nat.{div-le_self}
use terminus_store.Structure.LogArray.Fields.{high-lt, placed, placed_before, placed_after}
use terminus_store.Structure.LogArray.Stream.{stream}

-- The words of the file and the one being filled hold the bits of `vals`, `width` bits for each.
pub record Holds (self : LogArrayFileBuilder) (ws vals : List ℕ) : Type 0 where
  pub written : self.file ≡ word_bytes ws
  pub words : AllWords ws
  pub counted : self.count ≡ length vals
  pub position : 64 * length ws + self.offset ≡ self.width * length vals
  pub room : self.offset < 64
  pub fits : self.current < 2 ^ 64
  pub clear : (q : ℕ) → self.offset ≤ q → q < 64 → bit self.current (63 - q) ≡ 0
  pub stored :
      (i j : ℕ)
      → i < length vals
      → j < self.width
      → stream (ws ++ (self.current ∷ [])) (self.width * i + j)
        ≡ bit (get_or vals i 0) (self.width - 1 - j)

pub new-Holds : (width : ℕ) → Holds (new [] width) [] []
unfolding new word_bytes
new-Holds width = record {
  written = refl;
  words = tt;
  counted = refl;
  position = omega arith;
  room = omega arith;
  fits = omega arith;
  clear = λ q _ _. bit_zero (63 - q);
  stored = λ i j hi _. absurd (omega arith);
}

-- The word being filled, with the bits of `val` at `off`.
abbrev pub filled : ℕ → ℕ → ℕ → ℕ → ℕ
filled current w val off = bit_or current (val * 2 ^ (64 - w) / 2 ^ off)

module _ (current w val off : ℕ) (hw : w ≤ 64) (hv : val < 2 ^ w) (hc : current < 2 ^ 64) where
  pub filled-lt : filled current w val off < 2 ^ 64
  filled-lt =
      bit_or-lt 64 current _ hc
        (omega (arith, high-lt w val hw hv, div-le_self (val * 2 ^ (64 - w)) (2 ^ off)))

  module _ (clear : (q : ℕ) → off ≤ q → q < 64 → bit current (63 - q) ≡ 0) (q : ℕ)
      (hq : q < 64) where
    pub filled-before : q < off → bit (filled current w val off) (63 - q) ≡ bit current (63 - q)
    filled-before e = omega (
      arith,
      bit-bit_or (63 - q) current (val * 2 ^ (64 - w) / 2 ^ off),
      placed_before w val off q hw hv hq e,
    )

    pub filled-at :
        (j : ℕ)
        → q ≡ off + j
        → j < w
        → bit (filled current w val off) (63 - q) ≡ bit val (w - 1 - j)
    filled-at j e hj = omega (
      arith,
      bit-bit_or (63 - q) current (val * 2 ^ (64 - w) / 2 ^ off),
      placed w val off q hw hv hq j e hj,
      clear q (omega arith) hq,
    )

    pub filled-after : off + w ≤ q → bit (filled current w val off) (63 - q) ≡ 0
    filled-after e = omega (
      arith,
      bit-bit_or (63 - q) current (val * 2 ^ (64 - w) / 2 ^ off),
      placed_after w val off q hw hv hq e,
      clear q (omega arith) hq,
    )
