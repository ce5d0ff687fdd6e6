-- ===== src/Structure/LogArray/Fields.antt =====
-- src/structure/logarray.rs: the shifts by which `push` places a value in a word and by which
-- `entry` takes it out again, bit by bit. Bit `q` of a word is counted from the most significant.
use terminus_store.Prelude.{ℕ, ◌+◌, ◌-◌, ◌*◌, ◌/◌, ◌%◌, ◌^◌, ◌≤◌, ◌<◌, ◌≡◌, ap, ◌∙◌, arith}
use terminus_store.Prelude.Bits.{
  bit, bit-shr, bit-shl, bit-shl_lt, bit_of_lt, bit-mod_lt, two_pow_mono, shl-lt,
}

-- `val << (64 - w)` of a value of `w` bits loses nothing.
pub high-lt : (w val : ℕ) → w ≤ 64 → val < 2 ^ w → val * 2 ^ (64 - w) < 2 ^ 64
high-lt w val hw h = rw (sum w hw) at (shl-lt w (64 - w) val h)
  where
    sum : (w : ℕ) → w ≤ 64 → w + (64 - w) ≡ 64
    sum w hw = omega arith

module _ (w val off q : ℕ) (hw : w ≤ 64) (h : val < 2 ^ w) (hq : q < 64) where
  shifted : bit (val * 2 ^ (64 - w) / 2 ^ off) (63 - q) ≡ bit (val * 2 ^ (64 - w)) (63 - q + off)
  shifted = bit-shr off (val * 2 ^ (64 - w)) (63 - q)

  pub placed_before : q < off → bit (val * 2 ^ (64 - w) / 2 ^ off) (63 - q) ≡ 0
  placed_before e =
      shifted
      ∙ bit_of_lt (63 - q + off) _ (
          let m = two_pow_mono 64 (63 - q + off) (omega arith) in omega (arith, high-lt w val hw h))

  pub placed :
      (j : ℕ)
      → q ≡ off + j
      → j < w
      → bit (val * 2 ^ (64 - w) / 2 ^ off) (63 - q) ≡ bit val (w - 1 - j)
  placed j e hj = shifted ∙ ap (bit _) (omega arith) ∙ bit-shl (64 - w) val (w - 1 - j)

  pub placed_after : off + w ≤ q → bit (val * 2 ^ (64 - w) / 2 ^ off) (63 - q) ≡ 0
  placed_after e = shifted ∙ bit-shl_lt (64 - w) val (63 - q + off) (omega arith)

module _ (r val q : ℕ) (hr : r ≤ 64) (hq : q < 64) where
  low_part : bit (val * 2 ^ (64 - r) % 2 ^ 64) (63 - q) ≡ bit (val * 2 ^ (64 - r)) (63 - q)
  low_part = bit-mod_lt 64 (63 - q) _ (omega arith)

  pub carried : q < r → bit (val * 2 ^ (64 - r) % 2 ^ 64) (63 - q) ≡ bit val (r - 1 - q)
  carried e = low_part ∙ ap (bit _) (omega arith) ∙ bit-shl (64 - r) val (r - 1 - q)

  pub carried_after : r ≤ q → bit (val * 2 ^ (64 - r) % 2 ^ 64) (63 - q) ≡ 0
  carried_after e = low_part ∙ bit-shl_lt (64 - r) val (63 - q) (omega arith)
