-- ===== src/Prelude/Bits.antt =====
-- Bits of a number, its `|`, `&` and shifts, for words of any width.
use Prim.Native.Nat.{
  ℕ, zero, suc, ◌+◌, ◌-◌, ◌*◌, ◌/◌, ◌%◌, ◌^◌, ◌≤◌, ◌<◌, min, max, bit_and, bit_or, digits, bitwise,
  bit_and-bitwise, bit_or-bitwise,
}
use mathlib.Core.Path.{◌≡◌, refl, sym, ap, ap₂, ◌∙◌}
use native.Mathlib.Nat.{
  add-zero, add-suc, le_refl, pow-suc, one-le-pow, pow-le-pow_right, div-div-eq-div-mul,
}
use native.Mathlib.Omega.{arith}

-- The native operations stand for a recursion on binary digits whose fuel does not matter.
module _ (z : ℕ → ℕ) (f : ℕ → ℕ → ℕ) where
  digits-fuel : (a b m n : ℕ) → a ≤ m → a ≤ n → digits z f m a b ≡ digits z f n a b
  digits-fuel zero b zero zero hm hn = refl
  digits-fuel zero b zero (suc n) hm hn = refl
  digits-fuel zero b (suc m) zero hm hn = refl
  digits-fuel zero b (suc m) (suc n) hm hn = refl
  digits-fuel (suc a) b zero n hm hn = absurd (omega arith)
  digits-fuel (suc a) b (suc m) zero hm hn = absurd (omega arith)
  digits-fuel (suc a) b (suc m) (suc n) hm hn =
      rw (digits-fuel (suc a / 2) (b / 2) m n (omega arith) (omega arith))

  bitwise_low :
      (a b : ℕ)
      → bitwise z f (suc a) b ≡ bitwise z f (suc a / 2) (b / 2) * 2 + f (suc a % 2) (b % 2)
  bitwise_low a b =
      omega (arith, digits-fuel (suc a / 2) (b / 2) a (suc a / 2) (omega arith) (le_refl _))

pub bit_or_low : (a b : ℕ) → bit_or a b ≡ bit_or (a / 2) (b / 2) * 2 + max (a % 2) (b % 2)
bit_or_low zero b = simp bit_or-bitwise (omega arith)
bit_or_low (suc a) b = simp bit_or-bitwise (bitwise_low (λ y. y) max a b)

pub bit_and_low : (a b : ℕ) → bit_and a b ≡ bit_and (a / 2) (b / 2) * 2 + min (a % 2) (b % 2)
bit_and_low zero b = simp bit_and-bitwise (omega arith)
bit_and_low (suc a) b = simp bit_and-bitwise (bitwise_low (λ y. 0) min a b)

-- The bit of weight `2 ^ k`.
unfoldable pub bit : ℕ → ℕ → ℕ
bit a k = a / 2 ^ k % 2

pub half-two_pow-suc : (k : ℕ) → 2 ^ suc k ≡ 2 * 2 ^ k
half-two_pow-suc k = omega (arith, pow-suc 2 k)

pub bit-zero : (a : ℕ) → bit a 0 ≡ a % 2
unfolding bit
bit-zero a = omega arith

pub bit-suc : (a k : ℕ) → bit a (suc k) ≡ bit (a / 2) k
unfolding bit
bit-suc a k = ap (λ t. t % 2) (rw half-two_pow-suc (sym (div-div-eq-div-mul a 2 (2 ^ k))))

pub bit-le-one : (a k : ℕ) → bit a k ≤ 1
unfolding bit
bit-le-one a k = omega arith

ruleset steps = (arith, bit-zero, bit-suc, bit-le-one, half-two_pow-suc)

pub bit-bit_or : (k a b : ℕ) → bit (bit_or a b) k ≡ max (bit a k) (bit b k)
bit-bit_or zero a b = omega (steps, bit_or_low a b)
bit-bit_or (suc k) a b = omega (steps, bit-bit_or k (a / 2) (b / 2), ap (λ t. bit t k) (halve a b))
  where
    halve : (a b : ℕ) → bit_or a b / 2 ≡ bit_or (a / 2) (b / 2)
    halve a b = omega (arith, bit_or_low a b)

pub bit-bit_and : (k a b : ℕ) → bit (bit_and a b) k ≡ min (bit a k) (bit b k)
bit-bit_and zero a b = omega (steps, bit_and_low a b)
bit-bit_and (suc k) a b =
    omega (steps, bit-bit_and k (a / 2) (b / 2), ap (λ t. bit t k) (halve a b))
  where
    halve : (a b : ℕ) → bit_and a b / 2 ≡ bit_and (a / 2) (b / 2)
    halve a b = omega (arith, bit_and_low a b)

pub bit_zero : (k : ℕ) → bit 0 k ≡ 0
bit_zero zero = omega steps
bit_zero (suc k) = omega (steps, bit_zero k)

-- A number below `2 ^ n` is known by its lowest `n` bits.
pub bit_ext : (n a b : ℕ) → a < 2 ^ n → b < 2 ^ n → ((k : ℕ) → k < n → bit a k ≡ bit b k) → a ≡ b
bit_ext zero a b ha hb h = omega arith
bit_ext (suc n) a b ha hb h = omega (
  steps,
  h 0 (omega arith),
  bit_ext n (a / 2) (b / 2) (omega (arith, half-two_pow-suc n)) (omega (arith, half-two_pow-suc n))
      (λ k hk. sym (bit-suc a k) ∙ h (suc k) (omega arith) ∙ bit-suc b k),
)

pub bit-shr : (j a k : ℕ) → bit (a / 2 ^ j) k ≡ bit a (k + j)
bit-shr zero a k = ap₂ bit (omega arith) (omega arith)
bit-shr (suc j) a k =
    ap (λ t. bit t k) (rw half-two_pow-suc (sym (div-div-eq-div-mul a 2 (2 ^ j))))
    ∙ bit-shr j (a / 2) k
    ∙ sym (bit-suc a (k + j))
    ∙ ap (bit a) (omega arith)

mod_double : (m a : ℕ) → 0 < m → (a % (2 * m) / 2 ≡ a / 2 % m) × (a % (2 * m) % 2 ≡ a % 2)
mod_double m a h = (grind arith, grind arith)

mod_two_pow-suc : (n a : ℕ) → (a % 2 ^ suc n / 2 ≡ a / 2 % 2 ^ n) × (a % 2 ^ suc n % 2 ≡ a % 2)
mod_two_pow-suc n a = rw half-two_pow-suc (mod_double (2 ^ n) a (one-le-pow n 2 (omega arith)))

pub bit-mod_lt : (n k a : ℕ) → k < n → bit (a % 2 ^ n) k ≡ bit a k
bit-mod_lt zero k a h = absurd (omega arith)
bit-mod_lt (suc n) zero a h = omega (steps, mod_two_pow-suc n a)
bit-mod_lt (suc n) (suc k) a h =
    bit-suc _ k
    ∙ ap (λ t. bit t k) (mod_two_pow-suc n a).0
    ∙ bit-mod_lt n k (a / 2) (omega arith)
    ∙ sym (bit-suc a k)

pub bit_of_lt : (k a : ℕ) → a < 2 ^ k → bit a k ≡ 0
bit_of_lt zero a h = omega (steps)
bit_of_lt (suc k) a h = omega (steps, bit_of_lt k (a / 2) (omega (arith, half-two_pow-suc k)))

shl_half : (j a : ℕ) → (a * 2 ^ suc j / 2 ≡ a * 2 ^ j) × (a * 2 ^ suc j % 2 ≡ 0)
shl_half j a =
    let e = ap (λ (t : ℕ). a * t) (half-two_pow-suc j) in (omega (arith, e), omega (arith, e))

pub bit-shl_lt : (j a k : ℕ) → k < j → bit (a * 2 ^ j) k ≡ 0
bit-shl_lt zero a k h = absurd (omega arith)
bit-shl_lt (suc j) a zero h = omega (steps, shl_half j a)
bit-shl_lt (suc j) a (suc k) h =
    bit-suc _ k ∙ ap (λ t. bit t k) (shl_half j a).0 ∙ bit-shl_lt j a k (omega arith)

pub bit-shl : (j a k : ℕ) → bit (a * 2 ^ j) (k + j) ≡ bit a k
bit-shl zero a k = ap₂ bit (omega arith) (omega arith)
bit-shl (suc j) a k =
    ap (bit _) (omega arith)
    ∙ bit-suc _ (k + j)
    ∙ ap (λ t. bit t (k + j)) (shl_half j a).0
    ∙ bit-shl j a k

pub two_pow_mono : (m n : ℕ) → m ≤ n → 2 ^ m ≤ 2 ^ n
two_pow_mono m n h = pow-le-pow_right {n = 2} (omega arith) h

bit_or-zero_below : (n a : ℕ) → a ≤ n → bit_or a 0 ≡ a
bit_or-zero_below n zero h = refl
bit_or-zero_below zero (suc a) h = absurd (omega arith)
bit_or-zero_below (suc n) (suc a) h =
    omega (arith, bit_or_low (suc a) 0, bit_or-zero_below n (suc a / 2) (omega arith))

pub bit_or-zero_right : (a : ℕ) → bit_or a 0 ≡ a
bit_or-zero_right a = bit_or-zero_below a a (le_refl a)

-- `|` of numbers with no common bit, the one over the other, is their sum.
pub bit_or_add : (k q r : ℕ) → r < 2 ^ k → bit_or (q * 2 ^ k) r ≡ q * 2 ^ k + r
bit_or_add zero q r h =
    let e : r ≡ 0 = omega arith in rw e (bit_or-zero_right (q * 2 ^ 0) ∙ omega arith)
bit_or_add (suc k) q r h = omega (
  arith,
  bit_or_low (q * 2 ^ suc k) r,
  shl_half k q,
  bit_or_add k q (r / 2) (omega (arith, half-two_pow-suc k)),
  ap (λ t. bit_or t (r / 2)) (shl_half k q).0,
)

pub bit_or-lt : (n a b : ℕ) → a < 2 ^ n → b < 2 ^ n → bit_or a b < 2 ^ n
bit_or-lt zero a b ha hb = let e : b ≡ 0 = omega arith in rw e (omega (arith, bit_or-zero_right a))
bit_or-lt (suc n) a b ha hb = omega (
  arith,
  bit_or_low a b,
  half-two_pow-suc n,
  bit_or-lt n (a / 2) (b / 2) (omega (arith, half-two_pow-suc n))
      (omega (arith, half-two_pow-suc n)),
)

bit_or_comm_below : (n a b : ℕ) → a ≤ n → bit_or a b ≡ bit_or b a
bit_or_comm_below n zero b h = omega (arith, bit_or-zero_right b, bit_or-bitwise 0 b)
bit_or_comm_below zero (suc a) b h = absurd (omega arith)
bit_or_comm_below (suc n) (suc a) b h = omega (
  arith,
  bit_or_low (suc a) b,
  bit_or_low b (suc a),
  bit_or_comm_below n (suc a / 2) (b / 2) (omega arith),
)

pub bit_or_comm : (a b : ℕ) → bit_or a b ≡ bit_or b a
bit_or_comm a b = bit_or_comm_below a a b (le_refl a)

bit_and-zero_below : (n a : ℕ) → a ≤ n → bit_and a 0 ≡ 0
bit_and-zero_below n zero h = refl
bit_and-zero_below zero (suc a) h = absurd (omega arith)
bit_and-zero_below (suc n) (suc a) h =
    omega (arith, bit_and_low (suc a) 0, bit_and-zero_below n (suc a / 2) (omega arith))

bit_and-zero_right : (a : ℕ) → bit_and a 0 ≡ 0
bit_and-zero_right a = bit_and-zero_below a a (le_refl a)

pub bit_and_mask : (k a : ℕ) → bit_and a (2 ^ k - 1) ≡ a % 2 ^ k
bit_and_mask zero a = omega (arith, bit_and-zero_right a)
bit_and_mask (suc k) a = omega (
  arith,
  bit_and_low a (2 ^ suc k - 1),
  half-two_pow-suc k,
  one-le-pow k 2 (omega arith),
  mod_two_pow-suc k a,
  ap (bit_and (a / 2)) (halve k),
  bit_and_mask k (a / 2),
)
  where
    halve : (k : ℕ) → (2 ^ suc k - 1) / 2 ≡ 2 ^ k - 1
    halve k = omega (arith, half-two_pow-suc k, one-le-pow k 2 (omega arith))

pub two_pow-add : (m n : ℕ) → 2 ^ (m + n) ≡ 2 ^ m * 2 ^ n
two_pow-add m zero = rw add-zero (omega arith)
two_pow-add m (suc n) =
    ap (λ t. 2 ^ t) (add-suc m n)
    ∙ omega (
      arith,
      half-two_pow-suc (m + n),
      two_pow-add m n,
      ap (λ (t : ℕ). 2 ^ m * t) (half-two_pow-suc n),
    )

-- `x << s` keeps within `n` bits a number of `n - s` bits.
pub shl-lt : (m s x : ℕ) → x < 2 ^ m → x * 2 ^ s < 2 ^ (m + s)
shl-lt m s x h = rw two_pow-add (let p = one-le-pow s 2 (omega arith) in grind arith)

-- A mask of one bit selects that bit.
pub bit_and_two_pow : (m a : ℕ) → bit_and a (2 ^ m) ≡ bit a m * 2 ^ m
bit_and_two_pow zero a = omega (arith, bit_and_mask 1 a, bit-zero a)
bit_and_two_pow (suc m) a = omega (
  arith,
  bit_and_low a (2 ^ suc m),
  half-two_pow-suc m,
  ap (bit_and (a / 2)) (halve m),
  bit_and_two_pow m (a / 2),
  ap (λ (t : ℕ). t * 2 ^ suc m) (bit-suc a m),
  ap (λ (t : ℕ). bit (a / 2) m * t) (half-two_pow-suc m),
)
  where
    halve : (m : ℕ) → 2 ^ suc m / 2 ≡ 2 ^ m
    halve m = omega (arith, half-two_pow-suc m)
