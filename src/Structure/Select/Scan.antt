-- ===== src/Structure/Select/Scan.antt =====
-- src/structure/bitindex.rs: the loop of a select over the bits of one word.
use terminus_store.Prelude.{
  ℕ, zero, suc, ◌+◌, ◌-◌, ◌*◌, ◌%◌, ◌^◌, ◌≤◌, ◌<◌, ◌≡◌, inl, inr, refl, ap, ◌∙◌, sym, arith,
  bit_and, Bool, true, false, not, Bool-cases, ◌==◌, if◌then◌else◌, Option, none, some,
}
use terminus_store.Prelude.Bits.{
  bit, bit_and_two_pow, bit-mod_lt, bit-shl, half-two_pow-suc, bit-le-one,
}
use terminus_store.Prelude.Outcome.{ok}
use terminus_store.Structure.Select.{scan_loop}

-- Whether bit `q` of a word, from the most significant one on, is the wanted one.
abbrev pub hit : Bool → ℕ → ℕ → ℕ
hit wanted w q = if wanted then bit w (63 - q) else 1 - bit w (63 - q)

-- The wanted bits among the first `n`.
unfoldable pub hits : Bool → ℕ → ℕ → ℕ
hits wanted w zero = 0
hits wanted w (suc n) = hits wanted w n + hit wanted w n

abbrev shifted : ℕ → ℕ → ℕ
shifted w i = w * 2 ^ i % 2 ^ 64

shifted-next : (w i : ℕ) → shifted w i * 2 % 2 ^ 64 ≡ shifted w (suc i)
shifted-next w i =
    let e : w * 2 ^ suc i ≡ w * 2 ^ i * 2 =
      ap (λ (t : ℕ). w * t) (half-two_pow-suc i) ∙ omega arith in
    let f : w * 2 ^ i % 2 ^ 64 * 2 % 2 ^ 64 ≡ w * 2 ^ i * 2 % 2 ^ 64 = omega arith in
    f ∙ ap (λ t. t % 2 ^ 64) (sym e)

top_bit : (w i : ℕ) → i < 64 → bit_and (shifted w i) 0x8000_0000_0000_0000 ≡ bit w (63 - i) * 2 ^ 63
top_bit w i h =
    bit_and_two_pow 63 (shifted w i)
    ∙ ap (λ (t : ℕ). t * 2 ^ 63)
        (bit-mod_lt 64 63 (w * 2 ^ i) (omega arith)
          ∙ ap (bit (w * 2 ^ i)) {x = 63} {y = 63 - i + i} (omega arith)
          ∙ bit-shl i w (63 - i))

abbrev test : Bool → ℕ → ℕ → Bool
test wanted w i =
    let set = not (bit_and (shifted w i) 0x8000_0000_0000_0000 == 0) in
    if wanted then set else not set

test-hit : (wanted : Bool) (w i : ℕ) → i < 64 → test wanted w i ≡ (hit wanted w i == 1)
test-hit true w i h = elim (Bool-cases (bit w (63 - i) == 0)) [
  | inl clear ↦
      ground (
        arith,
        top_bit w i h,
        ap (λ (t : ℕ). t * 2 ^ 63) {x = bit w (63 - i)} {y = 0} (ground arith),
      )
  | inr not_clear ↦ ground (
    arith,
    top_bit w i h,
    bit-le-one w (63 - i),
    ap (λ (t : ℕ). t * 2 ^ 63) {x = bit w (63 - i)} {y = 1} (ground (arith, bit-le-one w (63 - i))),
  )
]
test-hit false w i h = elim (Bool-cases (bit w (63 - i) == 0)) [
  | inl clear ↦
      ground (
        arith,
        top_bit w i h,
        ap (λ (t : ℕ). t * 2 ^ 63) {x = bit w (63 - i)} {y = 0} (ground arith),
      )
  | inr not_clear ↦ ground (
    arith,
    top_bit w i h,
    bit-le-one w (63 - i),
    ap (λ (t : ℕ). t * 2 ^ 63) {x = bit w (63 - i)} {y = 1} (ground (arith, bit-le-one w (63 - i))),
  )
]

hit-le : (wanted : Bool) (w i : ℕ) → hit wanted w i ≤ 1
hit-le true w i = bit-le-one w (63 - i)
hit-le false w i = omega arith

module _ (wanted : Bool) (block w : ℕ) where
  scan_loop-miss :
      (fuel i t : ℕ)
      → test wanted w i ≡ false
      → scan_loop wanted block (suc fuel) i (shifted w i) t
        ≡ scan_loop wanted block fuel (i + 1) (shifted w (suc i)) t
  unfolding scan_loop
  scan_loop-miss fuel i t e = rw (scan_loop, e, shifted-next w i)

  scan_loop-hit :
      (fuel i t : ℕ)
      → test wanted w i ≡ true
      → 1 < t
      → scan_loop wanted block (suc fuel) i (shifted w i) t
        ≡ scan_loop wanted block fuel (i + 1) (shifted w (suc i)) (t - 1)
  unfolding scan_loop
  scan_loop-hit fuel i t e h = rw (scan_loop, e, ← shifted-next w i) (ground arith)

  scan_loop-last :
      (fuel i : ℕ)
      → test wanted w i ≡ true
      → scan_loop wanted block (suc fuel) i (shifted w i) 1 ≡ ok (some (block * 64 + i))
  unfolding scan_loop
  scan_loop-last fuel i e = rw (scan_loop, e) (ground arith)

  -- The wanted bit whose count is the tally, or none where the word has fewer.
  abbrev pub IsHit : ℕ → Option ℕ → Type 0
  IsHit target none = hits wanted w 64 < target
  IsHit target (some p) =
      (q : ℕ) × (q < 64)
      × (p ≡ block * 64 + q)
      × (hits wanted w q + 1 ≡ target)
      × (hit wanted w q ≡ 1)

  scan_loop-IsHit :
      (fuel i t : ℕ)
      → i + fuel ≡ 64
      → 0 < t
      → (r : Option ℕ) × (scan_loop wanted block fuel i (shifted w i) t ≡ ok r)
        × IsHit (hits wanted w i + t) r
  unfolding hits
  scan_loop-IsHit zero i t hi ht = (
    none,
    (unfold scan_loop in refl),
    omega (arith, ap (hits wanted w) {x = i} {y = 64} (omega arith)),
  )
  scan_loop-IsHit (suc fuel) i t hi ht =
      let inside : i < 64 = omega arith in
      let seen : hits wanted w (i + 1) ≡ hits wanted w i + hit wanted w i =
        ap (hits wanted w) {x = i + 1} {y = suc i} (omega arith) in
      let next : shifted w (suc i) ≡ shifted w (i + 1) =
        ap (shifted w) {x = suc i} {y = i + 1} (omega arith) in
      elim (Bool-cases (test wanted w i)) [
        | inr miss ↦
            let zeroth : hit wanted w i ≡ 0 =
              ground (arith, test-hit wanted w i inside, hit-le wanted w i) in
            let (r, e, found) = scan_loop-IsHit fuel (i + 1) t (omega arith) ht in
            let same : hits wanted w (i + 1) + t ≡ hits wanted w i + t = omega arith in
            (
              r,
              scan_loop-miss fuel i t miss
                  ∙ ap (λ x. scan_loop wanted block fuel (i + 1) x t) next
                  ∙ e,
              rw same at found,
            )
        | inl there ↦
            let one : hit wanted w i ≡ 1 = ground (arith, test-hit wanted w i inside) in
            elim (Bool-cases (t == 1)) [
              | inl last ↦
                  let e : t ≡ 1 = ground arith in
                  (
                    some (block * 64 + i),
                    ap (scan_loop wanted block (suc fuel) i (shifted w i)) e
                        ∙ scan_loop-last fuel i there,
                    (i, inside, refl, omega arith, one),
                  )
              | inr more ↦
                  let big : 1 < t = ground arith in
                  let (r, e, found) =
                    scan_loop-IsHit fuel (i + 1) (t - 1) (omega arith) (omega arith) in
                  let same : hits wanted w (i + 1) + (t - 1) ≡ hits wanted w i + t = omega arith in
                  (
                    r,
                    scan_loop-hit fuel i t there big
                        ∙ ap (λ x. scan_loop wanted block fuel (i + 1) x (t - 1)) next
                        ∙ e,
                    rw same at found,
                  )
            ]
      ]

  -- The whole word.
  pub scan-word :
      (t : ℕ)
      → w < 2 ^ 64
      → 0 < t
      → (r : Option ℕ) × (scan_loop wanted block 64 0 w t ≡ ok r) × IsHit t r
  unfolding hits
  scan-word t hw ht =
      let (r, e, found) = scan_loop-IsHit 64 0 t (omega arith) ht in
      let start : shifted w 0 ≡ w = omega arith in
      let none_yet : hits wanted w 0 + t ≡ t = omega arith in
      (r, ap (λ x. scan_loop wanted block 64 0 x t) (sym start) ∙ e, rw none_yet at found)
