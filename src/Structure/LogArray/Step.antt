-- ===== src/Structure/LogArray/Step.antt =====
-- src/structure/logarray.rs: `push` on each branch, and the invariant after it.
use terminus_store.Prelude.{
  ℕ, ◌+◌, ◌-◌, ◌*◌, ◌%◌, ◌^◌, ◌≤◌, ◌<◌, ◌≡◌, refl, ap, ◌∙◌, sym, arith, List, [], ◌∷◌, ◌++◌, length,
  Bool-cases, ltb, inl, inr,
}
use terminus_store.Prelude.Bits.{bit, two_pow_mono}
use terminus_store.Prelude.Outcome.{ok, err, invalid_data}
use terminus_store.Structure.Word.{to_be_bytes}
use terminus_store.Structure.Word.Bytes.{bit_length-le_iff}
use terminus_store.Structure.LogArray.{LogArrayFileBuilder, push}
use terminus_store.Structure.LogArray.Fields.{high-lt, carried}
use terminus_store.Structure.LogArray.Stream.{
  stream, stream-append_left, stream-append_right, stream-head, stream-tail,
}
use terminus_store.Structure.LogArray.Push.{filled, filled-before, filled-at}
use native.Mathlib.Nat.{mod-eq_of_lt}

-- What the next word starts with.
abbrev pub next : ℕ → ℕ → ℕ
next val r = val * 2 ^ (64 - r) % 2 ^ 64

next-zero : (val r : ℕ) → r ≡ 0 → next val r ≡ 0
next-zero val r e = rw e (omega arith)

module _ (self : LogArrayFileBuilder) (val : ℕ) (hw : self.width ≤ 64) where
  -- A value that does not fit the width is an error.
  pub push_wide : val < 2 ^ 64 → 2 ^ self.width ≤ val → push self val ≡ err invalid_data
  unfolding push
  push_wide hv h = ground (arith, bit_length-le_iff 64 val self.width hv)

  module _ (pos : 1 ≤ self.width) (h : val < 2 ^ self.width) (hc : self.count + 1 < 2 ^ 32)
      (ho : self.offset < 64) where
    word-lt : val < 2 ^ 64
    word-lt = omega (arith, two_pow_mono self.width 64 hw)

    pub push_within :
        self.offset + self.width < 64
        → push self val
          ≡ ok (record self {
            current = filled self.current self.width val self.offset;
            offset = self.offset + self.width;
            count = self.count + 1;
          })
    unfolding push
    push_within e = ground (
      arith,
      bit_length-le_iff 64 val self.width word-lt,
      mod-eq_of_lt (high-lt self.width val hw h),
    )

    pub push_across :
        64 ≤ self.offset + self.width
        → push self val
          ≡ ok (record self {
            file = self.file ++ to_be_bytes 8 (filled self.current self.width val self.offset);
            current = next val (self.offset + self.width - 64);
            offset = self.offset + self.width - 64;
            count = self.count + 1;
          })
    unfolding push
    push_across e = ground (
      arith,
      bit_length-le_iff 64 val self.width word-lt,
      mod-eq_of_lt (high-lt self.width val hw h),
      next-zero val (self.offset + self.width - 64),
    )

-- The bits of the words and of the word being filled, before and after.
module _ (ws : List ℕ) (c w val off : ℕ) (hw : w ≤ 64) (pos : 1 ≤ w) (h : val < 2 ^ w)
    (hc : c < 2 ^ 64) (ho : off < 64)
    (clear : (q : ℕ) → off ≤ q → q < 64 → bit c (63 - q) ≡ 0) where
  abbrev pub full : ℕ
  full = filled c w val off

  pub full-head :
      (rest : List ℕ) (p : ℕ)
      → p < 64 * length ws + off
      → stream (ws ++ (full ∷ rest)) p ≡ stream (ws ++ (c ∷ [])) p
  full-head rest p hp = elim (Bool-cases (ltb p (64 * length ws))) [
    | inl inside ↦
        stream-append_left ws (full ∷ rest) p (ground arith)
        ∙ sym (stream-append_left ws (c ∷ []) p (ground arith))
    | inr last ↦
        (let q = p - 64 * length ws in
          let e : p ≡ 64 * length ws + q = ground arith in
          let hq : q < 64 = omega arith in
          stream-append_right ws (full ∷ rest) p q e
          ∙ stream-head full rest q hq
          ∙ filled-before c w val off hw h hc clear q hq (omega arith)
          ∙ sym (stream-append_right ws (c ∷ []) p q e ∙ stream-head c [] q hq))
  ]

  pub full-new :
      (rest : List ℕ) (j : ℕ)
      → off + j < 64
      → j < w
      → stream (ws ++ (full ∷ rest)) (64 * length ws + off + j) ≡ bit val (w - 1 - j)
  full-new rest j hq hj =
      stream-append_right ws (full ∷ rest) (64 * length ws + off + j) (off + j) (omega arith)
      ∙ stream-head full rest (off + j) hq
      ∙ filled-at c w val off hw h hc clear (off + j) hq j refl hj

  pub full-carried :
      (j : ℕ)
      → 64 ≤ off + j
      → j < w
      → stream (ws ++ (full ∷ next val (off + w - 64) ∷ [])) (64 * length ws + off + j)
        ≡ bit val (w - 1 - j)
  full-carried j hq hj =
      let q = off + j - 64 in
      let r = off + w - 64 in
      stream-append_right ws (full ∷ next val r ∷ []) (64 * length ws + off + j) (q + 64)
        (omega arith)
      ∙ stream-tail full (next val r ∷ []) q
      ∙ stream-head (next val r) [] q (omega arith)
      ∙ carried r val q (omega arith) (omega arith) (omega arith)
      ∙ ap (bit val) (omega arith)
