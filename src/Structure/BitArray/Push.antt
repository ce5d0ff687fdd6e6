-- ===== src/Structure/BitArray/Push.antt =====
-- src/structure/bitarray.rs: the bits of the file after each `push`.
use terminus_store.Prelude.{
  ℕ, zero, suc, ◌+◌, ◌-◌, ◌/◌, ◌%◌, ◌^◌, ◌≤◌, ◌<◌, ◌≡◌, ◌≢◌, refl, ap, ◌∙◌, sym, arith, Bool, true,
  false, List, [], ◌∷◌, ◌++◌, length, get_or, length-append, append_assoc, append-nil, Bool-cases,
  ltb, inl, inr, bit_or,
}
use terminus_store.Prelude.Bits.{bit, bit_zero, bit_and_mask, bit_or-zero_right}
use terminus_store.Structure.Word.{to_be_bytes}
use terminus_store.Structure.Word.Bytes.{word_bytes, word_bytes-append, AllWords}
use terminus_store.Structure.BitArray.{BitArrayFileBuilder, push, push_all, new, with_bit}
use terminus_store.Structure.LogArray.Stream.{stream}
use terminus_store.Structure.LogArray.Invariant.{AllWords-append}
use terminus_store.Structure.LogArray.Push.{filled, filled-lt, filled-after}
use terminus_store.Structure.LogArray.Step.{full-head, full-new}
use native.Mathlib.Decide.{ℕ_discrete}
use native.Mathlib.Nat.{zero-div}

abbrev pub to_bit : Bool → ℕ
to_bit true = 1
to_bit false = 0

abbrev pub bit_or_false : List Bool → ℕ → Bool
bit_or_false bits i = get_or bits i false

-- The words of the file and the one being filled hold the bits.
pub record Holds (self : BitArrayFileBuilder) (ws : List ℕ) (bits : List Bool) : Type 0 where
  pub written : self.dest ≡ word_bytes ws
  pub words : AllWords ws
  pub counted : self.count ≡ length bits
  pub position : length ws ≡ length bits / 64
  pub fits : self.current < 2 ^ 64
  pub clear : (q : ℕ) → length bits % 64 ≤ q → q < 64 → bit self.current (63 - q) ≡ 0
  pub stored :
      (p : ℕ)
      → p < length bits
      → stream (ws ++ (self.current ∷ [])) p ≡ to_bit (bit_or_false bits p)

pub new-Holds : Holds (new []) [] []
unfolding new word_bytes
new-Holds = record {
  written = refl;
  words = tt;
  counted = refl;
  position = omega arith;
  fits = omega arith;
  clear = λ q _ _. bit_zero (63 - q);
  stored = λ p hp. absurd (omega arith);
}

get_or-snoc_lt :
    (bits : List Bool) (b : Bool) (p : ℕ)
    → p < length bits
    → bit_or_false (bits ++ (b ∷ [])) p ≡ bit_or_false bits p
get_or-snoc_lt [] b p h = absurd (omega arith)
get_or-snoc_lt (c ∷ bits) b zero h = refl
get_or-snoc_lt (c ∷ bits) b (suc p) h = get_or-snoc_lt bits b p (omega arith)

get_or-snoc_eq :
    (bits : List Bool) (b : Bool) (p : ℕ) → p ≡ length bits → bit_or_false (bits ++ (b ∷ [])) p ≡ b
get_or-snoc_eq [] b zero h = refl
get_or-snoc_eq [] b (suc p) h = absurd (omega arith)
get_or-snoc_eq (c ∷ bits) b zero h = absurd (omega arith)
get_or-snoc_eq (c ∷ bits) b (suc p) h = get_or-snoc_eq bits b p (omega arith)

-- Setting a bit is writing a field of one bit.
with_bit-filled :
    (self : BitArrayFileBuilder) (b : Bool) (off : ℕ)
    → self.count % 64 ≡ off
    → with_bit self b ≡ filled self.current 1 (to_bit b) off
with_bit-filled self true off e =
    ap (λ t. bit_or self.current (0x8000_0000_0000_0000 / 2 ^ t)) (bit_and_mask 6 self.count ∙ e)
with_bit-filled self false off e =
    sym (bit_or-zero_right self.current)
    ∙ ap (bit_or self.current) (sym (ap (λ t. t / 2 ^ off) (omega arith) ∙ zero-div (2 ^ off)))

to_bit-lt : (b : Bool) → to_bit b < 2 ^ 1
to_bit-lt true = omega arith
to_bit-lt false = omega arith

bit-to_bit : (b : Bool) → bit (to_bit b) 0 ≡ to_bit b
unfolding bit
bit-to_bit true = refl
bit-to_bit false = refl

module _ (self : BitArrayFileBuilder) (ws : List ℕ) (bits : List Bool) (inv : Holds self ws bits)
    (b : Bool) where
  abbrev off : ℕ
  off = length bits % 64

  abbrev word : ℕ
  word = filled self.current 1 (to_bit b) off

  more : length (bits ++ (b ∷ [])) ≡ length bits + 1
  more = length-append bits (b ∷ [])

  word-lt : word < 2 ^ 64
  word-lt = filled-lt self.current 1 (to_bit b) off (omega arith) (to_bit-lt b) inv.fits

  stored-last :
      (rest : List ℕ) (p : ℕ)
      → p < length (bits ++ (b ∷ []))
      → stream (ws ++ (word ∷ rest)) p ≡ to_bit (bit_or_false (bits ++ (b ∷ [])) p)
  stored-last rest p hp = elim (Bool-cases (ltb p (length bits))) [
    | inl inside ↦
        let h : p < length bits = ground arith in
        full-head ws self.current 1 (to_bit b) off (omega arith) (omega arith) (to_bit-lt b)
          inv.fits (omega arith) inv.clear rest p (omega (arith, inv.position))
        ∙ inv.stored p h
        ∙ ap to_bit (sym (get_or-snoc_lt bits b p h))
    | inr last ↦
        let e : p ≡ length bits = ground (arith, more) in
        ap (stream (ws ++ (word ∷ rest))) (omega (arith, inv.position))
        ∙ full-new ws self.current 1 (to_bit b) off (omega arith) (omega arith) (to_bit-lt b)
            inv.fits (omega arith) inv.clear rest 0 (omega arith) (omega arith)
        ∙ bit-to_bit b
        ∙ ap to_bit (sym (get_or-snoc_eq bits b p e))
  ]

  across : BitArrayFileBuilder
  across = record { dest = self.dest ++ to_be_bytes 8 word; current = 0; count = self.count + 1 }

  within : BitArrayFileBuilder
  within = record { dest = self.dest; current = word; count = self.count + 1 }

  same-word : with_bit self b ≡ word
  same-word = with_bit-filled self b off (ap (λ t. t % 64) inv.counted)

  push-across : (self.count + 1) % 64 ≡ 0 → push self b ≡ across
  unfolding push across
  push-across e = ground (arith, same-word, bit_and_mask 6 (self.count + 1))

  push-within : (self.count + 1) % 64 ≢ 0 → push self b ≡ within
  unfolding push within
  push-within e = ground (arith, same-word, bit_and_mask 6 (self.count + 1))

  across-Holds : (self.count + 1) % 64 ≡ 0 → Holds across (ws ++ (word ∷ [])) (bits ++ (b ∷ []))
  unfolding across
  across-Holds e = record {
    written =
        rw (inv.written, word_bytes-append ws (word ∷ []))
          (ap (λ t. word_bytes ws ++ t)
            (unfold word_bytes in sym (append-nil (to_be_bytes 8 word))));
    words = AllWords-append ws word inv.words word-lt;
    counted = omega (arith, inv.counted, more);
    position = omega (arith, length-append ws (word ∷ []), inv.position, inv.counted, more);
    fits = omega arith;
    clear = λ q _ _. bit_zero (63 - q);
    stored = rw (append_assoc ws (word ∷ []) (0 ∷ [])) (stored-last (0 ∷ []));
  }

  within-Holds : (self.count + 1) % 64 ≢ 0 → Holds within ws (bits ++ (b ∷ []))
  unfolding within
  within-Holds e = record {
    written = inv.written;
    words = inv.words;
    counted = omega (arith, inv.counted, more);
    position = omega (arith, inv.position, inv.counted, more);
    fits = word-lt;
    clear = λ q lo hq.
        filled-after self.current 1 (to_bit b) off (omega arith) (to_bit-lt b) inv.fits inv.clear q
          hq (omega (arith, inv.counted, more, lo));
    stored = stored-last [];
  }

  -- Every `push` keeps the invariant, at a word boundary and within a word.
  pub push-Holds : (ws' : List ℕ) × Holds (push self b) ws' (bits ++ (b ∷ []))
  push-Holds = elim (ℕ_discrete ((self.count + 1) % 64) 0) [
    | yes e ↦ (ws ++ (word ∷ []), rw (push-across e) (across-Holds e))
    | no e ↦ (ws, rw (push-within e) (within-Holds e))
  ]

pub push_all-Holds :
    (more : List Bool) (self : BitArrayFileBuilder) (ws : List ℕ) (bits : List Bool)
    → Holds self ws bits
    → (ws' : List ℕ) × Holds (push_all self more) ws' (bits ++ more)
unfolding push_all
push_all-Holds [] self ws bits inv = (ws, rw append-nil inv)
push_all-Holds (b ∷ more) self ws bits inv =
    let (ws1, inv1) = push-Holds self ws bits inv b in
    let (ws2, inv2) = push_all-Holds more (push self b) ws1 (bits ++ (b ∷ [])) inv1 in
    (ws2, rw (append_assoc bits (b ∷ []) more) at inv2)
