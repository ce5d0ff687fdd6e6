-- ===== src/Structure/LogArray/Slice.antt =====
-- src/structure/logarray.rs: `slice` shares the buffer and moves the start.
use terminus_store.Prelude.{
  ℕ, zero, suc, ◌+◌, ◌-◌, ◌*◌, ◌^◌, ◌≤◌, ◌<◌, ◌≡◌, refl, ap, ◌∙◌, sym, arith, List, [], ◌∷◌, length,
  get_or, drop, take, length-take, length-drop,
}
use terminus_store.Prelude.Bits.{bit}
use terminus_store.Prelude.Outcome.{ok}
use terminus_store.Structure.LogArray.{LogArray, slice}
use terminus_store.Structure.LogArray.Stream.{stream}
use terminus_store.Structure.LogArray.RoundTrip.{Stores}

get_or-drop : (n i : ℕ) (vals : List ℕ) → get_or (drop n vals) i 0 ≡ get_or vals (n + i) 0
get_or-drop zero i vals = ap (λ t. get_or vals t 0) (omega arith)
get_or-drop (suc n) i [] = refl
get_or-drop (suc n) i (v ∷ vals) =
    get_or-drop n i vals
    ∙ ap (λ t. get_or (v ∷ vals) t 0) {x = suc (n + i)} {y = suc n + i} (omega arith)

get_or-take : (n i : ℕ) (vals : List ℕ) → i < n → get_or (take n vals) i 0 ≡ get_or vals i 0
get_or-take zero i vals h = absurd (omega arith)
get_or-take (suc n) i [] h = refl
get_or-take (suc n) zero (v ∷ vals) h = refl
get_or-take (suc n) (suc i) (v ∷ vals) h = get_or-take n i vals (omega arith)

mul_mono : (w a b : ℕ) → a ≤ b → w * a ≤ w * b
mul_mono w a b h = grind arith

abbrev pub part : List ℕ → ℕ → ℕ → List ℕ
part vals offset len = take len (drop offset vals)

module _ (self : LogArray) (ws control vals : List ℕ) (s : Stores self ws control vals)
    (offset len : ℕ) (inside : offset + len ≤ self.len) where
  pub length-part : length (part vals offset len) ≡ len
  length-part = omega (arith, length-take len (drop offset vals), length-drop offset vals, s.sized)

  pub part-get_or :
      (i : ℕ) → i < len → get_or (part vals offset len) i 0 ≡ get_or vals (offset + i) 0
  part-get_or i hi = get_or-take len i (drop offset vals) hi ∙ get_or-drop offset i vals

  -- A slice within the array stands for that part of the values.
  pub slice-Stores :
      offset + len < 2 ^ 32
      → (part_array : LogArray) × (slice self offset len ≡ ok part_array)
        × Stores part_array ws control (part vals offset len)
  unfolding slice
  slice-Stores small = (
    record {
      first = self.first + offset;
      len = len;
      width = self.width;
      input_buf = self.input_buf;
    },
    ground arith,
    record {
      laid_out = s.laid_out;
      control_size = s.control_size;
      words = s.words;
      sized = omega (arith, length-part);
      narrow = s.narrow;
      wide = s.wide;
      inside =
          (let m : self.width * (self.first + offset + len) ≤ self.width * (self.first + self.len) =
              mul_mono self.width (self.first + offset + len) (self.first + self.len)
                (omega arith) in
            omega (arith, m, s.inside));
      fit = λ i hi.
          rw (part-get_or i (omega (arith, length-part)))
            (s.fit (offset + i) (omega (arith, length-part, s.sized)));
      stored = λ i j hi hj.
          ap (stream ws) (omega arith)
          ∙ s.stored (offset + i) j (omega (arith, length-part, s.sized)) hj
          ∙ ap (λ t. bit t (self.width - 1 - j)) (sym (part-get_or i (omega (arith, length-part))));
    },
  )
