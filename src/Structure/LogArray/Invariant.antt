-- ===== src/Structure/LogArray/Invariant.antt =====
-- src/structure/logarray.rs: every `push` of a value that fits keeps the invariant `Holds`.
use terminus_store.Prelude.{
  ℕ, ◌+◌, ◌-◌, ◌*◌, ◌^◌, ◌≤◌, ◌<◌, ◌≡◌, refl, ap, ◌∙◌, sym, arith, List, [], ◌∷◌, ◌++◌, length,
  get_or, length-append, append_assoc, append-nil, Bool-cases, ltb, inl, inr,
}
use terminus_store.Prelude.Bits.{bit}
use terminus_store.Prelude.Outcome.{ok}
use terminus_store.Structure.Word.{to_be_bytes}
use terminus_store.Structure.Word.Bytes.{word_bytes, word_bytes-append, AllWords}
use terminus_store.Structure.LogArray.{LogArrayFileBuilder, push, push_vec}
use terminus_store.Structure.LogArray.Fields.{carried_after}
use terminus_store.Structure.LogArray.Stream.{stream, get_or-last}
use terminus_store.Structure.LogArray.Push.{Holds, filled, filled-lt, filled-after}
use terminus_store.Structure.LogArray.Step.{
  next, push_within, push_across, full-head, full-new, full-carried,
}

pub AllWords-append : (ws : List ℕ) (w : ℕ) → AllWords ws → w < 2 ^ 64 → AllWords (ws ++ (w ∷ []))
AllWords-append [] w a h = (h, tt)
AllWords-append (v ∷ ws) w (hv, a) h = (hv, AllWords-append ws w a h)

module _ (self : LogArrayFileBuilder) (ws vals : List ℕ) (val : ℕ) (inv : Holds self ws vals)
    (pos : 1 ≤ self.width) (hw : self.width ≤ 64) (h : val < 2 ^ self.width) where
  open self use {width, current, offset, count}
  open inv use {position, room, fits, clear, stored}

  abbrev word : ℕ
  word = filled current width val offset

  more : length (vals ++ (val ∷ [])) ≡ length vals + 1
  more = length-append vals (val ∷ [])

  -- The values of the longer list are in `after`, if it has the old bits and then those of `val`.
  stored-last :
      (after : List ℕ)
      → ((p : ℕ) → p < 64 * length ws + offset → stream after p ≡ stream (ws ++ (current ∷ [])) p)
      → ((j : ℕ) → j < width → stream after (64 * length ws + offset + j) ≡ bit val (width - 1 - j))
      → (i j : ℕ) → i < length (vals ++ (val ∷ []))
      → j < width
      → stream after (width * i + j) ≡ bit (get_or (vals ++ (val ∷ [])) i 0) (width - 1 - j)
  stored-last after old fresh i j hi hj = elim (Bool-cases (ltb i (length vals))) [
    | inl inside ↦
        let small : i < length vals = ground arith in
        let fit : width * i + j < width * length vals = grind arith in
        old (width * i + j) (omega (arith, fit, position))
        ∙ stored i j small hj
        ∙ ap (λ t. bit t (width - 1 - j)) (sym ((get_or-last vals val i).0 small))
    | inr last ↦
        let e : i ≡ length vals = ground (arith, more) in
        ap (stream after) (omega (arith, ap (λ (t : ℕ). width * t) e, position))
        ∙ fresh j hj
        ∙ ap (λ t. bit t (width - 1 - j)) (sym ((get_or-last vals val i).1 e))
  ]

  position-last : 64 * length ws + offset + width ≡ width * length (vals ++ (val ∷ []))
  position-last = omega (arith, position, ap (λ (t : ℕ). width * t) more)

  within : LogArrayFileBuilder
  within = record self { current = word; offset = offset + width; count = count + 1 }

  within-Holds : offset + width < 64 → Holds within ws (vals ++ (val ∷ []))
  unfolding within
  within-Holds e = record {
    written = inv.written;
    words = inv.words;
    counted = omega (arith, inv.counted, more);
    position = omega (arith, position-last);
    room = e;
    fits = filled-lt current width val offset hw h fits;
    clear = λ q lo hq. filled-after current width val offset hw h fits clear q hq lo;
    stored =
        stored-last (ws ++ (word ∷ []))
          (full-head ws current width val offset hw pos h fits room clear [])
          (λ j hj.
            full-new ws current width val offset hw pos h fits room clear [] j (omega arith) hj);
  }

  abbrev rest : ℕ
  rest = offset + width - 64

  across : LogArrayFileBuilder
  across = record self {
    file = self.file ++ to_be_bytes 8 word;
    current = next val rest;
    offset = rest;
    count = count + 1;
  }

  written-last : self.file ++ to_be_bytes 8 word ≡ word_bytes (ws ++ (word ∷ []))
  written-last =
      rw (inv.written, word_bytes-append ws (word ∷ []))
        (ap (λ t. word_bytes ws ++ t) (unfold word_bytes in sym (append-nil (to_be_bytes 8 word))))

  across-Holds : 64 ≤ offset + width → Holds across (ws ++ (word ∷ [])) (vals ++ (val ∷ []))
  unfolding across
  across-Holds e =
      let fresh : (j : ℕ)
          → j < width
          → stream (ws ++ (word ∷ next val rest ∷ [])) (64 * length ws + offset + j)
            ≡ bit val (width - 1 - j) =
        λ j hj. elim (Bool-cases (ltb (offset + j) 64)) [
          | inl here ↦
              full-new ws current width val offset hw pos h fits room clear (next val rest ∷ []) j
                (ground arith) hj
          | inr over ↦
              full-carried ws current width val offset hw pos h fits room clear j (ground arith) hj
        ] in
      record {
        written = written-last;
        words = AllWords-append ws word inv.words (filled-lt current width val offset hw h fits);
        counted = omega (arith, inv.counted, more);
        position = omega (arith, position-last, length-append ws (word ∷ []));
        room = omega arith;
        fits = omega arith;
        clear = λ q lo hq. carried_after rest val q (omega arith) hq lo;
        stored = rw (append_assoc ws (word ∷ []) (next val rest ∷ [])) (
            stored-last (ws ++ (word ∷ next val rest ∷ []))
              (full-head ws current width val offset hw pos h fits room clear (next val rest ∷ []))
              fresh);
      }

-- After a successful `push` of a value that fits the width the file and the word being filled hold
-- one value more.
pub push-Holds :
    (self : LogArrayFileBuilder) (ws vals : List ℕ) (val : ℕ)
    → Holds self ws vals
    → 1 ≤ self.width
    → self.width ≤ 64
    → val < 2 ^ self.width
    → self.count + 1 < 2 ^ 32
    → (self' : LogArrayFileBuilder) × (ws' : List ℕ) × (push self val ≡ ok self')
      × (self'.width ≡ self.width)
      × Holds self' ws' (vals ++ (val ∷ []))
push-Holds self ws vals val inv pos hw h hc =
    elim (Bool-cases (ltb (self.offset + self.width) 64)) [
      | inl small ↦ (
        within self ws vals val inv pos hw h,
        ws,
        unfold within in push_within self val hw pos h hc inv.room (ground arith),
        unfold within in refl,
        within-Holds self ws vals val inv pos hw h (ground arith),
      )
      | inr large ↦ (
        across self ws vals val inv pos hw h,
        ws ++ (filled self.current self.width val self.offset ∷ []),
        unfold across in push_across self val hw pos h hc inv.room (ground arith),
        unfold across in refl,
        across-Holds self ws vals val inv pos hw h (ground arith),
      )
    ]

abbrev pub AllFit : ℕ → List ℕ → Type 0
AllFit width [] = Unit {0}
AllFit width (v ∷ vs) = (v < 2 ^ width) × AllFit width vs

pub push_vec-Holds :
    (vs : List ℕ) (self : LogArrayFileBuilder) (ws vals : List ℕ)
    → Holds self ws vals
    → 1 ≤ self.width
    → self.width ≤ 64
    → AllFit self.width vs
    → self.count + length vs < 2 ^ 32
    → (self' : LogArrayFileBuilder) × (ws' : List ℕ) × (push_vec self vs ≡ ok self')
      × (self'.width ≡ self.width)
      × Holds self' ws' (vals ++ vs)
unfolding push_vec
push_vec-Holds [] self ws vals inv pos hw h hc = (self, ws, refl, refl, rw append-nil inv)
push_vec-Holds (v ∷ vs) self ws vals inv pos hw (hv, h) hc =
    let (mid, ws1, step, same, inv1) = push-Holds self ws vals v inv pos hw hv (omega arith) in
    let count1 : mid.count ≡ self.count + 1 =
      omega (arith, inv.counted, inv1.counted, length-append vals (v ∷ [])) in
    let (self', ws', steps, same', inv') =
      push_vec-Holds vs mid ws1 (vals ++ (v ∷ [])) inv1 (omega (arith, same)) (omega (arith, same))
        (rw same h) (omega (arith, count1)) in
    (self', ws', rw step steps, same' ∙ same, rw (append_assoc vals (v ∷ []) vs) at inv')
