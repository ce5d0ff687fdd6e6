-- ===== src/Structure/EntryStream/Expects.antt =====
-- src/structure/logarray.rs: the decoder is right about each part of a file, whatever the buffer has.
use terminus_store.Prelude.{
  ℕ, suc, ◌+◌, ◌-◌, ◌*◌, ◌^◌, ◌≤◌, ◌<◌, ◌≡◌, refl, ap, ◌∙◌, sym, arith, Bool-cases, leb, ltb, ◌⊎◌,
  List, [], ◌∷◌, ◌++◌, length, inl, inr,
}
use mathlib.Core.Path.{subst}
use terminus_store.Structure.Word.{ByteOrder}
use terminus_store.Structure.Word.Bytes.{AllWords}
use terminus_store.Structure.LogArray.Invariant.{AllFit}
use terminus_store.Structure.EntryStream.{LogArrayDecoder, decode}
use terminus_store.Structure.Framed.Yields.{Fits}
use terminus_store.Structure.EntryStream.Decoder.{HoldsFrom}
use terminus_store.Structure.EntryStream.Step.{
  HoldsFrom-same, HoldsFrom-tail, decode-done, decode-wait, decoder, file_from, step-one, step-two,
  not_at_end, next_word,
}

module _ (order : ByteOrder) (w : ℕ) (wide : 1 ≤ w) (narrow : w ≤ 64) (control : List ℕ) where
  -- The values that are left to return, from the decoder's word and the words of the bytes.
  pub record Expects (self : LogArrayDecoder) (vals bytes : List ℕ) : Type 0 where
    pub current : ℕ
    pub offset : ℕ
    pub words : List ℕ
    pub self_is : self ≡ decoder w current offset (length vals)
    pub small : AllWords words
    pub fit : AllFit w vals
    pub offset_small : offset ≤ 64
    pub inside : offset + w * length vals ≤ 64 + 64 * length words
    pub held : HoldsFrom w offset (current ∷ words) vals
    pub bytes_are : (vals ≡ []) ⊎ (bytes ≡ file_from control words)

  -- A call where a value is left, with the bytes behind the current word.
  module _ (o c y : ℕ) (vals buffer unread : List ℕ) (hy : y < 2 ^ w) (fit : AllFit w vals)
      (ho : o ≤ 64) where
    abbrev self : LogArrayDecoder
    self = decoder w c o (suc (length vals))

    abbrev Holds : List ℕ → Type 0
    Holds vs =
        AllWords vs
        × (o + w * suc (length vals) ≤ 64 + 64 * length vs)
        × HoldsFrom w o (c ∷ vs) (y ∷ vals)
        × (buffer ++ unread ≡ file_from control vs)

    abbrev Right : Type 0
    Right = Fits Expects (y ∷ vals) unread (decode order self buffer)

    within : (vs : List ℕ) → Holds vs → o + w ≤ 64 → Right
    within vs (hw, inside, held, e) h =
        subst (Fits Expects (y ∷ vals) unread)
          (sym (step-one order w wide narrow control o c y vs vals buffer h hy held))
          (
            vals,
            refl,
            record {
              current = c;
              offset = o + w;
              words = vs;
              self_is = refl;
              small = hw;
              fit = fit;
              offset_small = h;
              inside = grind arith;
              held = HoldsFrom-same w o (c ∷ vs) vals y held;
              bytes_are = inr e;
            },
          )

    across : (v : ℕ) (vs : List ℕ) → Holds (v ∷ vs) → 64 < o + w → 8 ≤ length buffer → Right
    across v vs ((hv, hw), inside, held, e) h full =
        let (more, front, back) = next_word order w wide narrow control v vs buffer unread full e in
        subst (Fits Expects (y ∷ vals) unread)
          (sym (
            ap (decode order self) front
            ∙ step-two order w wide narrow control o c y v vs vals more ho h hy hv held))
          (
            vals,
            refl,
            record {
              current = v;
              offset = o + w - 64;
              words = vs;
              self_is = refl;
              small = hw;
              fit = fit;
              offset_small = omega arith;
              inside = grind arith;
              held =
                  HoldsFrom-tail w (o + w) c (v ∷ vs) vals (omega arith)
                    (HoldsFrom-same w o (c ∷ v ∷ vs) vals y held);
              bytes_are = inr back;
            },
          )

    awaited : (v : ℕ) (vs : List ℕ) → Holds (v ∷ vs) → 64 < o + w → length buffer < 8 → Right
    awaited v vs (hw, inside, held, e) h short =
        let inv : Expects self (y ∷ vals) (buffer ++ unread) = record {
          current = c;
          offset = o;
          words = v ∷ vs;
          self_is = refl;
          small = hw;
          fit = (hy, fit);
          offset_small = ho;
          inside = inside;
          held = held;
          bytes_are = inr e;
        } in
        subst (Fits Expects (y ∷ vals) unread)
          (sym (decode-wait order self buffer (omega arith) narrow h short))
          (inv, not_at_end order w wide narrow control v vs buffer unread short e)

    some-Fits : (vs : List ℕ) → Holds vs → Right
    some-Fits [] (hw, inside, held, e) = within [] (hw, inside, held, e) (grind arith)
    some-Fits (v ∷ vs) holds = elim (Bool-cases (leb (o + w) 64)) [
      | inl one ↦ within (v ∷ vs) holds (ground arith)
      | inr two ↦ elim (Bool-cases (ltb (length buffer) 8)) [
        | inl short ↦ awaited v vs holds (ground arith) (ground arith)
        | inr full ↦ across v vs holds (ground arith) (ground arith)
      ]
    ]

  pub decode-Fits :
      (self : LogArrayDecoder) (vals buffer unread : List ℕ)
      → Expects self vals (buffer ++ unread)
      → Fits Expects vals unread (decode order self buffer)
  decode-Fits self [] buffer unread inv =
      subst (Fits Expects [] unread)
        (sym (decode-done order self buffer (ap (λ t. t.remaining) inv.self_is)))
        (
          record {
            current = inv.current;
            offset = inv.offset;
            words = inv.words;
            self_is = inv.self_is;
            small = inv.small;
            fit = inv.fit;
            offset_small = inv.offset_small;
            inside = inv.inside;
            held = inv.held;
            bytes_are = inl refl;
          },
          λ _. (refl, refl),
        )
  decode-Fits self (y ∷ vals) buffer unread inv =
      let (hy, fit) = inv.fit in
      subst (λ d. Fits Expects (y ∷ vals) unread (decode order d buffer)) (sym inv.self_is)
        (elim inv.bytes_are [
          | inl none_left ↦ absurd (omega (arith, ap length none_left))
          | inr e ↦
              some-Fits inv.offset inv.current y vals buffer unread hy fit inv.offset_small
                inv.words (inv.small, inv.inside, inv.held, e)
        ])
