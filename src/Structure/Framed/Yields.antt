-- ===== src/Structure/Framed/Yields.antt =====
-- src/structure/bitarray.rs, src/structure/logarray.rs: what a stream yields whose decoder is right
-- about each part of a file.
use terminus_store.Prelude.{
  ℕ, zero, suc, ◌<◌, ◌≡◌, refl, ap, ◌∙◌, sym, arith, List, [], ◌∷◌, ◌++◌, length, append_assoc, map,
  Option, none, some, ◌≤◌,
}
use mathlib.Core.Path.{subst}
use terminus_store.Prelude.Outcome.{Outcome, ok, err, panic}
use terminus_store.Structure.Framed.{
  Decode, Framed, Asks, FramedRead, yields, yields-none, yields-some,
}

-- A buffer that starts with some bytes of the file, and has all of them.
pub append_front :
    (xs rest buffer unread : List ℕ)
    → length xs ≤ length buffer
    → buffer ++ unread ≡ xs ++ rest
    → (more : List ℕ) × (buffer ≡ xs ++ more) × (more ++ unread ≡ rest)
append_front [] rest buffer unread h e = (buffer, refl, e)
append_front (x ∷ xs) rest [] unread h e = absurd (omega arith)
append_front (x ∷ xs) rest (b ∷ buffer) unread h e =
    let (more, front, back) = append_front xs rest buffer unread (omega arith) cc in
    (more, cc, back)

-- The items that a decoder still has to return from some bytes, and what a call does to them.
module _ {S : Type 0} (Expects : S → List ℕ → List ℕ → Type 0) where
  abbrev pub Fits : List ℕ → List ℕ → Outcome (Option ℕ × S × List ℕ) → Type 0
  Fits vals unread (ok (none, codec, buffer)) =
      Expects codec vals (buffer ++ unread) × (unread ≡ [] → (vals ≡ []) × (buffer ≡ []))
  Fits vals unread (ok (some v, codec, buffer)) =
      (rest : List ℕ) × (vals ≡ v ∷ rest) × Expects codec rest (buffer ++ unread)
  Fits vals unread (err e) = ⊥
  Fits vals unread panic = ⊥

  abbrev Answers : List ℕ → Outcome (Option ℕ × Framed S) → Type 0
  Answers vals (ok (none, self)) = vals ≡ []
  Answers vals (ok (some v, self)) =
      (rest : List ℕ) × (vals ≡ v ∷ rest) × Expects self.codec rest (self.buffer ++ self.unread)
  Answers vals (err e) = ⊥
  Answers vals panic = ⊥

  module _ (decode : Decode S)
      (step : (codec : S) (vals buffer unread : List ℕ)
        → Expects codec vals (buffer ++ unread)
        → Fits vals unread (decode codec buffer)) where
    Asks-Answers :
        {self : Framed S} {result : Outcome (Option ℕ × Framed S)} (vals : List ℕ)
        → Asks decode self result
        → Expects self.codec vals (self.buffer ++ self.unread)
        → Answers vals result
    Asks-Answers vals (Asks.read {codec} {buffer} front back e asks) inv = Asks-Answers vals asks (
        subst (Expects codec vals) (ap (λ t. buffer ++ t) e ∙ sym (append_assoc buffer front back))
          inv)
    Asks-Answers vals (Asks.wait {codec} {buffer} {unread} codec' buffer' e asks) inv =
        Asks-Answers vals asks (subst (Fits vals unread) e (step codec vals buffer unread inv)).0
    Asks-Answers vals (Asks.item {codec} {buffer} {unread} v codec' buffer' e) inv =
        subst (Fits vals unread) e (step codec vals buffer unread inv)
    Asks-Answers vals (Asks.ends {codec} {buffer} codec' e) inv =
        ((subst (Fits vals []) e (step codec vals buffer [] inv)).1 refl).0
    Asks-Answers vals (Asks.left_over {codec} {buffer} codec' byte bytes e) inv =
        let (none_left, empty) = (subst (Fits vals []) e (step codec vals buffer [] inv)).1 refl in
        absurd cc
    Asks-Answers vals (Asks.fails {codec} {buffer} {unread} error e) inv =
        absurd (subst (Fits vals unread) e (step codec vals buffer unread inv))
    Asks-Answers vals (Asks.panics {codec} {buffer} {unread} e) inv =
        absurd (subst (Fits vals unread) e (step codec vals buffer unread inv))

    module _ (framed : FramedRead) where
      yields-further :
          (vals : List ℕ) (fuel : ℕ) (self : Framed S) (result : Outcome (Option ℕ × Framed S))
          → framed.ask decode self ≡ result
          → Answers vals result
          → ((rest : List ℕ) (self' : Framed S)
              → length rest < length vals
              → Expects self'.codec rest (self'.buffer ++ self'.unread)
              → yields framed decode fuel self' ≡ map ok rest)
          → yields framed decode (suc fuel) self ≡ map ok vals
      yields-further vals fuel self (ok (none, self')) e a further =
          yields-none framed decode fuel self self' e ∙ ap (map ok) (sym a)
      yields-further vals fuel self (ok (some v, self')) e (rest, split, inv) further =
          yields-some framed decode fuel self self' v e
          ∙ ap (λ t. ok v ∷ t) (further rest self' (omega (arith, ap length split)) inv)
          ∙ ap (map ok) (sym split)
      yields-further vals fuel self (err error) e a further = absurd a
      yields-further vals fuel self panic e a further = absurd a

      -- The stream yields the expected items, however its bytes are read.
      pub yields-all :
          (fuel : ℕ) (vals : List ℕ) (self : Framed S)
          → length vals < fuel
          → Expects self.codec vals (self.buffer ++ self.unread)
          → yields framed decode fuel self ≡ map ok vals
      yields-all zero vals self h inv = absurd (omega arith)
      yields-all (suc fuel) vals self h inv =
          yields-further vals fuel self (framed.ask decode self) refl
            (Asks-Answers vals (framed.asks decode self) inv)
            (λ rest self' shorter. yields-all fuel rest self' (omega arith))
