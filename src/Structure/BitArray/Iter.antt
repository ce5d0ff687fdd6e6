-- ===== src/Structure/BitArray/Iter.antt =====
-- src/structure/bitarray.rs: the iterator over a bit array.
use terminus_store.Prelude.{
  ℕ, zero, suc, ◌+◌, ◌^◌, ◌<◌, ◌≡◌, ap, ◌∙◌, sym, arith, Bool, false, List, [], ◌∷◌, length, drop,
  drop-cons, ltb, nil_of_length, length-drop, if◌then◌else◌,
}
use terminus_store.Prelude.Outcome.{Outcome, ok, panic, ◌>>=◌}
use terminus_store.Structure.Word.{ByteOrder}
use terminus_store.Structure.BitArray.{BitArray, from_bits, parsed, get, new, push_all, finalize}
use terminus_store.Structure.BitArray.Push.{bit_or_false}
use terminus_store.Structure.BitArray.Get.{get-push_all}

-- The range `0..len` from `index` on, mapped by `get`.
unfoldable pub iter_loop : BitArray → ℕ → ℕ → Outcome (List Bool)
iter_loop self zero index = ok []
iter_loop self (suc n) index = do
  bit ← get self index
  bits ← iter_loop self n (index + 1)
  ok (bit ∷ bits)

-- All that the iterator yields.
unfoldable pub iter : BitArray → Outcome (List Bool)
iter self = iter_loop self self.len 0

module _ (self : BitArray) (bits : List Bool)
    (gets : (i : ℕ) → i < length bits → get self i ≡ ok (bit_or_false bits i)) where
  iter_loop_lem :
      (n index : ℕ) → index + n ≡ length bits → iter_loop self n index ≡ ok (drop index bits)
  unfolding iter_loop
  iter_loop_lem zero index h =
      ap ok (sym (nil_of_length (drop index bits) (omega (arith, length-drop index bits))))
  iter_loop_lem (suc n) index h =
      let inside : index < length bits = omega arith in
      rw (gets index inside, iter_loop_lem n (index + 1) (omega arith))
        (ap ok (
          ap (λ i. bit_or_false bits index ∷ drop i bits) {x = index + 1} {y = suc index}
            (omega arith)
          ∙ sym (drop-cons bits index false inside)))

  pub iter_lem : self.len ≡ length bits → iter self ≡ ok bits
  unfolding iter
  iter_lem h = iter_loop_lem self.len 0 (omega (arith, h))

-- Fewer than 2 ^ 64 bits, pushed to a builder over an empty file, give a file that `from_bits`
-- accepts as an array whose iterator yields exactly those bits, in the order in which they were pushed.
pub iter-push_all :
    (order : ByteOrder) (bits : List Bool)
    → length bits < 2 ^ 64
    → (array : BitArray) × (from_bits order (finalize (push_all (new []) bits)) ≡ parsed array)
      × (iter array ≡ ok bits)
iter-push_all order bits few =
    let (array, accepted, len, gets) = get-push_all order bits few in
    (array, accepted, iter_lem array bits (λ i h. gets i ∙ inside i h) len)
  where
    inside :
        (i : ℕ)
        → i < length bits
        → (if ltb i (length bits) then ok (bit_or_false bits i) else panic)
          ≡ ok (bit_or_false bits i)
    inside i h = ground arith
