-- ===== src/Structure/BitArray/Examples.antt =====
-- src/structure/bitarray.rs: runs of the functions, and the theorems at concrete inputs.
use terminus_store.Structure.BitArray.Iter.{iter, iter-push_all}
use terminus_store.Prelude.{
  ℕ, ◌≡◌, ◌∷◌, [], List, refl, arith, Bool, true, false, ltb, map, if◌then◌else◌,
}
use terminus_store.Prelude.Outcome.{ok, panic}
use terminus_store.Structure.Word.{to_be_bytes}
use terminus_store.Structure.Word.Sample.{big_endian}
use terminus_store.Structure.Framed.Sample.{byte_by_byte}
use terminus_store.Structure.BitArray.{
  BitArray, new, push, push_all, from_bits, parsed, finalize, get,
}
use terminus_store.Structure.BitArray.Push.{bit_or_false}
use terminus_store.Structure.BitArray.Bits.{bitarray_stream_bits}
use terminus_store.Structure.BitArray.Stream.{bitarray_stream_bits-push_all}
use terminus_store.Structure.BitArray.Get.{get-push_all}

abbrev three : List Bool
three = true ∷ false ∷ true ∷ []

get-push_all_example :
    (array : BitArray) × (from_bits big_endian (finalize (push_all (new []) three)) ≡ parsed array)
    × (array.len ≡ 3)
    × ((i : ℕ) → get array i ≡ (if ltb i 3 then ok (bit_or_false three i) else panic))
get-push_all_example = get-push_all big_endian three (omega arith)

finalize_run :
    finalize (push_all (new []) three)
    ≡ 160 ∷ 0 ∷ 0 ∷ 0 ∷ 0 ∷ 0 ∷ 0 ∷ 0 ∷ 0 ∷ 0 ∷ 0 ∷ 0 ∷ 0 ∷ 0 ∷ 0 ∷ 3 ∷ []
unfolding finalize push_all push new to_be_bytes
finalize_run = refl

bitarray_stream_bits-push_all_example :
    bitarray_stream_bits byte_by_byte big_endian (finalize (push_all (new []) three))
    ≡ ok (map ok three)
bitarray_stream_bits-push_all_example =
    bitarray_stream_bits-push_all byte_by_byte big_endian three (omega arith)

iter-push_all_example :
    (array : BitArray) × (from_bits big_endian
        (finalize (push_all (new []) (true ∷ false ∷ true ∷ [])))
      ≡ parsed array)
    × (iter array ≡ ok (true ∷ false ∷ true ∷ []))
iter-push_all_example = iter-push_all big_endian (true ∷ false ∷ true ∷ []) (omega arith)
