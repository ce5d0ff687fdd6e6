-- ===== src/Structure/Monotonic/Examples.antt =====
-- src/structure/logarray.rs: the theorems on `MonotonicLogArray` at concrete inputs.
use terminus_store.Prelude.{ℕ, ◌≡◌, ◌<◌, ◌∷◌, [], List, Option, arith}
use terminus_store.Prelude.Outcome.{ok, panic}
use terminus_store.Structure.Word.Sample.{big_endian}
use terminus_store.Structure.LogArray.{
  LogArray, LogArrayFileBuilder, parse, parsed, push_vec, new, finalize,
}
use terminus_store.Structure.Monotonic.{nearest_index_of, index_of, from_logarray}
use terminus_store.Structure.Monotonic.Search.{IsSorted, IsPlace, IsIndex}
use terminus_store.Structure.Monotonic.Correct.{value_at, index_of-push_vec, from_logarray-unsorted}

abbrev rising : List ℕ
rising = 2 ∷ 7 ∷ []

rising-IsSorted : IsSorted (value_at rising) 2
rising-IsSorted i j hij hj = rw (one i j hij hj, zeroth i j hij hj) (omega arith)
  where
    one : (i j : ℕ) → i < j → j < 2 → j ≡ 1
    one i j hij hj = omega arith

    zeroth : (i j : ℕ) → i < j → j < 2 → i ≡ 0
    zeroth i j hij hj = omega arith

index_of-push_vec_example :
    (b : LogArrayFileBuilder) × (array : LogArray) × (push_vec (new [] 5) rising ≡ ok b)
    × (parse big_endian (finalize big_endian b) ≡ parsed array)
    × (from_logarray big_endian array ≡ ok array)
    × ((element : ℕ)
        → ((r : ℕ) × (nearest_index_of big_endian array element ≡ ok r)
            × IsPlace (value_at rising) 2 element r)
          × ((found : Option ℕ) × (index_of big_endian array element ≡ ok found)
              × IsIndex (value_at rising) 2 element found))
index_of-push_vec_example =
    index_of-push_vec big_endian 5 rising (omega arith) (omega arith) (omega arith, omega arith)
      (omega arith) rising-IsSorted

from_logarray-unsorted_example :
    (b : LogArrayFileBuilder) × (array : LogArray) × (push_vec (new [] 5) (7 ∷ 2 ∷ []) ≡ ok b)
    × (parse big_endian (finalize big_endian b) ≡ parsed array)
    × (from_logarray big_endian array ≡ panic)
from_logarray-unsorted_example =
    from_logarray-unsorted big_endian 5 (7 ∷ 2 ∷ []) (omega arith) (omega arith)
      (omega arith, omega arith) (omega arith) 0 (omega arith) (omega arith)
