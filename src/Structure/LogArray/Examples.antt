-- ===== src/Structure/LogArray/Examples.antt =====
-- src/structure/logarray.rs: runs of the functions, and the theorems at concrete inputs.
use terminus_store.Structure.LogArray.PushAll.{push_all, push_all-stream}
use terminus_store.Prelude.{ℕ, ◌≡◌, ◌+◌, ◌∷◌, [], List, arith, get_or, ltb, if◌then◌else◌}
use terminus_store.Prelude.Outcome.{ok, panic, err, invalid_data, unexpected_eof}
use terminus_store.Structure.Word.Sample.{big_endian}
use terminus_store.Structure.LogArray.{
  LogArray, LogArrayFileBuilder, push, push_vec, new, parse, parsed, finalize, entry, slice,
}
use terminus_store.Structure.LogArray.Correct.{entry-push_vec, entry-slice}
use terminus_store.Structure.LogArray.Step.{push_wide}

abbrev three : List ℕ
three = 5 ∷ 0 ∷ 31 ∷ []

entry-push_vec_example :
    (b : LogArrayFileBuilder) × (array : LogArray) × (push_vec (new [] 33) three ≡ ok b)
    × (parse big_endian (finalize big_endian b) ≡ parsed array)
    × (array.len ≡ 3)
    × (array.width ≡ 33)
    × ((i : ℕ) → entry big_endian array i ≡ (if ltb i 3 then ok (get_or three i 0) else panic))
entry-push_vec_example =
    entry-push_vec big_endian 33 three (omega arith) (omega arith) (omega arith) (omega arith)

entry-slice_example :
    (b : LogArrayFileBuilder) × (array : LogArray) × (cut : LogArray) × (push_vec (new [] 33) three
      ≡ ok b)
    × (parse big_endian (finalize big_endian b) ≡ parsed array)
    × (slice array 1 2 ≡ ok cut)
    × ((i : ℕ) → entry big_endian cut i ≡ (if ltb i 2 then ok (get_or three (1 + i) 0) else panic))
entry-slice_example =
    entry-slice big_endian 33 three (omega arith) (omega arith) (omega arith) (omega arith) 1 2
      (omega arith)

push_wide_example :
    push (record { file = []; width = 5; current = 0; offset = 0; count = 0 }) 32 ≡ err invalid_data
push_wide_example =
    push_wide (record { file = []; width = 5; current = 0; offset = 0; count = 0 }) 32 (omega arith)
      (omega arith) (omega arith)

push_all-stream_example :
    (b : LogArrayFileBuilder) × (push_vec (new [] 33) three ≡ ok b)
    × (push_all (new [] 33) (ok 5 ∷ ok 0 ∷ ok 31 ∷ []) ≡ ok b)
    × (push_all (new [] 33) (ok 5 ∷ ok 0 ∷ ok 31 ∷ err unexpected_eof ∷ ok 7 ∷ [])
        ≡ err unexpected_eof)
push_all-stream_example =
    push_all-stream 33 three unexpected_eof (ok 7 ∷ []) (omega arith) (omega arith) (omega arith)
      (omega arith)
