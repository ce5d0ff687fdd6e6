-- ===== src/Structure/EntryStream/Examples.antt =====
-- src/structure/logarray.rs: the theorem on the stream of entries at a concrete input.
use terminus_store.Prelude.{ℕ, ◌≡◌, ◌∷◌, [], List, arith, map}
use terminus_store.Prelude.Outcome.{ok}
use terminus_store.Structure.Word.Sample.{big_endian}
use terminus_store.Structure.Framed.Sample.{byte_by_byte}
use terminus_store.Structure.LogArray.{LogArrayFileBuilder, push_vec, new, finalize}
use terminus_store.Structure.EntryStream.{logarray_stream_entries}
use terminus_store.Structure.EntryStream.Correct.{logarray_stream_entries-push_vec}

abbrev three : List ℕ
three = 5 ∷ 0 ∷ 31 ∷ []

logarray_stream_entries-push_vec_example :
    (b : LogArrayFileBuilder) × (push_vec (new [] 33) three ≡ ok b)
    × (logarray_stream_entries byte_by_byte big_endian (finalize big_endian b) ≡ ok (map ok three))
logarray_stream_entries-push_vec_example =
    logarray_stream_entries-push_vec byte_by_byte big_endian 33 three (omega arith) (omega arith)
      (omega arith) (omega arith)
