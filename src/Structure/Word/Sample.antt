-- ===== src/Structure/Word/Sample.antt =====
-- A concrete `ByteOrder`, which has the laws that the interface asks for.
use terminus_store.Prelude.{
  ℕ, ◌≤◌, ◌≡◌, refl, ap, ◌∙◌, sym, List, ◌++◌, length, take, take-append, drop,
}
use terminus_store.Structure.Word.{ByteOrder, be_value, to_be_bytes}

pub read_front :
    (n : ℕ) (bs rest : List ℕ) → length bs ≡ n → be_value (take n (bs ++ rest)) ≡ be_value bs
read_front n bs rest e =
    ap (λ k. be_value (take k (bs ++ rest))) (sym e) ∙ ap be_value (take-append bs rest)

pub write_front :
    (buf : List ℕ) (n : ℕ)
    → 4 ≤ length buf
    → to_be_bytes 4 n ++ drop 4 buf ≡ to_be_bytes 4 n ++ drop 4 buf
write_front buf n h = refl

abbrev pub big_endian : ByteOrder
big_endian = record {
  read_u64 = λ bs. be_value (take 8 bs);
  read_u32 = λ bs. be_value (take 4 bs);
  read_u64_front = λ bs rest e _. read_front 8 bs rest e;
  read_u32_front = λ bs rest e _. read_front 4 bs rest e;
  write_u32 = λ buf n. to_be_bytes 4 n ++ drop 4 buf;
  write_u32_front = write_front;
}
