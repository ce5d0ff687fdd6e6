-- ===== src/Structure/Util/Examples.antt =====
-- src/structure/util.rs: the theorems at concrete inputs.
use terminus_store.Prelude.{ℕ, ◌≡◌, ◌<◌, ◌%◌, ◌∷◌, [], List, ◌++◌, arith, length, replicate}
use terminus_store.Prelude.Outcome.{ok}
use terminus_store.Structure.Util.{find_common_prefix, write_padding}
use terminus_store.Structure.Util.Prefix.{IsCommonPrefix, find_common_prefix-IsCommonPrefix}
use terminus_store.Structure.Util.Padding.{length-write_padding}

find_common_prefix-IsCommonPrefix_example :
    IsCommonPrefix
      (5 ∷ 6 ∷ 7 ∷ [])
      (5 ∷ 6 ∷ 9 ∷ [])
      (find_common_prefix (5 ∷ 6 ∷ 7 ∷ []) (5 ∷ 6 ∷ 9 ∷ []))
find_common_prefix-IsCommonPrefix_example =
    find_common_prefix-IsCommonPrefix (5 ∷ 6 ∷ 7 ∷ []) (5 ∷ 6 ∷ 9 ∷ [])

abbrev three_bytes : List ℕ
three_bytes = 1 ∷ 2 ∷ 3 ∷ []

length-write_padding_example :
    (n : ℕ) × (write_padding three_bytes 3 8 ≡ ok (three_bytes ++ replicate n 0))
    × (n < 8)
    × (length (three_bytes ++ replicate n 0) % 8 ≡ 0)
length-write_padding_example = length-write_padding three_bytes 8 (omega arith)
