-- ===== src/Structure/Util.antt =====
-- src/structure/util.rs: common prefixes, and what is written around the data of a file.
pub mod Prefix
pub mod Padding
mod Examples
use terminus_store.Prelude.{
  ℕ, zero, suc, ◌+◌, ◌-◌, ◌%◌, ◌==◌, if◌then◌else◌, arith, Bool, List, [], ◌∷◌, ◌++◌, length,
  replicate,
}
use terminus_store.Prelude.Outcome.{Outcome, ok, panic, assert}
use terminus_store.Structure.Word.{to_be_bytes}

-- The lists are what the `while` loop has not reached.
unfoldable pub common_loop : List ℕ → List ℕ → ℕ → ℕ
common_loop [] b2 common = common
common_loop (x ∷ b1) [] common = common
common_loop (x ∷ b1) (y ∷ b2) common =
    let further = common_loop b1 b2 (common + 1) in if x == y then further else common

unfoldable pub find_common_prefix : List ℕ → List ℕ → ℕ
unfolding common_loop
find_common_prefix b1 b2 = common_loop b1 b2 0

-- A sink is the list of the bytes written to it; the count stands beside it.
unfoldable pub write_nul_terminated_bytes : List ℕ → List ℕ → List ℕ × ℕ
write_nul_terminated_bytes w bytes = ((w ++ bytes) ++ (0 ∷ []), length bytes + 1)

-- The remainder by a width of zero panics.
unfoldable pub write_padding : List ℕ → ℕ → ℕ → Outcome (List ℕ)
write_padding w current_pos width =
    assert (if width == 0 then Bool.false else Bool.true)
      (ok (w ++ replicate ((width - current_pos % width) % width) 0))

unfoldable pub write_u64 : List ℕ → ℕ → List ℕ
write_u64 w num = w ++ to_be_bytes 8 num
