-- ===== src/Structure/Util/Padding.antt =====
-- src/structure/util.rs: `write_padding` fills a file up to the next multiple of the width.
use terminus_store.Prelude.{
  ℕ, ◌+◌, ◌-◌, ◌%◌, ◌<◌, ◌≡◌, ap, ◌∙◌, sym, arith, List, ◌++◌, length, replicate, length-append,
  length-replicate,
}
use native.Mathlib.Nat.{mod-lt, mod_self, add-mod-mod, mod-add-mod}
use terminus_store.Prelude.Outcome.{ok}
use terminus_store.Structure.Util.{write_padding}

pad_lem :
    (pos width : ℕ)
    → 0 < width
    → ((width - pos % width) % width < width) × ((pos + (width - pos % width) % width) % width ≡ 0)
pad_lem pos width h =
    let low : pos % width < width = mod-lt pos h in
    (
      mod-lt (width - pos % width) h,
      add-mod-mod pos (width - pos % width) width
          ∙ sym (mod-add-mod pos width (width - pos % width))
          ∙ ap (λ t. t % width) {x = pos % width + (width - pos % width)} {y = width} (omega arith)
          ∙ mod_self width,
    )

-- With the file's length as the position and a positive width, the zeros that are written are fewer
-- than the width and bring the length to a multiple of it.
pub length-write_padding :
    (w : List ℕ) (width : ℕ)
    → 0 < width
    → (n : ℕ) × (write_padding w (length w) width ≡ ok (w ++ replicate n 0))
      × (n < width)
      × (length (w ++ replicate n 0) % width ≡ 0)
unfolding write_padding
length-write_padding w width h =
    let (small, full) = pad_lem (length w) width h in
    let n = (width - length w % width) % width in
    (
      n,
      ground arith,
      small,
      ap (λ t. t % width)
            (length-append w (replicate n 0) ∙ ap (λ t. length w + t) (length-replicate n 0))
          ∙ full,
    )
