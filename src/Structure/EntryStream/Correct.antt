-- ===== src/Structure/EntryStream/Correct.antt =====
-- src/structure/logarray.rs: the stream of entries of a file is the list that was pushed.
use terminus_store.Prelude.{
  ℕ, suc, ◌+◌, ◌*◌, ◌^◌, ◌≤◌, ◌<◌, ◌≡◌, ap, ◌∙◌, sym, arith, List, [], ◌∷◌, length, map, refl, inr,
}
use terminus_store.Prelude.Outcome.{ok, err, panic, invalid_data}
use terminus_store.Structure.Word.{ByteOrder}
use terminus_store.Structure.LogArray.{
  LogArray, LogArrayFileBuilder, ParseResult, parse, parsed, rejected, panicked, push_vec, new,
  finalize,
}
use terminus_store.Structure.LogArray.Invariant.{AllFit}
use terminus_store.Structure.LogArray.Stream.{stream, stream-tail}
use terminus_store.Structure.LogArray.RoundTrip.{Stores}
use terminus_store.Structure.LogArray.Correct.{built}
use terminus_store.Structure.EntryStream.{
  logarray_file_get_length_and_width, logarray_stream_entries, decode, new_unchecked,
}
use mathlib.Core.Path.{ap₂}
use terminus_store.Structure.EntryStream.Decoder.{HoldsFrom}
use terminus_store.Structure.EntryStream.Expects.{Expects, decode-Fits}
use terminus_store.Structure.Framed.{FramedRead, open_file, yields}
use terminus_store.Structure.Framed.Yields.{yields-all}

-- What `parse` finds in the control word, and that its array is the whole file.
parse_parts :
    (order : ByteOrder) (file : List ℕ) (array : LogArray)
    → parse order file ≡ parsed array
    → (logarray_file_get_length_and_width order file ≡ parsed (array.len, array.width))
      × (array.first ≡ 0)
      × (array.input_buf ≡ file)
unfolding parse logarray_file_get_length_and_width
parse_parts order file array e = (ground arith, ground arith, ground arith)

stream_entries-parsed :
    (framed : FramedRead) (order : ByteOrder) (file : List ℕ) (len width : ℕ)
    → logarray_file_get_length_and_width order file ≡ parsed (len, width)
    → logarray_stream_entries framed order file
      ≡ ok (yields framed (decode order) (suc len) (open_file (new_unchecked width len) file))
unfolding logarray_stream_entries
stream_entries-parsed framed order file len width e =
    ap
      (λ (r : ParseResult (ℕ × ℕ)). elim r [
        | parsed control ↦ ok (
            yields framed (decode order) (suc control.0)
              (open_file (new_unchecked control.1 control.0) file))
        | rejected e ↦ err invalid_data
        | panicked ↦ panic
      ])
      e

-- The decoder over a whole array.
module _ (order : ByteOrder) (array : LogArray) (ws control vals : List ℕ)
    (s : Stores array ws control vals) (start : array.first ≡ 0) where
  position : (i j : ℕ) → 64 + array.width * i + j ≡ array.width * (array.first + i) + j + 64
  position i j =
      let e : array.width * (array.first + i) ≡ array.width * i =
        ap (λ t. array.width * t) (omega arith) in
      omega (arith, e)

  array-HoldsFrom : HoldsFrom array.width 64 (0 ∷ ws) vals
  array-HoldsFrom i j hi hj =
      ap (stream (0 ∷ ws)) (position i j)
      ∙ stream-tail 0 ws (array.width * (array.first + i) + j)
      ∙ s.stored i j hi hj

  size : 64 + array.width * length vals ≤ 64 + 64 * length ws
  size =
      let e : array.width * (array.first + array.len) ≡ array.width * length vals =
        ap (λ t. array.width * t) (omega (arith, s.sized)) in
      omega (arith, e, s.inside)

  start-Expects :
      AllFit array.width vals
      → Expects order array.width s.wide s.narrow control
          (new_unchecked array.width (length vals))
          vals
          array.input_buf
  start-Expects fit = record {
    current = 0;
    offset = 64;
    words = ws;
    self_is = refl;
    small = s.words;
    fit = fit;
    offset_small = omega arith;
    inside = size;
    held = array-HoldsFrom;
    bytes_are = inr s.laid_out;
  }

  array-entries :
      (framed : FramedRead)
      → AllFit array.width vals
      → yields framed
          (decode order)
          (suc (length vals))
          (open_file (new_unchecked array.width (length vals)) array.input_buf)
        ≡ map ok vals
  array-entries framed fit =
      yields-all (Expects order array.width s.wide s.narrow control) (decode order)
        (decode-Fits order array.width s.wide s.narrow control) framed (suc (length vals)) vals
        (open_file (new_unchecked array.width (length vals)) array.input_buf) (omega arith)
        (start-Expects fit)

module _ (framed : FramedRead) (order : ByteOrder) (width : ℕ) (vals : List ℕ) (wide : 1 ≤ width)
    (narrow : width ≤ 64) (fit : AllFit width vals) (few : length vals < 2 ^ 32) where
  -- Values that fit the width of a new builder, 1 to 64 bits, and are fewer than 2 ^ 32, can all be
  -- pushed, and the stream of `logarray_stream_entries` yields exactly them from the finished file, in
  -- their order and without an error, whatever chunks the `FramedRead` reads the file in.
  pub logarray_stream_entries-push_vec :
      (b : LogArrayFileBuilder) × (push_vec (new [] width) vals ≡ ok b)
      × (logarray_stream_entries framed order (finalize order b) ≡ ok (map ok vals))
  logarray_stream_entries-push_vec =
      let (b, array, ws, control, pushed, accepted, sized, same, s) =
        built order width vals wide narrow fit few in
      let (found, start, buffer) = parse_parts order (finalize order b) array accepted in
      let fit' : AllFit array.width vals = rw same fit in
      (
        b,
        pushed,
        stream_entries-parsed framed order (finalize order b) array.len array.width found
            ∙ ap₂
                (λ n file. ok (
                  yields framed (decode order) (suc n)
                    (open_file (new_unchecked array.width n) file)))
                sized (sym buffer)
            ∙ ap ok (array-entries order array ws control vals s start framed fit'),
      )
