-- ===== src/Structure/BitArray/Blocks.antt =====
-- src/structure/bitarray.rs: the block decoder returns the words of the file.
use terminus_store.Prelude.{
  ℕ, suc, ◌≤◌, map, Bool-cases, ltb, inl, inr, ◌^◌, ◌<◌, ◌≡◌, refl, ap, ◌∙◌, sym, arith, List, [],
  ◌∷◌, ◌++◌, length, length-append, append_assoc, append-nil, Option, none, some, take, drop,
  drop-append, take-append,
}
use terminus_store.Structure.Word.{to_be_bytes, ByteOrder}
use terminus_store.Structure.Word.Bytes.{
  word_bytes, AllWords, length-word_bytes, length-to_be_bytes, to_be_bytes-AllBytes,
  be_value-to_be_bytes,
}
use terminus_store.Structure.BitArray.{
  decode_ahead, decode, Decoded, block_decode, bitarray_stream_blocks,
}
use terminus_store.Prelude.Outcome.{Outcome, ok}
use terminus_store.Structure.Framed.{FramedRead, open_file}
use mathlib.Core.Path.{subst}
use terminus_store.Structure.Framed.Yields.{Fits, append_front, yields-all}

length-zero : (xs : List ℕ) → length xs ≡ 0 → xs ≡ []
length-zero [] e = refl
length-zero (x ∷ xs) e = absurd (omega (arith, e))

module _ (order : ByteOrder) where
  pub take-word : (x : ℕ) (rest : List ℕ) → take 8 (to_be_bytes 8 x ++ rest) ≡ to_be_bytes 8 x
  take-word x rest =
      ap (λ n. take n (to_be_bytes 8 x ++ rest)) (sym (length-to_be_bytes 8 x))
      ∙ take-append (to_be_bytes 8 x) rest

  pub drop-word : (x : ℕ) (rest : List ℕ) → drop 8 (to_be_bytes 8 x ++ rest) ≡ rest
  drop-word x rest =
      ap (λ n. drop n (to_be_bytes 8 x ++ rest)) (sym (length-to_be_bytes 8 x))
      ∙ drop-append (to_be_bytes 8 x) rest

  pub read-word : (x : ℕ) → x < 2 ^ 64 → order.read_u64 (to_be_bytes 8 x) ≡ x
  read-word x h =
      ap order.read_u64 (sym (append-nil (to_be_bytes 8 x)))
      ∙ order.read_u64_front (to_be_bytes 8 x) [] (length-to_be_bytes 8 x)
          (to_be_bytes-AllBytes 8 x)
      ∙ be_value-to_be_bytes 8 x
      ∙ omega arith

  -- A call with a word in hand and another one to read returns the former.
  decode_ahead-word :
      (word x : ℕ) (rest : List ℕ)
      → decode_ahead order word (to_be_bytes 8 x ++ rest) ≡ record {
        readahead = some (order.read_u64 (to_be_bytes 8 x));
        bytes = rest;
        item = some word;
      }
  unfolding decode_ahead
  decode_ahead-word word x rest = ground (
    arith,
    length-append (to_be_bytes 8 x) rest,
    length-to_be_bytes 8 x,
    take-word x rest,
    drop-word x rest,
  )

  decode_ahead-short :
      (word : ℕ) (bytes : List ℕ)
      → length bytes < 8
      → decode_ahead order word bytes ≡ record { readahead = some word; bytes = bytes; item = none }
  unfolding decode_ahead
  decode_ahead-short word bytes h = ground arith

  -- The first call reads a word before it returns one.
  decode-none :
      (x : ℕ) (rest : List ℕ)
      → decode order none (to_be_bytes 8 x ++ rest)
        ≡ decode_ahead order (order.read_u64 (to_be_bytes 8 x)) rest
  unfolding decode
  decode-none x rest = ground (
    arith,
    length-append (to_be_bytes 8 x) rest,
    length-to_be_bytes 8 x,
    take-word x rest,
    drop-word x rest,
  )

  decode-short :
      (bytes : List ℕ)
      → length bytes < 8
      → decode order none bytes ≡ record { readahead = none; bytes = bytes; item = none }
  unfolding decode
  decode-short bytes h = ground arith

  module _ (control : ℕ) where
    abbrev file_from : List ℕ → List ℕ
    file_from ws = word_bytes ws ++ to_be_bytes 8 control

    -- The blocks that are left to return, by the decoder's `readahead`, which ends with the control
    -- word.
    abbrev Expects : Option ℕ → List ℕ → List ℕ → Type 0
    Expects none ws bytes = AllWords ws × (bytes ≡ file_from ws)
    Expects (some word) [] bytes = bytes ≡ []
    Expects (some word) (w ∷ ws) bytes = (word ≡ w) × AllWords ws × (bytes ≡ file_from ws)

    abbrev result : Decoded → Outcome (Option ℕ × Option ℕ × List ℕ)
    result step = ok (step.item, step.readahead, step.bytes)

    -- The next word of a file, once the buffer has it.
    next_word :
        (x : ℕ) (rest buffer unread : List ℕ)
        → 8 ≤ length buffer
        → buffer ++ unread ≡ to_be_bytes 8 x ++ rest
        → (more : List ℕ) × (buffer ≡ to_be_bytes 8 x ++ more) × (more ++ unread ≡ rest)
    next_word x rest buffer unread h e =
        append_front (to_be_bytes 8 x) rest buffer unread (omega (arith, length-to_be_bytes 8 x)) e

    length-file_from : (ws : List ℕ) → 8 ≤ length (file_from ws)
    length-file_from ws =
        omega (
          arith,
          length-append (word_bytes ws) (to_be_bytes 8 control),
          length-to_be_bytes 8 control,
        )

    -- The file does not end in a buffer that is too short for a word.
    not_at_end :
        {A : Type 0} (ws buffer unread : List ℕ)
        → length buffer < 8
        → buffer ++ unread ≡ file_from ws
        → unread ≡ []
        → A
    not_at_end ws buffer unread h e last = absurd (
        omega
          (arith, length-file_from ws, ap length e, length-append buffer unread, ap length last))

    -- A call with a word in hand and a full word in the buffer.
    ahead_full :
        (word : ℕ) (vals buffer unread : List ℕ)
        → 8 ≤ length buffer
        → AllWords vals
        → buffer ++ unread ≡ file_from vals
        → Fits Expects (word ∷ vals) unread (result (decode_ahead order word buffer))
    unfolding word_bytes
    ahead_full word [] buffer unread h a e =
        let (more, front, back) =
          next_word control [] buffer unread h (e ∙ sym (append-nil (to_be_bytes 8 control))) in
        subst (λ step. Fits Expects (word ∷ []) unread (result step))
          (sym (ap (decode_ahead order word) front ∙ decode_ahead-word word control more))
          ([], refl, back)
    ahead_full word (w ∷ vals) buffer unread h (small, a) e =
        let (more, front, back) =
          next_word w (file_from vals) buffer unread h
            (e ∙ append_assoc (to_be_bytes 8 w) (word_bytes vals) (to_be_bytes 8 control)) in
        subst (λ step. Fits Expects (word ∷ w ∷ vals) unread (result step))
          (sym (ap (decode_ahead order word) front ∙ decode_ahead-word word w more))
          (w ∷ vals, refl, (read-word w small, a, back))

    ahead-Fits :
        (word : ℕ) (vals buffer unread : List ℕ)
        → Expects (some word) vals (buffer ++ unread)
        → Fits Expects vals unread (result (decode_ahead order word buffer))
    ahead-Fits word [] buffer unread inv =
        let none_left : length buffer ≡ 0 =
          omega (arith, ap length inv, length-append buffer unread) in
        subst (λ step. Fits Expects [] unread (result step))
          (sym (decode_ahead-short word buffer (omega (arith, none_left))))
          (inv, λ last. (refl, length-zero buffer none_left))
    ahead-Fits word (v ∷ vals) buffer unread (same, a, e) =
        elim (Bool-cases (ltb (length buffer) 8)) [
          | inl short ↦
              subst (λ step. Fits Expects (v ∷ vals) unread (result step))
                (sym (decode_ahead-short word buffer (ground arith)))
                ((same, a, e), not_at_end vals buffer unread (ground arith) e)
          | inr full ↦
              subst (λ t. Fits Expects (t ∷ vals) unread (result (decode_ahead order word buffer)))
                same (ahead_full word vals buffer unread (ground arith) a e)
        ]

    -- The first call, with a full word in the buffer.
    first_full :
        (vals buffer unread : List ℕ)
        → 8 ≤ length buffer
        → AllWords vals
        → buffer ++ unread ≡ file_from vals
        → Fits Expects vals unread (result (decode order none buffer))
    unfolding word_bytes
    first_full [] buffer unread h a e =
        let (more, front, back) =
          next_word control [] buffer unread h (e ∙ sym (append-nil (to_be_bytes 8 control))) in
        subst (λ step. Fits Expects [] unread (result step))
          (sym (ap (decode order none) front ∙ decode-none control more))
          (ahead-Fits _ [] more unread back)
    first_full (w ∷ vals) buffer unread h (small, a) e =
        let (more, front, back) =
          next_word w (file_from vals) buffer unread h
            (e ∙ append_assoc (to_be_bytes 8 w) (word_bytes vals) (to_be_bytes 8 control)) in
        subst (λ step. Fits Expects (w ∷ vals) unread (result step))
          (sym (ap (decode order none) front ∙ decode-none w more))
          (ahead-Fits _ (w ∷ vals) more unread (read-word w small, a, back))

    decode-Fits :
        (readahead : Option ℕ) (vals buffer unread : List ℕ)
        → Expects readahead vals (buffer ++ unread)
        → Fits Expects vals unread (block_decode order readahead buffer)
    unfolding decode
    decode-Fits none vals buffer unread (a, e) = elim (Bool-cases (ltb (length buffer) 8)) [
      | inl short ↦
          subst (λ step. Fits Expects vals unread (result step))
            (sym (decode-short buffer (ground arith)))
            ((a, e), not_at_end vals buffer unread (ground arith) e)
      | inr full ↦ first_full vals buffer unread (ground arith) a e
    ]
    decode-Fits (some word) vals buffer unread inv = ahead-Fits word vals buffer unread inv

  -- The stream yields the words of a file in their order, and not its control word.
  pub bitarray_stream_blocks-words :
      (framed : FramedRead) (ws : List ℕ) (control : ℕ)
      → AllWords ws
      → bitarray_stream_blocks framed order (word_bytes ws ++ to_be_bytes 8 control) ≡ map ok ws
  unfolding bitarray_stream_blocks
  bitarray_stream_blocks-words framed ws control a =
      yields-all (Expects control) (block_decode order) (decode-Fits control) framed
        (suc (length (word_bytes ws ++ to_be_bytes 8 control))) ws
        (open_file none (word_bytes ws ++ to_be_bytes 8 control))
        (omega (arith, length-append (word_bytes ws) (to_be_bytes 8 control), length-word_bytes ws))
        (a, refl)
