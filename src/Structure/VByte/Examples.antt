-- ===== src/Structure/VByte/Examples.antt =====
-- src/structure/vbyte.rs: runs of the functions, and the theorems at concrete inputs.
use terminus_store.Prelude.{
  ℕ, ◌≡◌, refl, ◌∷◌, ◌++◌, [], List, some, none, ltb, if◌then◌else◌, ◌==◌, ◌&&◌, arith, length,
  drop, ◌+◌,
}
use terminus_store.Structure.VByte.{
  encode_vec, decode, ok, err, encode_slice, encoding_len, unexpected_encoding_len,
  unexpected_end_of_buffer, encoded_value_too_large,
}
use terminus_store.Structure.VByte.Encode.{groups, encode_slice-groups, encode_vec-groups}
use terminus_store.Structure.VByte.Decode.{value, decode_marked, decode_overlong, decode_unended}
use terminus_store.Structure.VByte.RoundTrip.{decode-encode_slice, decode-encode_vec}

encode_300 : encode_vec 300 ≡ 44 ∷ 130 ∷ []
unfolding encode_vec
encode_300 = refl

encode_max :
    encode_vec 0xffff_ffff_ffff_ffff
    ≡ 127 ∷ 127 ∷ 127 ∷ 127 ∷ 127 ∷ 127 ∷ 127 ∷ 127 ∷ 127 ∷ 129 ∷ []
unfolding encode_vec
encode_max = refl

encode_short : encode_slice (7 ∷ []) 300 ≡ (7 ∷ [], none)
unfolding encode_slice
encode_short = refl

abbrev nine_zeros : List ℕ
nine_zeros = 0 ∷ 0 ∷ 0 ∷ 0 ∷ 0 ∷ 0 ∷ 0 ∷ 0 ∷ 0 ∷ []

encode_slice-groups_example : encode_slice (7 ∷ 8 ∷ 9 ∷ []) 300 ≡ (
    if ltb 3 (encoding_len 300)
    then (7 ∷ 8 ∷ 9 ∷ [], none)
    else (groups 10 300 ++ drop (encoding_len 300) (7 ∷ 8 ∷ 9 ∷ []), some (encoding_len 300)))
encode_slice-groups_example = encode_slice-groups (7 ∷ 8 ∷ 9 ∷ []) 300 (omega arith)

encode_vec-groups_example :
    (encode_vec 300 ≡ groups 10 300) × (length (encode_vec 300) ≡ encoding_len 300)
encode_vec-groups_example = encode_vec-groups 300 (omega arith)

fits_300 : (encode_slice (7 ∷ 8 ∷ 9 ∷ []) 300).1 ≡ some 2
unfolding encode_slice
fits_300 = refl

decode-encode_slice_example : decode (encode_slice (7 ∷ 8 ∷ 9 ∷ []) 300).0 ≡ ok (300, 2)
decode-encode_slice_example = decode-encode_slice (7 ∷ 8 ∷ 9 ∷ []) 300 2 (omega arith) fits_300

decode-encode_vec_example : decode (encode_vec 300 ++ (5 ∷ [])) ≡ ok (300, length (encode_vec 300))
decode-encode_vec_example = decode-encode_vec 300 (5 ∷ []) (omega arith)

decode_marked_example : decode (nine_zeros ++ (0x82 ∷ 5 ∷ [])) ≡ (
    if length nine_zeros == 9 && ltb 0x81 0x82
    then err encoded_value_too_large
    else ok (value (nine_zeros ++ (0x82 ∷ [])), length nine_zeros + 1))
decode_marked_example =
    decode_marked nine_zeros 0x82 (5 ∷ []) (omega arith) (omega arith) (omega arith) (omega arith)

decode_overlong_example : decode ((0 ∷ nine_zeros) ++ (0x80 ∷ [])) ≡ err unexpected_encoding_len
decode_overlong_example = decode_overlong (0 ∷ nine_zeros) (0x80 ∷ []) (omega arith) (omega arith)

decode_unended_example : decode nine_zeros ≡ err unexpected_end_of_buffer
decode_unended_example = decode_unended nine_zeros (omega arith) (omega arith)
