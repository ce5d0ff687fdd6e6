-- ===== src/Structure/VByte/RoundTrip.antt =====
-- src/structure/vbyte.rs: `decode` reads back what `encode_slice` and `encode_vec` write.
use terminus_store.Prelude.{
  ℕ, zero, suc, ◌+◌, ◌*◌, ◌/◌, ◌%◌, ◌^◌, ◌≤◌, ◌<◌, ◌≡◌, ap, ◌∙◌, arith, ltb, some, List, ◌++◌,
  length, drop, Bool-cases, inl, inr,
}
use terminus_store.Prelude.Bits.{two_pow_mono}
use terminus_store.Structure.VByte.{ok, decode, decode_loop, encode_slice, encode_vec, encoding_len}
use terminus_store.Structure.VByte.Encode.{
  groups, groups-last, groups-more, encode_slice-groups, encode_vec-groups, length-groups,
}
use terminus_store.Structure.VByte.Decode.{decode_loop-more, decode_loop-last, pow_seven}
use native.Mathlib.Nat.{div-add-mod, pow-suc}

shift_room : (v s : ℕ) → 128 ≤ v → v * 2 ^ s < 2 ^ 64 → s < 58
shift_room v s h fits = elim (Bool-cases (ltb s 58)) [
  | inl small ↦ ground arith
  | inr large ↦ let e = two_pow_mono 58 s (ground arith) in absurd (grind arith)
]

split_group : (v s : ℕ) → v * 2 ^ s ≡ v % 128 * 2 ^ s + v / 128 * 2 ^ (s + 7)
split_group v s = omega (
  arith,
  ap (λ (t : ℕ). t * 2 ^ s) (div-add-mod v 128),
  ap (λ (t : ℕ). v / 128 * t) (pow_seven s),
)

num_group : (v num s : ℕ) → num < 2 ^ s → num + v % 128 * 2 ^ s < 2 ^ (s + 7)
num_group v num s hn = let e = pow_seven s in let h : v % 128 < 128 = omega arith in grind arith

fuel_left : (k v : ℕ) → v < 128 ^ suc k → 128 ≤ v → 0 < k
fuel_left zero v h p = absurd (omega arith)
fuel_left (suc k) v h p = omega arith

decode_loop-groups :
    (k v i num shift : ℕ) (rest : List ℕ)
    → v < 128 ^ k
    → 0 < k
    → num < 2 ^ shift
    → num + v * 2 ^ shift < 2 ^ 64
    → decode_loop (groups k v ++ rest) i num shift
      ≡ ok (num + v * 2 ^ shift, i + length (groups k v))
decode_loop-groups zero v i num shift rest h p hn fits = absurd (omega arith)
decode_loop-groups (suc k) v i num shift rest h p hn fits = elim (Bool-cases (ltb v 128)) [
  | inl small ↦
      rw (groups-last k v (ground arith))
        (decode_loop-last v rest i num shift (ground arith) hn fits)
  | inr large ↦ rw (groups-more k v (ground arith)) (
      ground (
        arith,
        shift_room v shift,
        decode_loop-more (v % 128) (groups k (v / 128) ++ rest) i num shift (omega arith),
        split_group v shift,
        num_group v num shift hn,
        pow-suc 128 k,
        fuel_left k v,
        decode_loop-groups k (v / 128) (i + 1) (num + v % 128 * 2 ^ shift) (shift + 7) rest,
      ))
]

pub decode-groups :
    (v : ℕ) (rest : List ℕ) → v < 2 ^ 64 → decode (groups 10 v ++ rest) ≡ ok (v, encoding_len v)
unfolding decode
decode-groups v rest h =
    decode_loop-groups 10 v 0 0 0 rest (omega arith) (omega arith) (omega arith) (omega arith)
    ∙ ap ok (ground (arith, length-groups v h))

-- A u64 that `encode_slice` writes to a buffer, of any content, is what `decode` reads from that
-- buffer, with the same length.
pub decode-encode_slice :
    (buf : List ℕ) (num len : ℕ)
    → num < 2 ^ 64
    → (encode_slice buf num).1 ≡ some len
    → decode (encode_slice buf num).0 ≡ ok (num, len)
decode-encode_slice buf num len h e = elim (Bool-cases (ltb (length buf) (encoding_len num))) [
  | inl short ↦ absurd (ground (arith, encode_slice-groups buf num h))
  | inr fits ↦
      ground
        (arith, encode_slice-groups buf num h, decode-groups num (drop (encoding_len num) buf) h)
]

-- `decode` reads a u64 back from what `encode_vec` returns, whatever follows it in the buffer, and
-- counts exactly the bytes that were written.
pub decode-encode_vec :
    (num : ℕ) (rest : List ℕ)
    → num < 2 ^ 64
    → decode (encode_vec num ++ rest) ≡ ok (num, length (encode_vec num))
decode-encode_vec num rest h =
    let (e, n) = encode_vec-groups num h in rw (e, length-groups num h) (decode-groups num rest h)
