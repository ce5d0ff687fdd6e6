-- ===== src/Structure/VByte/Encode.antt =====
-- src/structure/vbyte.rs: what `encode_slice` and `encode_vec` write.
use terminus_store.Prelude.{
  ℕ, zero, suc, ◌+◌, ◌*◌, ◌/◌, ◌%◌, ◌^◌, ◌≤◌, ◌<◌, ◌≡◌, append_assoc, append-nil, take-append-drop,
  length-take, false, length-append, set-append, nil_of_length, refl, ap, ◌∙◌, bit_and, bit_or,
  arith, lt_wf, ltb, if◌then◌else◌, List, [], ◌∷◌, ◌++◌, length, set, take, drop, replicate, some,
  none, Bool-cases, inl, inr, length-replicate,
}
use terminus_store.Prelude.Bits.{bit_or_add, bit_and_mask, bit_or_comm, half-two_pow-suc}
use terminus_store.Structure.VByte.{
  set_msb, shift_shrinks, encoding_len, encode_loop, encode_unchecked, encode_slice, encode_vec,
}
use terminus_store.Structure.Word.{bit_length_loop}
use mathlib.Core.WellFounded.{Acc}
use mathlib.Core.Logic.{dif_pos}
use native.Mathlib.Bridge.{le_prop}
use native.Mathlib.Decide.{dec_le}

-- The groups of seven bits of `v`, lowest first, the last one marked, for `v` below `128 ^ k`.
unfoldable pub groups : ℕ → ℕ → List ℕ
groups zero v = []
groups (suc k) v =
    let rest = groups k (v / 128) in if ltb v 128 then (v + 128) ∷ [] else (v % 128) ∷ rest

pub clear_msb_lem : (b : ℕ) → bit_and b 0x7f ≡ b % 128
clear_msb_lem b = bit_and_mask 7 b

pub set_msb_lem : (g : ℕ) → g < 128 → bit_or g 0x80 ≡ g + 128
set_msb_lem g h = bit_or_comm g 0x80 ∙ bit_or_add 7 1 g h ∙ omega arith

-- `num` fits as many bits as the fuel of `bit_length_loop` for `k` groups.
abbrev group_bits : ℕ → ℕ
group_bits zero = 0
group_bits (suc k) = suc (suc (suc (suc (suc (suc (suc (group_bits k)))))))

bit_length-zero : (fuel : ℕ) → bit_length_loop fuel 0 ≡ 0
unfolding bit_length_loop
bit_length-zero zero = refl
bit_length-zero (suc fuel) = refl

bit_length-small :
    (fuel v : ℕ)
    → 0 < v
    → v < 128
    → (1 ≤ bit_length_loop (suc (suc (suc (suc (suc (suc (suc fuel))))))) v)
      × (bit_length_loop (suc (suc (suc (suc (suc (suc (suc fuel))))))) v ≤ 7)
unfolding bit_length_loop
bit_length-small fuel v p h = ground (arith, bit_length-zero fuel)

seven_halves : (v : ℕ) → v / 2 / 2 / 2 / 2 / 2 / 2 / 2 ≡ v / 128
seven_halves v = omega arith

bit_length-le : (fuel v : ℕ) → bit_length_loop fuel v ≤ fuel
unfolding bit_length_loop
bit_length-le zero v = omega arith
bit_length-le (suc fuel) v = ground (arith, bit_length-le fuel (v / 2))

bit_length-large :
    (fuel v : ℕ)
    → 128 ≤ v
    → bit_length_loop (suc (suc (suc (suc (suc (suc (suc fuel))))))) v
      ≡ 7 + bit_length_loop fuel (v / 128)
unfolding bit_length_loop
bit_length-large fuel v h = ground (arith, ap (bit_length_loop fuel) (seven_halves v))

two_pow_seven : (n : ℕ) → 2 ^ suc (suc (suc (suc (suc (suc (suc n)))))) ≡ 128 * 2 ^ n
two_pow_seven n = omega (arith, half-two_pow-suc)

length-groups_loop :
    (k v : ℕ)
    → 0 < v
    → v < 2 ^ suc (group_bits k)
    → length (groups (suc k) v) ≡ (6 + bit_length_loop (suc (group_bits k)) v) / 7
unfolding groups
length-groups_loop zero v p h = unfold bit_length_loop in ground arith
length-groups_loop (suc k) v p h = elim (Bool-cases (ltb v 128)) [
  | inl small ↦ rw small (omega (arith, bit_length-small (suc (group_bits k)) v p (ground arith)))
  | inr large ↦ rw large (
      omega (
        arith,
        bit_length-large (suc (group_bits k)) v (ground arith),
        length-groups_loop k (v / 128) (ground arith)
            (omega (arith, two_pow_seven (suc (group_bits k)))),
      ))
]

-- `encoding_len` is the number of groups, on every u64.
pub length-groups : (v : ℕ) → v < 2 ^ 64 → length (groups 10 v) ≡ encoding_len v
unfolding encoding_len
length-groups zero h = unfold groups in refl
length-groups (suc v) h =
    omega (arith, length-groups_loop 9 (suc v) (omega arith) h, bit_length-le 64 (suc v))

pub groups-last : (k v : ℕ) → v < 128 → groups (suc k) v ≡ (v + 128) ∷ []
unfolding groups
groups-last k v h = ground arith

pub groups-more : (k v : ℕ) → 128 ≤ v → groups (suc k) v ≡ (v % 128) ∷ groups k (v / 128)
unfolding groups
groups-more k v h = ground arith

encode_loop-last :
    (buf : List ℕ) (num i : ℕ) (w : Acc ◌<◌ num)
    → num < 128
    → encode_loop buf num i w ≡ (set buf i (num + 128), i + 1)
unfolding encode_loop
encode_loop-last buf num i (Acc.intro _ smaller) h =
    ground (arith, set_msb_lem (num % 256), ap (set_msb) {x = num % 256} {y = num} (omega arith))

encode_loop-more :
    (buf : List ℕ) (num i : ℕ) (w : Acc ◌<◌ num)
    → 128 ≤ num
    → (w' : Acc ◌<◌ (num / 128)) × (encode_loop buf num i w
        ≡ encode_loop (set buf i (num % 128)) (num / 128) (i + 1) w')
unfolding encode_loop
encode_loop-more buf num i (Acc.intro _ smaller) h = (
  smaller _ (shift_shrinks num h),
  rw (dif_pos (dec_le 128 num) le_prop h) (
      ap (λ t. encode_loop (set buf i t) (num / 128) (i + 1) (smaller _ (shift_shrinks num h)))
        (clear_msb_lem (num % 256) ∙ omega arith)),
)

pub groups-pos : (k v : ℕ) → v < 128 ^ k → 0 < v → 0 < length (groups k v)
unfolding groups
groups-pos zero v h p = absurd (omega arith)
groups-pos (suc k) v h p = ground arith

-- The loop writes the groups behind `front` and leaves what follows them.
encode_loop-groups :
    (k num : ℕ) (front written back : List ℕ) (w : Acc ◌<◌ num)
    → num < 128 ^ k
    → length (groups k num) ≡ length written
    → 0 < length written
    → encode_loop (front ++ (written ++ back)) num (length front) w
      ≡ (front ++ (groups k num ++ back), length front + length written)
encode_loop-groups k num front [] back w h fits p = absurd (omega arith)
encode_loop-groups zero num front (x ∷ written) back w h fits p =
    absurd (unfold groups in omega arith)
encode_loop-groups (suc k) num front (x ∷ written) back w h fits p =
    elim (Bool-cases (ltb num 128)) [
      | inl small ↦
          let e = groups-last k num (ground arith) in
          let n : length written ≡ 0 = omega (arith, ap length e) in
          encode_loop-last _ num (length front) w (ground arith)
          ∙ ground (arith, e, nil_of_length written n, set-append front x back (num + 128))
      | inr large ↦
          let e = groups-more k num (ground arith) in
          let b : List ℕ = (num % 128) ∷ [] in
          let (w', step) =
            encode_loop-more (front ++ (x ∷ (written ++ back))) num (length front) w
              (ground arith) in
          ground (
            arith,
            step,
            e,
            set-append front x (written ++ back) (num % 128),
            append_assoc front b (written ++ back),
            append_assoc front b (groups k (num / 128) ++ back),
            length-append front b,
            groups-pos k (num / 128) (ground arith) (ground arith),
            encode_loop-groups k (num / 128) (front ++ b) written back w' (ground arith),
          )
    ]

encoding_len-pos : (num : ℕ) → num < 2 ^ 64 → 1 ≤ encoding_len num
encoding_len-pos num h = elim (Bool-cases (ltb 0 num)) [
  | inl p ↦ omega (arith, length-groups num h, groups-pos 10 num (omega arith) (ground arith))
  | inr z ↦ let e : num ≡ 0 = ground arith in rw e (unfold encoding_len in omega arith)
]

ltb-ge : (a b : ℕ) → ltb a b ≡ false → b ≤ a
ltb-ge a b h = ground arith

encode_unchecked-groups :
    (num : ℕ) (written back : List ℕ)
    → num < 2 ^ 64
    → length written ≡ encoding_len num
    → encode_unchecked (written ++ back) num ≡ (groups 10 num ++ back, length written)
unfolding encode_unchecked
encode_unchecked-groups num written back h fits =
    encode_loop-groups 10 num [] written back (lt_wf.apply num) (omega arith)
      (omega (arith, length-groups num h)) (omega (arith, encoding_len-pos num h))
    ∙ ap (λ t. (groups 10 num ++ back, t)) (omega arith)

-- On a u64, `encode_slice` refuses a buffer shorter than `encoding_len` and leaves it as it is;
-- otherwise it writes the groups of seven bits at the front, keeps the rest of the buffer, and
-- returns `encoding_len`.
pub encode_slice-groups :
    (buf : List ℕ) (num : ℕ)
    → num < 2 ^ 64
    → encode_slice buf num ≡ (
        if ltb (length buf) (encoding_len num)
        then (buf, none)
        else (groups 10 num ++ drop (encoding_len num) buf, some (encoding_len num)))
unfolding encode_slice
encode_slice-groups buf num h = elim (Bool-cases (ltb (length buf) (encoding_len num))) [
  | inl short ↦ rw short
  | inr fits ↦
      let n = encoding_len num in
      let front-length : length (take n buf) ≡ n =
        omega (arith, length-take n buf, ltb-ge (length buf) n fits) in
      rw fits (
        ground (
          arith,
          take-append-drop n buf,
          encode_unchecked-groups num (take n buf) (drop n buf) h front-length,
        ))
]

-- `encode_vec` returns the groups of seven bits of a u64, as many as `encoding_len`.
pub encode_vec-groups :
    (num : ℕ)
    → num < 2 ^ 64
    → (encode_vec num ≡ groups 10 num) × (length (encode_vec num) ≡ encoding_len num)
unfolding encode_vec
encode_vec-groups num h =
    let zeros : List ℕ = replicate (encoding_len num) 0 in
    let e : (encode_unchecked zeros num).0 ≡ groups 10 num = ground (
      arith,
      append-nil zeros,
      append-nil (groups 10 num),
      length-replicate {A = ℕ} (encoding_len num) 0,
      encode_unchecked-groups num zeros [] h,
    ) in
    (e, ap length e ∙ length-groups num h)
