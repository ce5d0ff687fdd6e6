-- ===== src/Structure/Framed.antt =====
-- src/structure/bitarray.rs, src/structure/logarray.rs: what the streams of a file rely on of
-- `FramedRead` in the crate `tokio-util`, which is a parameter.
pub mod Sample
pub mod Yields
use terminus_store.Prelude.{ℕ, zero, suc, ◌≡◌, ap, List, [], ◌∷◌, ◌++◌, Option, none, some}
use terminus_store.Prelude.Outcome.{Outcome, IoError, ok, err, panic, other}

-- `Decoder::decode` of the crate: the item, the decoder and the buffer that a call leaves.
abbrev pub Decode : Type 0 → Type 0
Decode S = S → List ℕ → Outcome (Option ℕ × S × List ℕ)

-- The decoder, the buffer, and the bytes that are not read yet.
pub record Framed (S : Type 0) : Type 0 where
  pub codec : S
  pub buffer : List ℕ
  pub unread : List ℕ

abbrev pub open_file : {S : Type 0} → S → List ℕ → Framed S
open_file codec file = record { codec = codec; buffer = []; unread = file }

-- What asking for the next item may come to, as the crate documents it. Bytes of any number are read
-- behind the buffer at any time; a call that returns no item waits for more of them. At the end of
-- the file, where `decode_eof` calls `decode` as it does unless it is overridden, the stream ends if a
-- call returns no item and leaves no bytes, and fails if it leaves some.
pub data Asks {S : Type 0} (decode : Decode S)
    : Framed S → Outcome (Option ℕ × Framed S) → Type 0 where
  read :
      {codec : S} {buffer unread : List ℕ} {result : Outcome (Option ℕ × Framed S)}
      (front back : List ℕ)
      → unread ≡ front ++ back
      → Asks decode (record { codec = codec; buffer = buffer ++ front; unread = back }) result
      → Asks decode (record { codec = codec; buffer = buffer; unread = unread }) result
  wait :
      {codec : S} {buffer unread : List ℕ} {result : Outcome (Option ℕ × Framed S)} (codec' : S)
      (buffer' : List ℕ)
      → decode codec buffer ≡ ok (none, codec', buffer')
      → Asks decode (record { codec = codec'; buffer = buffer'; unread = unread }) result
      → Asks decode (record { codec = codec; buffer = buffer; unread = unread }) result
  item :
      {codec : S} {buffer unread : List ℕ} (value : ℕ) (codec' : S) (buffer' : List ℕ)
      → decode codec buffer ≡ ok (some value, codec', buffer')
      → Asks decode
          (record { codec = codec; buffer = buffer; unread = unread })
          (ok (some value, record { codec = codec'; buffer = buffer'; unread = unread }))
  ends :
      {codec : S} {buffer : List ℕ} (codec' : S)
      → decode codec buffer ≡ ok (none, codec', [])
      → Asks decode
          (record { codec = codec; buffer = buffer; unread = [] })
          (ok (none, record { codec = codec'; buffer = []; unread = [] }))
  left_over :
      {codec : S} {buffer : List ℕ} (codec' : S) (byte : ℕ) (bytes : List ℕ)
      → decode codec buffer ≡ ok (none, codec', byte ∷ bytes)
      → Asks decode (record { codec = codec; buffer = buffer; unread = [] }) (err other)
  fails :
      {codec : S} {buffer unread : List ℕ} (e : IoError)
      → decode codec buffer ≡ err e
      → Asks decode (record { codec = codec; buffer = buffer; unread = unread }) (err e)
  panics :
      {codec : S} {buffer unread : List ℕ}
      → decode codec buffer ≡ panic
      → Asks decode (record { codec = codec; buffer = buffer; unread = unread }) panic

-- `FramedRead` as the streams use it: a function that asks for the next item, as documented.
pub record FramedRead : Type 1 where
  pub ask : {S : Type 0} → Decode S → Framed S → Outcome (Option ℕ × Framed S)
  pub asks : {S : Type 0} (decode : Decode S) (self : Framed S) → Asks decode self (ask decode self)

module _ (framed : FramedRead) {S : Type 0} (decode : Decode S) where
  -- All that a stream yields, values and errors, until it ends or fails. A round of fuel is a call;
  -- out of fuel the last of them is a panic.
  unfoldable pub yields : ℕ → Framed S → List (Outcome ℕ)
  yields zero self = panic ∷ []
  yields (suc fuel) self = elim (framed.ask decode self) [
    | ok step ↦ elim step.0 [ none ↦ [] | some value ↦ ok value ∷ yields fuel step.1 ]
    | err e ↦ err e ∷ []
    | panic ↦ panic ∷ []
  ]

  pub yields-none :
      (fuel : ℕ) (self self' : Framed S)
      → framed.ask decode self ≡ ok (none, self')
      → yields (suc fuel) self ≡ []
  unfolding yields
  yields-none fuel self self' e =
      ap
        (λ (r : Outcome (Option ℕ × Framed S)). elim r [
          | ok step ↦ elim step.0 [ none ↦ [] | some value ↦ ok value ∷ yields fuel step.1 ]
          | err e ↦ err e ∷ []
          | panic ↦ panic ∷ []
        ])
        e

  pub yields-some :
      (fuel : ℕ) (self self' : Framed S) (value : ℕ)
      → framed.ask decode self ≡ ok (some value, self')
      → yields (suc fuel) self ≡ ok value ∷ yields fuel self'
  unfolding yields
  yields-some fuel self self' value e =
      ap
        (λ (r : Outcome (Option ℕ × Framed S)). elim r [
          | ok step ↦ elim step.0 [ none ↦ [] | some value ↦ ok value ∷ yields fuel step.1 ]
          | err e ↦ err e ∷ []
          | panic ↦ panic ∷ []
        ])
        e
