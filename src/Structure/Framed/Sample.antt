-- ===== src/Structure/Framed/Sample.antt =====
-- A stream that reads a file byte by byte, as a sample of the crate's.
use terminus_store.Prelude.{ℕ, ◌≡◌, refl, List, [], ◌∷◌, ◌++◌, Option, none, some}
use terminus_store.Prelude.Outcome.{Outcome, ok, err, panic, other}
use terminus_store.Structure.Framed.{Decode, Framed, Asks, FramedRead}

module _ {S : Type 0} (decode : Decode S) where
  unfoldable pub at_end : S → List ℕ → Outcome (Option ℕ × Framed S)
  at_end codec [] = ok (none, record { codec = codec; buffer = []; unread = [] })
  at_end codec (byte ∷ bytes) = err other

  unfoldable pub ask_bytes : S → List ℕ → List ℕ → Outcome (Option ℕ × Framed S)
  unfolding at_end
  ask_bytes codec buffer [] = elim (decode codec buffer) [
    | ok (found, codec', buffer') ↦ elim found [
      | none ↦ at_end codec' buffer'
      | some value ↦ ok (some value, record { codec = codec'; buffer = buffer'; unread = [] })
    ]
    | err e ↦ err e
    | panic ↦ panic
  ]
  ask_bytes codec buffer (byte ∷ unread) = elim (decode codec buffer) [
    | ok (found, codec', buffer') ↦ elim found [
      | none ↦ ask_bytes codec' (buffer' ++ (byte ∷ [])) unread
      | some value ↦
          ok (some value, record { codec = codec'; buffer = buffer'; unread = byte ∷ unread })
    ]
    | err e ↦ err e
    | panic ↦ panic
  ]

  abbrev at : S → List ℕ → List ℕ → Framed S
  at codec buffer unread = record { codec = codec; buffer = buffer; unread = unread }

  ends_at :
      (codec codec' : S) (buffer buffer' : List ℕ)
      → decode codec buffer ≡ ok (none, codec', buffer')
      → Asks decode (at codec buffer []) (at_end codec' buffer')
  unfolding at_end
  ends_at codec codec' buffer [] e = Asks.ends codec' e
  ends_at codec codec' buffer (byte ∷ bytes) e = Asks.left_over codec' byte bytes e

  last_call :
      (codec : S) (buffer : List ℕ) (called : Outcome (Option ℕ × S × List ℕ))
      → decode codec buffer ≡ called
      → Asks decode (at codec buffer []) (elim called [
        | ok (found, codec', buffer') ↦ elim found [
          | none ↦ at_end codec' buffer'
          | some value ↦ ok (some value, at codec' buffer' [])
        ]
        | err e ↦ err e
        | panic ↦ panic
      ])
  last_call codec buffer (ok (none, codec', buffer')) e = ends_at codec codec' buffer buffer' e
  last_call codec buffer (ok (some value, codec', buffer')) e = Asks.item value codec' buffer' e
  last_call codec buffer (err error) e = Asks.fails error e
  last_call codec buffer panic e = Asks.panics e

  next_call :
      (codec : S) (buffer : List ℕ) (byte : ℕ) (unread : List ℕ)
      (called : Outcome (Option ℕ × S × List ℕ))
      → decode codec buffer ≡ called
      → ((codec' : S) (buffer' : List ℕ)
          → Asks decode (at codec' buffer' unread) (ask_bytes codec' buffer' unread))
      → Asks decode (at codec buffer (byte ∷ unread)) (elim called [
        | ok (found, codec', buffer') ↦ elim found [
          | none ↦ ask_bytes codec' (buffer' ++ (byte ∷ [])) unread
          | some value ↦ ok (some value, at codec' buffer' (byte ∷ unread))
        ]
        | err e ↦ err e
        | panic ↦ panic
      ])
  next_call codec buffer byte unread (ok (none, codec', buffer')) e further =
      Asks.wait codec' buffer' e
        (Asks.read (byte ∷ []) unread refl (further codec' (buffer' ++ (byte ∷ []))))
  next_call codec buffer byte unread (ok (some value, codec', buffer')) e further =
      Asks.item value codec' buffer' e
  next_call codec buffer byte unread (err error) e further = Asks.fails error e
  next_call codec buffer byte unread panic e further = Asks.panics e

  pub ask_bytes-Asks :
      (unread : List ℕ) (codec : S) (buffer : List ℕ)
      → Asks decode (at codec buffer unread) (ask_bytes codec buffer unread)
  unfolding ask_bytes
  ask_bytes-Asks [] codec buffer = last_call codec buffer (decode codec buffer) refl
  ask_bytes-Asks (byte ∷ unread) codec buffer =
      next_call codec buffer byte unread (decode codec buffer) refl (ask_bytes-Asks unread)

abbrev pub byte_by_byte : FramedRead
byte_by_byte = record {
  ask = λ decode self. ask_bytes decode self.codec self.buffer self.unread;
  asks = λ decode self. ask_bytes-Asks decode self.unread self.codec self.buffer;
}
