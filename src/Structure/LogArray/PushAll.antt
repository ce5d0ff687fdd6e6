-- ===== src/Structure/LogArray/PushAll.antt =====
-- src/structure/logarray.rs: `push_all`, which pushes the items of a stream that may fail.
use terminus_store.Prelude.{
  ℕ, ◌^◌, ◌≤◌, ◌<◌, ◌≡◌, refl, ap, ◌∙◌, arith, List, [], ◌∷◌, ◌++◌, length, map,
}
use terminus_store.Prelude.Outcome.{Outcome, IoError, ok, err, ◌>>=◌, >>=-eq-ok, >>=_ext}
use terminus_store.Structure.LogArray.{LogArrayFileBuilder, push, push_vec, new}
use terminus_store.Structure.LogArray.Push.{new-Holds}
use terminus_store.Structure.LogArray.Invariant.{AllFit, push_vec-Holds}

-- A stream is the list of what it yields, values and errors.
unfoldable pub push_all : LogArrayFileBuilder → List (Outcome ℕ) → Outcome LogArrayFileBuilder
push_all self [] = ok self
push_all self (item ∷ vals) = do val ← item; self' ← push self val; push_all self' vals

push_all-push_vec :
    (vals : List ℕ) (self : LogArrayFileBuilder) → push_all self (map ok vals) ≡ push_vec self vals
unfolding push_all push_vec
push_all-push_vec [] self = refl
push_all-push_vec (val ∷ vals) self = >>=_ext (push self val) (push_all-push_vec vals)

push_all-append :
    (vals : List ℕ) (stream : List (Outcome ℕ)) (self self' : LogArrayFileBuilder)
    → push_vec self vals ≡ ok self'
    → push_all self (map ok vals ++ stream) ≡ push_all self' stream
unfolding push_all push_vec
push_all-append [] stream self self' e =
    ap (λ (m : Outcome LogArrayFileBuilder). m >>= λ b. push_all b stream) e
push_all-append (val ∷ vals) stream self self' e =
    let (next, pushed, rest) = >>=-eq-ok (push self val) (λ b. push_vec b vals) e in
    ap (λ (m : Outcome LogArrayFileBuilder). m >>= λ b. push_all b (map ok vals ++ stream)) pushed
    ∙ push_all-append vals stream next self' rest

-- On a new builder and values that fit its width, 1 to 64 bits, and are fewer than 2 ^ 32:
-- `push_all` of a stream of just those values succeeds with what `push_vec` of them leaves, and of a
-- stream that yields an error behind them returns that error, whatever would follow.
pub push_all-stream :
    (width : ℕ) (vals : List ℕ) (error : IoError) (behind : List (Outcome ℕ))
    → 1 ≤ width
    → width ≤ 64
    → AllFit width vals
    → length vals < 2 ^ 32
    → (b : LogArrayFileBuilder) × (push_vec (new [] width) vals ≡ ok b)
      × (push_all (new [] width) (map ok vals) ≡ ok b)
      × (push_all (new [] width) (map ok vals ++ (err error ∷ behind)) ≡ err error)
unfolding push_all new
push_all-stream width vals error behind wide narrow fit few =
    let (b, ws, pushed, same, inv) =
      push_vec-Holds vals (new [] width) [] [] (new-Holds width) wide narrow fit (omega arith) in
    (
      b,
      pushed,
      push_all-push_vec vals (new [] width) ∙ pushed,
      push_all-append vals (err error ∷ behind) (new [] width) b pushed,
    )
