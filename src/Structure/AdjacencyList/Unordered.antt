-- ===== src/Structure/AdjacencyList/Unordered.antt =====
-- src/structure/adjacencylist.rs: a builder refuses pairs that are out of order.
use terminus_store.Prelude.{
  ℕ, ◌^◌, ◌≤◌, ◌<◌, ◌≡◌, ap, ◌∙◌, arith, true, List, [], ◌∷◌, ◌++◌, length, ◌⊎◌,
}
use terminus_store.Prelude.Outcome.{Outcome, ok, panic, ◌>>=◌, >>=-eq-ok}
use terminus_store.Structure.LogArray
use terminus_store.Structure.LogArray.Push.{new-Holds}
use terminus_store.Structure.LogArray.Invariant.{push_vec-Holds}
use terminus_store.Structure.AdjacencyList.Builder.{
  AdjacencyListBuilder, new, is_unordered, push, push_all,
}
use terminus_store.Structure.AdjacencyList.Layout.{
  IsOrdered, AllRightsFit, all_nums, all_nums-AllFit, push_all_lem, last_pair,
}

push_all-append :
    (front back : List (ℕ × ℕ)) (self self' : AdjacencyListBuilder)
    → push_all self front ≡ ok self'
    → push_all self (front ++ back) ≡ push_all self' back
unfolding push_all
push_all-append [] back self self' e =
    ap (λ (m : Outcome AdjacencyListBuilder). m >>= λ s. push_all s back) e
push_all-append (pair ∷ front) back self self' e =
    let (next, pushed, rest) = >>=-eq-ok (push self pair.0 pair.1) (λ s. push_all s front) e in
    ap (λ (m : Outcome AdjacencyListBuilder). m >>= λ s. push_all s (front ++ back)) pushed
    ∙ push_all-append front back next self' rest

push_unordered :
    (self : AdjacencyListBuilder) (pair : ℕ × ℕ)
    → (pair.0 < self.last_left) ⊎ ((pair.0 ≡ self.last_left) × (pair.1 ≤ self.last_right))
    → push self pair.0 pair.1 ≡ panic
unfolding push
push_unordered self pair bad =
    let refused : is_unordered self pair.0 pair.1 ≡ true = ground arith in rw refused

-- After pairs of positive numbers in increasing order, which all fit, pushing one that does not come
-- after the last of them panics, whatever would follow.
pub push_all-panics :
    (width : ℕ) (front back : List (ℕ × ℕ)) (pair : ℕ × ℕ)
    → 1 ≤ width
    → width ≤ 64
    → IsOrdered 0 0 front
    → AllRightsFit width front
    → length (all_nums 0 front) < 2 ^ 32
    → (pair.0 < (last_pair (0, 0) front).0)
      ⊎ ((pair.0 ≡ (last_pair (0, 0) front).0) × (pair.1 ≤ (last_pair (0, 0) front).1))
    → push_all (new width) (front ++ (pair ∷ back)) ≡ panic
unfolding push_all LogArray.new
push_all-panics width front back pair wide narrow ordered fit few bad =
    let fits = all_nums-AllFit width 0 front fit in
    let (nums, ws, pushed, same, inv) =
      push_vec-Holds (all_nums 0 front) (LogArray.new [] width) [] [] (new-Holds width) wide narrow
        fits (omega arith) in
    let (self, built, bits, nums_same, last) = push_all_lem front (new width) nums ordered pushed in
    let left : (last_pair (0, 0) front).0 ≡ self.last_left = ap (λ t. t.0) last in
    let right : (last_pair (0, 0) front).1 ≡ self.last_right = ap (λ t. t.1) last in
    push_all-append front (pair ∷ back) (new width) self built
    ∙ ap (λ (m : Outcome AdjacencyListBuilder). m >>= λ s. push_all s back)
        (push_unordered self pair (ground (arith, left, right)))
