-- ===== src/Structure/LogArray/Stream.antt =====
-- The bits of a sequence of words, by position, the most significant bit of each word first.
use terminus_store.Prelude.{
  ℕ, zero, suc, ◌+◌, ◌-◌, ◌*◌, ◌/◌, ◌%◌, ◌<◌, ◌≡◌, refl, ap, ◌∙◌, arith, List, [], ◌∷◌, ◌++◌,
  length, get_or,
}
use terminus_store.Prelude.Bits.{bit}

unfoldable pub stream : List ℕ → ℕ → ℕ
stream ws p = bit (get_or ws (p / 64) 0) (63 - p % 64)

pub get_or-append_left :
    (ws vs : List ℕ) (k : ℕ) → k < length ws → get_or (ws ++ vs) k 0 ≡ get_or ws k 0
get_or-append_left [] vs k h = absurd (omega arith)
get_or-append_left (w ∷ ws) vs zero h = refl
get_or-append_left (w ∷ ws) vs (suc k) h = get_or-append_left ws vs k (omega arith)

pub get_or-append_right :
    (ws vs : List ℕ) (k i : ℕ) → k ≡ length ws + i → get_or (ws ++ vs) k 0 ≡ get_or vs i 0
get_or-append_right [] vs k i e = ap (λ t. get_or vs t 0) (omega arith)
get_or-append_right (w ∷ ws) vs zero i e = absurd (omega arith)
get_or-append_right (w ∷ ws) vs (suc k) i e = get_or-append_right ws vs k i (omega arith)

pub get_or-last :
    (vs : List ℕ) (v i : ℕ)
    → (i < length vs → get_or (vs ++ (v ∷ [])) i 0 ≡ get_or vs i 0)
      × (i ≡ length vs → get_or (vs ++ (v ∷ [])) i 0 ≡ v)
get_or-last vs v i =
    (get_or-append_left vs (v ∷ []) i, λ e. get_or-append_right vs (v ∷ []) i 0 (omega arith))

pub stream-append_left :
    (ws vs : List ℕ) (p : ℕ) → p < 64 * length ws → stream (ws ++ vs) p ≡ stream ws p
unfolding stream
stream-append_left ws vs p h =
    ap (λ t. bit t (63 - p % 64)) (get_or-append_left ws vs (p / 64) (omega arith))

pub stream-append_right :
    (ws vs : List ℕ) (p i : ℕ) → p ≡ 64 * length ws + i → stream (ws ++ vs) p ≡ stream vs i
unfolding stream
stream-append_right ws vs p i e =
    ap (λ t. bit t (63 - p % 64)) (get_or-append_right ws vs (p / 64) (i / 64) (omega arith))
    ∙ ap (bit (get_or vs (i / 64) 0)) (omega arith)

pub stream-head : (w : ℕ) (ws : List ℕ) (q : ℕ) → q < 64 → stream (w ∷ ws) q ≡ bit w (63 - q)
unfolding stream
stream-head w ws q h =
    ap (λ k. bit (get_or (w ∷ ws) k 0) (63 - q % 64)) {x = q / 64} {y = 0} (omega arith)
    ∙ ap (bit w) (omega arith)

pub stream-tail : (w : ℕ) (ws : List ℕ) (q : ℕ) → stream (w ∷ ws) (q + 64) ≡ stream ws q
unfolding stream
stream-tail w ws q =
    ap (λ k. bit (get_or (w ∷ ws) k 0) (63 - (q + 64) % 64)) {x = (q + 64) / 64} {y = suc (q / 64)}
      (omega arith)
    ∙ ap (bit (get_or ws (q / 64) 0)) (omega arith)
