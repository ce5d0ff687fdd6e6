-- ===== src/Storage/Label/Get.antt =====
-- src/storage/memory.rs: what each call does to the labels.
use terminus_store.Prelude.{
  ℕ, ◌+◌, ◌^◌, ◌≤◌, ◌<◌, ◌≡◌, refl, ap, ◌∙◌, arith, true, false, ltb, ◌==◌, if◌then◌else◌, List, [],
  ◌∷◌, Option, none, some,
}
use mathlib.Core.Path.{ap₂}
use terminus_store.Prelude.Outcome.{ok, err, panic, invalid_input}
use terminus_store.Storage.Label.{
  Label, Labels, same_name, insert, get_label, swap_label, set_label_option, with_updated_layer,
}

pub same_name_refl : (n : List ℕ) → same_name n n ≡ true
unfolding same_name
same_name_refl [] = refl
same_name_refl (x ∷ n) = ground (arith, same_name_refl n)

pub same_name-eq : (m n : List ℕ) → same_name m n ≡ true → m ≡ n
unfolding same_name
same_name-eq [] [] h = refl
same_name-eq [] (y ∷ n) h = cc
same_name-eq (x ∷ m) [] h = cc
same_name-eq (x ∷ m) (y ∷ n) h =
    ap₂ (λ u us. u ∷ us) (ground arith) (same_name-eq m n (ground arith))

-- The new label of a version that is not the greatest u64.
abbrev pub updated : Label → Option (List ℕ) → Label
updated label layer = record { name = label.name; layer = layer; version = label.version + 1 }

pub with_updated :
    (label : Label) (layer : Option (List ℕ))
    → label.version + 1 < 2 ^ 64
    → with_updated_layer label layer ≡ ok (updated label layer)
unfolding with_updated_layer
with_updated label layer h = ground arith

pub swap-absent :
    (labels : Labels) (label : Label)
    → labels label.name ≡ none
    → swap_label labels label ≡ (err invalid_input, labels)
unfolding swap_label
swap-absent labels label h = rw (swap_label, h)

pub swap-stored :
    (labels : Labels) (label stored : Label)
    → labels label.name ≡ some stored
    → stored.version + 1 < 2 ^ 64
    → swap_label labels label ≡ (
        if stored.version + 1 == label.version
        then (ok (some label), insert labels label.name (some label))
        else (ok none, labels))
unfolding swap_label
swap-stored labels label stored h small =
    rw (swap_label, h) (let e : ltb (stored.version + 1) (2 ^ 64) ≡ true = ground arith in rw e)

pub swap-overflow :
    (labels : Labels) (label stored : Label)
    → labels label.name ≡ some stored
    → 2 ^ 64 ≤ stored.version + 1
    → swap_label labels label ≡ (panic, labels)
unfolding swap_label
swap-overflow labels label stored h big =
    rw (swap_label, h) (let e : ltb (stored.version + 1) (2 ^ 64) ≡ false = ground arith in rw e)

pub set-swap :
    (labels : Labels) (label : Label) (layer : Option (List ℕ))
    → label.version + 1 < 2 ^ 64
    → set_label_option labels label layer ≡ swap_label labels (updated label layer)
unfolding set_label_option
set-swap labels label layer h = rw (set_label_option, with_updated label layer h)

pub set-overflow :
    (labels : Labels) (label : Label) (layer : Option (List ℕ))
    → 2 ^ 64 ≤ label.version + 1
    → set_label_option labels label layer ≡ (panic, labels)
unfolding set_label_option with_updated_layer
set-overflow labels label layer h =
    let e : ltb (label.version + 1) (2 ^ 64) ≡ false = ground arith in
    rw (set_label_option, with_updated_layer, e)

-- A store that has the name, neither its version nor the caller's being the greatest u64, takes the new layer exactly
-- where the caller's version is the store's: then the label with the next version is returned and
-- stored; else nothing is returned and the labels stay as they are.
pub set_label_option-swaps :
    (labels : Labels) (label stored : Label) (layer : Option (List ℕ))
    → get_label labels label.name ≡ some stored
    → label.version + 1 < 2 ^ 64
    → stored.version + 1 < 2 ^ 64
    → set_label_option labels label layer ≡ (
        if stored.version == label.version
        then (
          ok (some (updated label layer)),
          insert labels label.name (some (updated label layer)),
        )
        else (ok none, labels))
set_label_option-swaps labels label stored layer here h hs =
    set-swap labels label layer h
    ∙ swap-stored labels (updated label layer) stored here hs
    ∙ ap
        (λ b.
          if b
          then (
            ok (some (updated label layer)),
            insert labels label.name (some (updated label layer)),
          )
          else (ok none, labels))
        (ground arith)
