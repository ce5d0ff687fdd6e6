-- ===== src/Storage/Label.antt =====
-- src/storage/label.rs and the store of labels of src/storage/memory.rs. Each call takes the lock on
-- the labels for its whole run, so that calls are steps in some order.
pub mod Get
pub mod Stale
mod Examples
use terminus_store.Prelude.{
  ℕ, ◌+◌, ◌<◌, ◌≡◌, arith, Bool, true, false, ltb, ◌==◌, ◌&&◌, if◌then◌else◌, List, [], ◌∷◌, Option,
  none, some,
}
use terminus_store.Prelude.Outcome.{Outcome, ok, err, panic, invalid_input}
use terminus_store.Structure.Word.{checked_add}

-- A name is the list of its bytes, a layer the five numbers that name it.
pub record Label : Type 0 where
  pub name : List ℕ
  pub layer : Option (List ℕ)
  pub version : ℕ

abbrev pub new_empty : List ℕ → Label
new_empty name = record { name = name; layer = none; version = 0 }

unfoldable pub with_updated_layer : Label → Option (List ℕ) → Outcome Label
with_updated_layer self layer = elim (checked_add 64 self.version 1) [
  | ok version ↦ ok (record { name = self.name; layer = layer; version = version })
  | err e ↦ err e
  | panic ↦ panic
]

unfoldable pub same_name : List ℕ → List ℕ → Bool
same_name [] [] = true
same_name [] (y ∷ ys) = false
same_name (x ∷ xs) [] = false
same_name (x ∷ xs) (y ∷ ys) = let rest = same_name xs ys in if x == y then rest else false

-- The hash map of labels, as its look-up.
abbrev pub Labels : Type 0
Labels = List ℕ → Option Label

abbrev pub insert : Labels → List ℕ → Option Label → Labels
insert labels name entry n = if same_name name n then entry else labels n

-- A call returns its result and the labels that it leaves.
unfoldable pub create_label : Labels → List ℕ → Outcome Label × Labels
create_label labels name = elim (labels name) [
  | some _ ↦ (err invalid_input, labels)
  | none ↦ (ok (new_empty name), insert labels name (some (new_empty name)))
]

abbrev pub get_label : Labels → List ℕ → Option Label
get_label labels name = labels name

-- The part of `set_label_option` that holds the lock.
unfoldable pub swap_label : Labels → Label → Outcome (Option Label) × Labels
swap_label labels new_label = elim (labels new_label.name) [
  | none ↦ (err invalid_input, labels)
  | some old_label ↦ elim (checked_add 64 old_label.version 1) [
    | ok next ↦
        if next == new_label.version
        then (ok (some new_label), insert labels new_label.name (some new_label))
        else (ok none, labels)
    | err e ↦ (err e, labels)
    | panic ↦ (panic, labels)
  ]
]

unfoldable pub set_label_option : Labels → Label → Option (List ℕ) → Outcome (Option Label) × Labels
set_label_option labels label layer = elim (with_updated_layer label layer) [
  | ok new_label ↦ swap_label labels new_label
  | err e ↦ (err e, labels)
  | panic ↦ (panic, labels)
]

unfoldable pub delete_label : Labels → List ℕ → Bool × Labels
delete_label labels name =
    (elim (labels name) [ none ↦ false | some _ ↦ true ], insert labels name none)
