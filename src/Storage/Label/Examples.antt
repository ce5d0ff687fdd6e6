-- ===== src/Storage/Label/Examples.antt =====
-- src/storage/memory.rs: the theorems at concrete inputs.
use terminus_store.Prelude.{
  ℕ, ◌≡◌, ◌≤◌, ◌∷◌, [], List, refl, arith, Option, none, some, if◌then◌else◌,
}
use terminus_store.Prelude.Outcome.{ok}
use terminus_store.Storage.Label.{
  Label, Labels, new_empty, same_name, insert, get_label, set_label_option, with_updated_layer,
  swap_label,
}
use terminus_store.Storage.Label.Get.{updated, set_label_option-swaps}
use terminus_store.Storage.Label.Stale.{Step, Steps, Steps-version, set_label_option-stale}

abbrev main : List ℕ
main = 109 ∷ []

abbrev one_label : Labels
one_label n = if same_name main n then some (new_empty main) else none

abbrev layer : Option (List ℕ)
layer = some (1 ∷ 2 ∷ 3 ∷ 4 ∷ 5 ∷ [])

main_there : get_label one_label main ≡ some (new_empty main)
unfolding same_name
main_there = refl

set_label_option-swaps_example : set_label_option one_label (new_empty main) layer ≡ (
  ok (some (updated (new_empty main) layer)),
  insert one_label main (some (updated (new_empty main) layer)),
)
set_label_option-swaps_example =
    set_label_option-swaps one_label (new_empty main) (new_empty main) layer main_there
      (omega arith) (omega arith)

main_after :
    get_label (set_label_option one_label (new_empty main) layer).1 main
    ≡ some (updated (new_empty main) layer)
unfolding set_label_option with_updated_layer swap_label same_name
main_after = refl

Steps-version_example :
    (now : Label) × (get_label (set_label_option one_label (new_empty main) layer).1 main
      ≡ some now)
    × (0 ≤ now.version)
Steps-version_example =
    Steps-version one_label (set_label_option one_label (new_empty main) layer).1 main
      (new_empty main) main_there
      (Steps.more (Step.assigned (new_empty main) layer refl) Steps.done)

set_label_option-stale_example :
    ((set_label_option one_label (new_empty main) layer).0
      ≡ ok (some (updated (new_empty main) layer)))
    × (set_label_option (set_label_option one_label (new_empty main) layer).1 (new_empty main) none
        ≡ (ok none, (set_label_option one_label (new_empty main) layer).1))
set_label_option-stale_example =
    set_label_option-stale one_label (set_label_option one_label (new_empty main) layer).1
      (new_empty main) (new_empty main) (updated (new_empty main) layer) layer none main_there refl
      (omega arith) Steps.done main_after (omega arith)
