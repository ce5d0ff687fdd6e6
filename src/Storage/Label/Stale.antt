-- ===== src/Storage/Label/Stale.antt =====
-- src/storage/memory.rs: runs of calls that create and set labels, in any order.
use terminus_store.Prelude.{
  ℕ, ◌+◌, ◌^◌, ◌≤◌, ◌<◌, ◌≡◌, ap, ◌∙◌, sym, arith, true, false, Bool-cases, Option-cases, ltb, ◌==◌,
  if◌then◌else◌, List, Option, none, some, inl, inr,
}
use terminus_store.Prelude.Outcome.{ok}
use terminus_store.Storage.Label.{
  Label, Labels, new_empty, same_name, insert, create_label, get_label, swap_label,
  set_label_option,
}
use terminus_store.Storage.Label.Get.{
  same_name_refl, same_name-eq, updated, set_label_option-swaps, swap-absent, swap-stored,
  swap-overflow, set-swap, set-overflow,
}

-- One call, by any caller, that is no `delete_label`.
pub data Step : Labels → Labels → Type 0 where
  created :
      {labels labels' : Labels} (name : List ℕ)
      → (create_label labels name).1 ≡ labels'
      → Step labels labels'
  assigned :
      {labels labels' : Labels} (label : Label) (layer : Option (List ℕ))
      → (set_label_option labels label layer).1 ≡ labels'
      → Step labels labels'

pub data Steps : Labels → Labels → Type 0 where
  done : {labels : Labels} → Steps labels labels
  more :
      {labels labels' labels'' : Labels}
      → Step labels labels'
      → Steps labels' labels''
      → Steps labels labels''

-- The name has a label of that version or a later one.
abbrev pub IsFrom : Labels → List ℕ → ℕ → Type 0
IsFrom labels n version = (label : Label) × (labels n ≡ some label) × (version ≤ label.version)

module _ (labels : Labels) (n : List ℕ) (version : ℕ) (from : IsFrom labels n version) where
  insert-IsFrom :
      (name : List ℕ) (label : Label)
      → ((stored : Label) → labels name ≡ some stored → stored.version ≤ label.version)
      → IsFrom (insert labels name (some label)) n version
  insert-IsFrom name label newer =
      let (stored, here, le) = from in
      elim (Bool-cases (same_name name n)) [
        | inl same ↦
            let e : name ≡ n = same_name-eq name n same in
            (label, rw same, omega (arith, newer stored (ap labels e ∙ here)))
        | inr other ↦ (stored, rw other here, le)
      ]

  create_label-IsFrom : (name : List ℕ) → IsFrom (create_label labels name).1 n version
  unfolding create_label
  create_label-IsFrom name = elim (Option-cases (labels name)) [
    | inl free ↦
        rw (create_label, free)
          (insert-IsFrom name (new_empty name)
            (λ stored taken. (let clash = sym free ∙ taken in cc)))
    | inr (stored, taken) ↦ rw (create_label, taken) from
  ]

  swap_label-IsFrom : (label : Label) → IsFrom (swap_label labels label).1 n version
  swap_label-IsFrom label = elim (Option-cases (labels label.name)) [
    | inl free ↦ rw (swap-absent labels label free) from
    | inr (stored, taken) ↦ elim (Bool-cases (ltb (stored.version + 1) (2 ^ 64))) [
      | inr big ↦ rw (swap-overflow labels label stored taken (ground arith)) from
      | inl small ↦
          rw (swap-stored labels label stored taken (ground arith))
            (elim (Bool-cases (stored.version + 1 == label.version)) [
              | inr stale ↦ rw stale from
              | inl next ↦
                  let e : stored.version + 1 ≡ label.version = ground arith in
                  rw next (
                    insert-IsFrom label.name label
                      (λ other h. version_of other stored (sym h ∙ taken) label e))
            ])
    ]
  ]
    where
      version_of :
          (other stored : Label)
          → some other ≡ some stored
          → (label : Label) → stored.version + 1 ≡ label.version
          → other.version ≤ label.version
      version_of other stored h label e =
          let same : other.version ≡ stored.version = ground arith in omega arith

  set_label_option-IsFrom :
      (label : Label) (layer : Option (List ℕ))
      → IsFrom (set_label_option labels label layer).1 n version
  set_label_option-IsFrom label layer = elim (Bool-cases (ltb (label.version + 1) (2 ^ 64))) [
    | inl small ↦
        rw (set-swap labels label layer (ground arith)) (swap_label-IsFrom (updated label layer))
    | inr big ↦ rw (set-overflow labels label layer (ground arith)) from
  ]

Step-IsFrom :
    {labels labels' : Labels}
    → Step labels labels'
    → (n : List ℕ) (version : ℕ) → IsFrom labels n version
    → IsFrom labels' n version
Step-IsFrom {labels = labels} (created name e) n version from =
    rw e at (create_label-IsFrom labels n version from name)
Step-IsFrom {labels = labels} (assigned label layer e) n version from =
    rw e at (set_label_option-IsFrom labels n version from label layer)

Steps-IsFrom :
    {labels labels' : Labels}
    → Steps labels labels'
    → (n : List ℕ) (version : ℕ) → IsFrom labels n version
    → IsFrom labels' n version
Steps-IsFrom done n version from = from
Steps-IsFrom (more step steps) n version from =
    Steps-IsFrom steps n version (Step-IsFrom step n version from)

-- A name that has a label keeps one, of that version or a later one, through any calls that create
-- and set labels.
pub Steps-version :
    (labels labels' : Labels) (n : List ℕ) (label : Label)
    → get_label labels n ≡ some label
    → Steps labels labels'
    → (now : Label) × (get_label labels' n ≡ some now) × (label.version ≤ now.version)
Steps-version labels labels' n label here steps =
    Steps-IsFrom steps n label.version (label, here, omega arith)

-- A caller's label that is of the stored version is taken, and then, through any calls that create
-- and set labels, the same label of the caller is refused and changes nothing, as long as the
-- version stored by then is not the greatest u64.
pub set_label_option-stale :
    (labels labels' : Labels) (label stored now : Label) (layer layer' : Option (List ℕ))
    → get_label labels label.name ≡ some stored
    → stored.version ≡ label.version
    → label.version + 1 < 2 ^ 64
    → Steps (set_label_option labels label layer).1 labels'
    → get_label labels' label.name ≡ some now
    → now.version + 1 < 2 ^ 64
    → ((set_label_option labels label layer).0 ≡ ok (some (updated label layer)))
      × (set_label_option labels' label layer' ≡ (ok none, labels'))
set_label_option-stale labels labels' label stored now layer layer' here same small steps later
      small' =
    let first =
      set_label_option-swaps labels label stored layer here small (omega arith)
      ∙ ap
          (λ b.
            if b
            then (
              ok (some (updated label layer)),
              insert labels label.name (some (updated label layer)),
            )
            else (ok none, labels))
          {x = stored.version == label.version} {y = true} (ground arith) in
    let placed : (set_label_option labels label layer).1 label.name ≡ some (updated label layer) =
      ap (λ r. r.1 label.name) first
      ∙ ap (λ b. if b then some (updated label layer) else labels label.name)
          (same_name_refl label.name) in
    let (found, there, le) =
      Steps-version _ labels' label.name (updated label layer) placed steps in
    let agree : found.version ≡ now.version = version_eq found now (sym there ∙ later) in
    (
      ap (λ r. r.0) first,
      set_label_option-swaps labels' label now layer' later small small'
          ∙ ap
              (λ b.
                if b
                then (
                  ok (some (updated label layer')),
                  insert labels' label.name (some (updated label layer')),
                )
                else (ok none, labels'))
              {x = now.version == label.version} {y = false} (ground arith),
    )
  where
    version_eq : (a b : Label) → some a ≡ some b → a.version ≡ b.version
    version_eq a b h = ground arith
