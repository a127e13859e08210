-- ===== src/Mutator/Filled.antt =====
-- The labels of an object after the call.
use jpl.Base.{Str, str_discrete, List, Option, none, some, ◌≡◌}
use jpl.Base.Maps.{get}
use jpl.Base.Merge.{first_of, get-fill_missing}
use jpl.Remote.{Error}
use jpl.Mutator.{Labelled, labels_or_new, mutate, mutate_valid}

-- The label of an object at a key.
abbrev pub label : Str → Labelled → Option Str
label key obj = get str_discrete key (labels_or_new obj.labels)

-- The error of the labels and what Mutate returns for it.
pub data IsMutated (new : List (Str × Str)) (obj : Labelled)
    : Option Error → Option Error × Labelled → Type 0 where
  refused : (e : Error) → IsMutated new obj (some e) (some e, obj)
  labelled :
      (obj' : Labelled)
      → ((key : Str) → label key obj' ≡ first_of (label key obj) (get str_discrete key new))
      → IsMutated new obj none (none, obj')

mutate_valid-IsMutated :
    (new : List (Str × Str)) (obj : Labelled) (o : Option Error)
    → IsMutated new obj o (mutate_valid new obj o)
unfolding mutate_valid
mutate_valid-IsMutated new obj (some e) = refused e
mutate_valid-IsMutated new obj none =
    labelled _ (λ key. get-fill_missing str_discrete key new (labels_or_new obj.labels))

-- Where the labels are valid, Mutate returns no error, and the object has at each key the label that
-- it had, or else the one of the mutator; where they are not, it returns the error and the object as it
-- was.
pub mutate-IsMutated :
    (validate_labels : List (Str × Str) → Option Error) (new : List (Str × Str)) (obj : Labelled)
    → IsMutated new obj (validate_labels new) (mutate validate_labels new obj)
unfolding mutate
mutate-IsMutated validate_labels new obj = mutate_valid-IsMutated new obj (validate_labels new)
