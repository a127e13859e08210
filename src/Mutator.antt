-- ===== src/Mutator.antt =====
-- Package mutator (pkg/mutator/labels.go): labels that every object gets.
-- The test of the labels is apimachinery's, a parameter with the aggregate of its errors.
mod Filled
mod Examples
use jpl.Base.{Str, str_discrete, List, [], ◌∷◌, Option, none, some, Bool, true, false}
use jpl.Base.Merge.{fill_missing}
use jpl.Remote.{Error}

-- What the mutator reads and writes of an object; labels are `none` where the map is nil.
pub record Labelled : Type 0 where
  pub labels : Option (List (Str × Str))

-- CanHandleResource, on the labels of the mutator
pub can_handle_resource : List (Str × Str) → Bool
can_handle_resource [] = false
can_handle_resource (l ∷ new) = true

abbrev pub labels_or_new : Option (List (Str × Str)) → List (Str × Str)
labels_or_new none = []
labels_or_new (some labels) = labels

-- Mutate, after the test
mutate_valid : List (Str × Str) → Labelled → Option Error → Option Error × Labelled
mutate_valid new obj (some e) = (some e, obj)
mutate_valid new obj none =
    (none, record { labels = some (fill_missing str_discrete new (labels_or_new obj.labels)) })

-- Mutate
pub mutate :
    (List (Str × Str) → Option Error) → List (Str × Str) → Labelled → Option Error × Labelled
mutate validate_labels new obj = mutate_valid new obj (validate_labels new)
