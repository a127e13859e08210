-- ===== src/Mutator/Examples.antt =====
-- A mutator with two labels, of which the object has one already.
use jpl.Base.{Str, codes, List, [], ◌∷◌, none, some}
use jpl.Mutator.{Labelled, mutate}
use jpl.Mutator.Filled.{IsMutated, mutate-IsMutated}

abbrev new_labels : List (Str × Str)
new_labels = (codes "app", codes "new") ∷ (codes "team", codes "one") ∷ []

abbrev labelled_object : Labelled
labelled_object = record { labels = some ((codes "app", codes "old") ∷ []) }

mutate-IsMutated_example :
    IsMutated new_labels labelled_object none (mutate (λ labels. none) new_labels labelled_object)
mutate-IsMutated_example = mutate-IsMutated (λ labels. none) new_labels labelled_object
