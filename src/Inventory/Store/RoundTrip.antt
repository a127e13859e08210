-- ===== src/Inventory/Store/RoundTrip.antt =====
-- What is saved in the store is loaded again.
use jpl.Base.{
  Str, str_discrete, List, [], ◌∷◌, Option, none, some, Bool, false, ◌||◌, ◌≡◌, ◌∙◌, refl, ap,
  arith, All,
}
use jpl.Base.Maps.{put}
use jpl.Base.Sets.{is_same, contains, contains-insert}
use jpl.Remote.{Error, Outcome, ok, err}
use jpl.Resource.Object.{
  ObjectMetadata, Unstructured, metadata_discrete, object_metadata_from_unstructured,
}
use jpl.Resource.Text.{to_string, object_metadata_from_string}
use jpl.Resource.Text.RoundTrip.{IsEncodable, from_string-to_string}
use jpl.Inventory.Store.{
  Data, ConfigMaps, ConfigMapStore, put_objects, data_for_store, insert_read, read_keys, saved,
  save, found, load_inventory,
}

-- One of the objects has the identity.
abbrev pub has_identity : ObjectMetadata → List Unstructured → Bool
has_identity id [] = false
has_identity id (obj ∷ objs) =
    is_same metadata_discrete id (object_metadata_from_unstructured obj) || has_identity id objs

abbrev is_read : ObjectMetadata → Option ObjectMetadata → Bool
is_read id none = false
is_read id (some other) = is_same metadata_discrete id other

-- Some key is the text of the identity.
abbrev reads : ObjectMetadata → Data → Bool
reads id [] = false
reads id ((key, value) ∷ data') = is_read id (object_metadata_from_string key) || reads id data'

reads-put :
    (id : ObjectMetadata) (key value : Str) (data' : Data)
    → reads id (put str_discrete key value data')
      ≡ (is_read id (object_metadata_from_string key) || reads id data')
unfolding put
reads-put id key value [] = refl
reads-put id key value ((k, v) ∷ data') = ground (arith, reads-put id key value data')

insert_read-contains :
    (id : ObjectMetadata) (read : Option ObjectMetadata) (set : List ObjectMetadata)
    → contains metadata_discrete id (insert_read read set)
      ≡ (is_read id read || contains metadata_discrete id set)
unfolding insert_read contains
insert_read-contains id none set = refl
insert_read-contains id (some other) set =
    ground (arith, contains-insert metadata_discrete other id set)

read_keys-contains :
    (id : ObjectMetadata) (data' : Data) (set : List ObjectMetadata)
    → contains metadata_discrete id (read_keys data' set)
      ≡ (reads id data' || contains metadata_discrete id set)
unfolding read_keys
read_keys-contains id [] set = refl
read_keys-contains id ((key, value) ∷ data') set =
    read_keys-contains id data' _
    ∙ ground (arith, insert_read-contains id (object_metadata_from_string key) set)

abbrev pub Encodable : Unstructured → Type 0
Encodable obj = IsEncodable (object_metadata_from_unstructured obj)

put_objects-reads :
    (id : ObjectMetadata) (objs : List Unstructured) (data' : Data)
    → All Encodable objs
    → reads id (put_objects objs data') ≡ (has_identity id objs || reads id data')
unfolding put_objects
put_objects-reads id [] data' h = refl
put_objects-reads id (obj ∷ objs) data' h =
    let m = object_metadata_from_unstructured obj in
    put_objects-reads id objs _ h.1
    ∙ ground
        (arith, reads-put id (to_string m) [] data', ap (is_read id) (from_string-to_string m h.0))

module _ {R : Type 0} (maps : ConfigMaps R) where
  -- The server answers with the data that it has taken, if the apply was not dry.
  pub record IsKeeping : Type 0 where
    pub keeps :
        (data' : Data) (r : R)
        → (maps.apply data' false r).0 ≡ none
        → (maps.get_data (maps.apply data' false r).1).0 ≡ ok data'

  saved-fine :
      (answer : Option Error × R)
      → (saved maps answer).0 ≡ none
      → (answer.0 ≡ none) × ((saved maps answer).1 ≡ answer.1)
  unfolding saved
  saved-fine (none, r) h = (refl, refl)
  saved-fine (some e, r) h = absurd (cc)

  found-ok :
      (data' : Data) (answer : Outcome Data × R)
      → answer.0 ≡ ok data'
      → (found maps answer).0 ≡ ok (read_keys data' [])
  unfolding found
  found-ok data' (ok other, r) h = ap (λ (d : Data). ok (read_keys d [])) (cc)
  found-ok data' (err e, r) h = absurd (cc)

  -- On a server that answers with the data that it has taken: where a save that is not dry succeeds,
  -- Load returns a set with exactly the identities of the objects that were saved, if the name of each
  -- begins with a letter or a digit and holds letters, digits, `-`, `.`, `:` and `_`, but no `_` before
  -- another one or before a `:`, its namespace and its group hold letters, digits, `-` and `.`, and its
  -- kind letters and digits.
  pub load-save :
      IsKeeping
      → (s : ConfigMapStore) (r : R) → All Encodable s.saved_objects
      → (save maps s false r).0 ≡ none
      → (ids : List ObjectMetadata) × ((load_inventory maps (save maps s false r).1).0 ≡ ok ids)
        × ((id : ObjectMetadata)
            → contains metadata_discrete id ids ≡ has_identity id s.saved_objects)
  unfolding save load_inventory data_for_store contains
  load-save keeping s r h e =
      let answer = maps.apply (data_for_store s) false r in
      let (fine, same) = saved-fine answer e in
      (
        read_keys (data_for_store s) [],
        ap (λ x. (found maps (maps.get_data x)).0) same
            ∙ found-ok (data_for_store s) (maps.get_data answer.1)
                (keeping.keeps (data_for_store s) r fine),
        λ id.
            read_keys-contains id (data_for_store s) []
            ∙ ap (λ b. b || contains metadata_discrete id [])
                (put_objects-reads id s.saved_objects [] h)
            ∙ last (has_identity id s.saved_objects) id,
      )
    where
      last :
          (b : Bool) (id : ObjectMetadata) → ((b || false) || contains metadata_discrete id []) ≡ b
      last b id = ground arith
