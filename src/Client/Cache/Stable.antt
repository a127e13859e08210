-- ===== src/Client/Cache/Stable.antt =====
-- What the cache promises: an answer that the server has given is given again, without a request.
use jpl.Base.{
  List, [], ◌∷◌, none, some, ◌||◌, ◌≡◌, ◌∙◌, ap, arith, Option-cases, inl, inr, Bool-cases,
}
use jpl.Base.Maps.{get, put, get-put, get-put_self}
use jpl.Remote.{Outcome, ok, err, is_no_match, is_not_found}
use jpl.Resource.Object.{ObjectMetadata, Unstructured, metadata_discrete, metadata_group_kind}
use jpl.Client.Cache.{
  ResourceStatus, Getter, CachedResourceGetter, missing, got, mapped, get_object, from_cache,
  get_cached, get_all,
}

module _ {R Mapping : Type 0} (getter : Getter R Mapping) (id : ObjectMetadata) where
  abbrev Knows : ResourceStatus → CachedResourceGetter R → Type 0
  Knows status s = get metadata_discrete id s.cache ≡ some status

  -- A Get keeps what is known of another identity.
  get_object-Knows :
      (other : ObjectMetadata) (status : ResourceStatus) (s : CachedResourceGetter R)
      → get metadata_discrete other s.cache ≡ none
      → Knows status s
      → Knows status (get_object getter other s).1
  unfolding get_object got mapped
  get_object-Knows other status s fresh h =
      after_mapping (getter.rest_mapping (metadata_group_kind other) s.remote)
    where
      kept :
          (new : ResourceStatus)
          → get metadata_discrete id (put metadata_discrete other new s.cache) ≡ some status
      kept new = get-put metadata_discrete other id new s.cache ∙ ground arith

      after_get :
          (answer : Outcome Unstructured × R) → Knows status (got getter other s.cache answer).1
      after_get (ok obj, r) = kept (record { obj = some obj; error = none })
      after_get (err e, r) = elim (Bool-cases (is_no_match e || is_not_found e)) [
        | inl c ↦ rw c (kept missing)
        | inr c ↦ rw c (kept (record { obj = none; error = some e }))
      ]

      after_mapping :
          (answer : Outcome Mapping × R) → Knows status (mapped getter other s.cache answer).1
      after_mapping (err e, r) = h
      after_mapping (ok mapping, r) = after_get _

  get_cached-Knows :
      (other : ObjectMetadata) (status : ResourceStatus) (s : CachedResourceGetter R)
      → Knows status s
      → Knows status (get_cached getter other s).1
  unfolding get_cached from_cache
  get_cached-Knows other status s h = elim (Option-cases (get metadata_discrete other s.cache)) [
    | inl e ↦ rw (e, from_cache) (get_object-Knows other status s e h)
    | inr (known, e) ↦ rw (e, from_cache) h
  ]

  get_all-Knows :
      (ids : List ObjectMetadata) (status : ResourceStatus) (s : CachedResourceGetter R)
      → Knows status s
      → Knows status (get_all getter ids s)
  unfolding get_all
  get_all-Knows [] status s h = h
  get_all-Knows (other ∷ ids) status s h =
      get_all-Knows ids status (get_cached getter other s).1 (get_cached-Knows other status s h)

  -- What is known is answered, without a request.
  Knows-answer :
      (status : ResourceStatus) (s : CachedResourceGetter R)
      → Knows status s
      → get_cached getter id s ≡ (status, s)
  unfolding get_cached from_cache
  Knows-answer status s h = ap (from_cache getter id s) h

  got-Knows :
      (s : CachedResourceGetter R) (answer : Outcome Unstructured × R)
      → Knows (got getter id s.cache answer).0 (got getter id s.cache answer).1
  unfolding got
  got-Knows s (ok obj, r) = get-put_self metadata_discrete id _ s.cache
  got-Knows s (err e, r) = elim (Bool-cases (is_no_match e || is_not_found e)) [
    | inl c ↦ rw c (get-put_self metadata_discrete id missing s.cache)
    | inr c ↦ rw c (get-put_self metadata_discrete id _ s.cache)
  ]

  mapped-Knows :
      (mapping : Mapping) (s : CachedResourceGetter R) (answer : Outcome Mapping × R)
      → answer.0 ≡ ok mapping
      → Knows (mapped getter id s.cache answer).0 (mapped getter id s.cache answer).1
  unfolding mapped
  mapped-Knows mapping s (err e, r) h = absurd (cc)
  mapped-Knows mapping s (ok found, r) h = got-Knows s _

  first-Knows :
      (mapping : Mapping) (s : CachedResourceGetter R)
      → (getter.rest_mapping (metadata_group_kind id) s.remote).0 ≡ ok mapping
      → Knows (get_cached getter id s).0 (get_cached getter id s).1
  unfolding get_cached from_cache get_object
  first-Knows mapping s h = elim (Option-cases (get metadata_discrete id s.cache)) [
    | inl e ↦
        rw (e, from_cache)
          (mapped-Knows mapping s (getter.rest_mapping (metadata_group_kind id) s.remote) h)
    | inr (known, e) ↦ rw (e, from_cache) e
  ]

  -- Where the mapper knows the kind, a Get is answered as the first one was, whatever is asked in
  -- between, and the later one sends no request and leaves the cache as it is.
  pub get_cached-stable :
      (mapping : Mapping) (s : CachedResourceGetter R) (ids : List ObjectMetadata)
      → (getter.rest_mapping (metadata_group_kind id) s.remote).0 ≡ ok mapping
      → let first = get_cached getter id s in
        get_cached getter id (get_all getter ids first.1) ≡ (first.0, get_all getter ids first.1)
  get_cached-stable mapping s ids h =
      let first = get_cached getter id s in
      Knows-answer first.0 (get_all getter ids first.1)
        (get_all-Knows ids first.0 first.1 (first-Knows mapping s h))
