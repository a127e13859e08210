-- ===== src/Resource/Less/Order.antt =====
-- The order of resources is a strict total order on identities.
use jpl.Base.{Str, str_discrete, str_lt, ◌≡◌, refl, ap, Bool, true, false, [], ◌∷◌, arith}
use jpl.Base.Int.{ℤ_discrete, ltb_ℤ}
use jpl.Base.Order.{IsStrict, IsConnected, by_key, by_key-IsStrict, by_key_incomparable}
use jpl.Resource.Object.{
  GroupKind, ObjectMetadata, group_kind_discrete, metadata_group_kind, GroupKind-ext,
  ObjectMetadata-ext,
}
use jpl.Resource.Less.{sort_index, less_gk, less}

str_lt_irrefl : (s : Str) → str_lt s s ≡ false
unfolding str_lt
str_lt_irrefl [] = refl
str_lt_irrefl (x ∷ s) = ground (arith, str_lt_irrefl s)

str_lt_trans : (r s t : Str) → str_lt r s ≡ true → str_lt s t ≡ true → str_lt r t ≡ true
unfolding str_lt
str_lt_trans [] [] t p q = absurd (cc)
str_lt_trans [] (y ∷ s) [] p q = absurd (cc)
str_lt_trans [] (y ∷ s) (z ∷ t) p q = refl
str_lt_trans (x ∷ r) [] t p q = absurd (cc)
str_lt_trans (x ∷ r) (y ∷ s) [] p q = absurd (cc)
str_lt_trans (x ∷ r) (y ∷ s) (z ∷ t) p q = ground (arith, str_lt_trans r s t)

str_lt-IsStrict : IsStrict str_lt
str_lt-IsStrict = record { irrefl = str_lt_irrefl; trans = str_lt_trans }

str_lt-IsConnected : IsConnected str_lt
unfolding str_lt
str_lt-IsConnected [] [] p q = refl
str_lt-IsConnected [] (y ∷ t) p q = absurd (cc)
str_lt-IsConnected (x ∷ s) [] p q = absurd (cc)
str_lt-IsConnected (x ∷ s) (y ∷ t) p q = ground (arith, str_lt-IsConnected s t)

ltb_ℤ-IsStrict : IsStrict ltb_ℤ
ltb_ℤ-IsStrict = record { irrefl = λ a. ground arith; trans = λ a b c p q. ground arith }

ltb_ℤ-IsConnected : IsConnected ltb_ℤ
ltb_ℤ-IsConnected a b p q = ground arith

abbrev group_of : GroupKind → Str
group_of gk = gk.group

abbrev namespace_of : ObjectMetadata → Str
namespace_of m = m.namespace

abbrev by_kind : GroupKind → GroupKind → Bool
by_kind i j = str_lt i.kind j.kind

abbrev by_group : GroupKind → GroupKind → Bool
by_group = by_key group_of str_discrete str_lt by_kind

abbrev by_name : ObjectMetadata → ObjectMetadata → Bool
by_name i j = str_lt i.name j.name

abbrev by_namespace : ObjectMetadata → ObjectMetadata → Bool
by_namespace = by_key namespace_of str_discrete str_lt by_name

by_kind-IsStrict : IsStrict by_kind
by_kind-IsStrict = record {
  irrefl = λ a. str_lt_irrefl a.kind;
  trans = λ a b c. str_lt_trans a.kind b.kind c.kind;
}

by_name-IsStrict : IsStrict by_name
by_name-IsStrict = record {
  irrefl = λ a. str_lt_irrefl a.name;
  trans = λ a b c. str_lt_trans a.name b.name c.name;
}

less_gk-IsStrict : IsStrict less_gk
unfolding less_gk
less_gk-IsStrict =
    by_key-IsStrict sort_index ℤ_discrete ltb_ℤ by_group ltb_ℤ-IsStrict
      (by_key-IsStrict group_of str_discrete str_lt by_kind str_lt-IsStrict by_kind-IsStrict)

less_gk-IsConnected : IsConnected less_gk
unfolding less_gk
less_gk-IsConnected i j p q =
    let (_, p', q') =
      by_key_incomparable sort_index ℤ_discrete ltb_ℤ by_group ltb_ℤ-IsConnected i j p q in
    let (groups, p'', q'') =
      by_key_incomparable group_of str_discrete str_lt by_kind str_lt-IsConnected i j p' q' in
    GroupKind-ext groups (str_lt-IsConnected i.kind j.kind p'' q'')

-- `less` is irreflexive and transitive.
pub less-IsStrict : IsStrict less
unfolding less
less-IsStrict =
    by_key-IsStrict metadata_group_kind group_kind_discrete less_gk by_namespace less_gk-IsStrict
      (by_key-IsStrict namespace_of str_discrete str_lt by_name str_lt-IsStrict by_name-IsStrict)

-- Two identities of which neither is less than the other are equal.
pub less-IsConnected : IsConnected less
unfolding less
less-IsConnected i j p q =
    let (gks, p', q') =
      by_key_incomparable metadata_group_kind group_kind_discrete less_gk by_namespace
        less_gk-IsConnected i j p q in
    let (namespaces, p'', q'') =
      by_key_incomparable namespace_of str_discrete str_lt by_name str_lt-IsConnected i j p' q' in
    ObjectMetadata-ext (str_lt-IsConnected i.name j.name p'' q'', namespaces)
      (ap group_of gks, ap (λ (gk : GroupKind). gk.kind) gks)

-- `less` is a strict linear order on identities: irreflexive, transitive, and such that two
-- identities of which neither is less than the other are equal.
less-IsLinear : IsStrict less × IsConnected less
less-IsLinear = (less-IsStrict, less-IsConnected)
