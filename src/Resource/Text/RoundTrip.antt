-- ===== src/Resource/Text/RoundTrip.antt =====
-- What is written of an identity is read again.
use jpl.Base.{
  ℕ, Str, codes, [], ◌∷◌, ◌++◌, none, some, Bool, true, false, ◌&&◌, ◌||◌, not, ◌≡◌, ◌≢◌, ◌∙◌, refl,
  sym, ap, subst, arith, if◌then◌else◌, ◌==◌, replace_one, replace_two, append_assoc, Bool-cases,
  inl, inr,
}
use jpl.Base.Strings.Laws.{Lacks}
use jpl.Resource.Object.{ObjectMetadata}
use jpl.Resource.Text.{
  separator, colon_replacement, is_alnum, is_plain, is_name_char, is_name, all_chars, to_string,
  in_front, at_first, or_here, at_last, parse_name, parse_kind, parse_namespace,
  object_metadata_from_string,
}

-- A code point that a name may hold before it is written.
abbrev pub is_source_char : ℕ → Bool
is_source_char c = is_name_char c || c == b':'

abbrev pub starts_apart : Str → Bool
starts_apart [] = true
starts_apart (c ∷ s) = not (c == b'_' || c == b':')

-- No `_` stands before another one or before a `:`.
abbrev pub is_clear : Str → Bool
is_clear [] = true
is_clear (c ∷ s) = (not (c == b'_') || starts_apart s) && is_clear s

abbrev pub starts_alnum : Str → Bool
starts_alnum [] = false
starts_alnum (c ∷ s) = is_alnum c

-- An identity whose name begins with a letter or a digit and holds letters, digits, `-`, `.`, `:` and
-- `_`, but no `_` before another one or before a `:`. Kubernetes allows other names too, of the kinds
-- whose names only have to be a segment of a path.
pub record IsEncodable (m : ObjectMetadata) : Type 0 where
  pub namespace : all_chars is_plain m.namespace ≡ true
  pub name_start : starts_alnum m.name ≡ true
  pub name : all_chars is_source_char m.name ≡ true
  pub clear : is_clear m.name ≡ true
  pub group : all_chars is_plain m.group ≡ true
  pub kind : all_chars is_alnum m.kind ≡ true

and_left : (a b : Bool) → (a && b) ≡ true → a ≡ true
and_left a b e = ground arith

and_right : (a b : Bool) → (a && b) ≡ true → b ≡ true
and_right a b e = ground arith

and_both : (a b : Bool) → a ≡ true → b ≡ true → (a && b) ≡ true
and_both a b e f = ground arith

all_true : (a b c d : Bool) → a ≡ true → b ≡ true → c ≡ true → d ≡ true → (a && b && c && d) ≡ true
all_true a b c d e f g h = ground arith

other_than : (a b : Bool) → (a || b) ≡ true → b ≡ false → a ≡ true
other_than a b e f = ground arith

if_true : {A : Type 0} (b : Bool) (x y : A) → b ≡ true → (if b then x else y) ≡ x
if_true true x y e = refl
if_true false x y e = absurd (cc)

lacking :
    (test : ℕ → Bool)
    → test separator ≡ false
    → (s : Str) → all_chars test s ≡ true
    → Lacks separator s
lacking test fails [] h = tt
lacking test fails (c ∷ s) h = (
  λ e.
      let passes : test c ≡ true = and_left (test c) (all_chars test s) h in
      let not_it : test c ≡ false = subst (λ x. test x ≡ false) (sym e) fails in absurd (cc),
  lacking test fails s (and_right (test c) (all_chars test s) h),
)

at_first-append : (sep : ℕ) (s t : Str) → Lacks sep s → at_first sep (s ++ sep ∷ t) ≡ some (s, t)
unfolding at_first in_front
at_first-append sep [] t h = ground arith
at_first-append sep (c ∷ s) t h = ground (arith, at_first-append sep s t h.1)

at_last_lacking : (sep : ℕ) (s : Str) → Lacks sep s → at_last sep s ≡ none
unfolding at_last in_front or_here
at_last_lacking sep [] h = refl
at_last_lacking sep (c ∷ s) h = ground (arith, at_last_lacking sep s h.1)

at_last-append : (sep : ℕ) (s t : Str) → Lacks sep t → at_last sep (s ++ sep ∷ t) ≡ some (s, t)
unfolding at_last in_front or_here
at_last-append sep [] t h = ground (arith, at_last_lacking sep t h)
at_last-append sep (c ∷ s) t h = ground (arith, at_last-append sep s t h)

replace_two-keep :
    (a b : ℕ) (new : Str) (c : ℕ) (s : Str)
    → c ≢ a
    → replace_two a b new (c ∷ s) ≡ c ∷ replace_two a b new s
unfolding replace_two
replace_two-keep a b new c [] h = refl
replace_two-keep a b new c (d ∷ s) h = ground arith

replaced :
    (s : Str)
    → is_clear s ≡ true
    → replace_two b'_' b'_' (codes ":") (replace_one b':' (codes "__") s) ≡ s
unfolding replace_one replace_two
replaced [] h = refl
replaced (c ∷ []) h = ground arith
replaced (c ∷ d ∷ s) h = ground (
  arith,
  replaced (d ∷ s) (ground arith),
  replace_two-keep b'_' b'_' (codes ":") c (replace_one b':' (codes "__") (d ∷ s)),
)

replaced-all_chars :
    (s : Str)
    → all_chars is_source_char s ≡ true
    → all_chars is_name_char (replace_one b':' colon_replacement s) ≡ true
unfolding replace_one
replaced-all_chars [] h = refl
replaced-all_chars (c ∷ s) h = elim (Bool-cases (c == b':')) [
  | inl e ↦
      rw e (replaced-all_chars s (and_right (is_source_char c) (all_chars is_source_char s) h))
  | inr e ↦ rw e (
      and_both (is_name_char c) _
        (other_than (is_name_char c) (c == b':')
          (and_left (is_source_char c) (all_chars is_source_char s) h) e)
        (replaced-all_chars s (and_right (is_source_char c) (all_chars is_source_char s) h)))
]

alnum-not_colon : (c : ℕ) → is_alnum c ≡ true → (c == b':') ≡ false
alnum-not_colon c h = ground arith

replaced-is_name :
    (s : Str)
    → starts_alnum s ≡ true
    → all_chars is_source_char s ≡ true
    → is_name (replace_one b':' colon_replacement s) ≡ true
unfolding replace_one
replaced-is_name [] h k = absurd (cc)
replaced-is_name (c ∷ s) h k = rw (alnum-not_colon c h) (
    and_both (is_alnum c) _ h
      (replaced-all_chars s (and_right (is_source_char c) (all_chars is_source_char s) k)))

-- The text of an identity is read as that identity, where its name begins with a letter or a digit and
-- holds letters, digits, `-`, `.`, `:` and `_`, but no `_` before another one or before a `:`, its
-- namespace and its group hold letters, digits, `-` and `.`, and its kind letters and digits.
pub from_string-to_string :
    (m : ObjectMetadata) → IsEncodable m → object_metadata_from_string (to_string m) ≡ some m
unfolding to_string object_metadata_from_string parse_namespace parse_kind parse_name
from_string-to_string m h =
    let name = replace_one b':' colon_replacement m.name in
    ap parse_namespace (
      at_first-append separator m.namespace
        (name ++ (separator ∷ (m.group ++ (separator ∷ m.kind))))
        (lacking is_plain refl m.namespace h.namespace))
    ∙ ap (λ rest. parse_kind m.namespace (at_last separator rest))
        (sym (append_assoc name (separator ∷ m.group) (separator ∷ m.kind)))
    ∙ ap (parse_kind m.namespace) (
        at_last-append separator (name ++ (separator ∷ m.group)) m.kind
          (lacking is_alnum refl m.kind h.kind))
    ∙ ap (parse_name m.namespace m.kind)
        (at_last-append separator name m.group (lacking is_plain refl m.group h.group))
    ∙ passed name h.namespace (replaced-is_name m.name h.name_start h.name) h.group h.kind
    ∙ ap (λ n. some (record m { name = n })) (replaced m.name h.clear)
  where
    passed :
        (name : Str)
        → all_chars is_plain m.namespace ≡ true
        → is_name name ≡ true
        → all_chars is_plain m.group ≡ true
        → all_chars is_alnum m.kind ≡ true
        → parse_name m.namespace m.kind (some (name, m.group))
          ≡ some (record m { name = replace_two b'_' b'_' (codes ":") name })
    passed name a b c d =
        if_true
          (all_chars is_plain m.namespace
            && is_name name
            && all_chars is_plain m.group
            && all_chars is_alnum m.kind)
          _ none
          (all_true (all_chars is_plain m.namespace) (is_name name) (all_chars is_plain m.group)
            (all_chars is_alnum m.kind) a b c d)
