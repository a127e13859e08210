-- ===== src/Resource/Text.antt =====
-- pkg/resource/resourcemetadata.go: the text of an identity, and what is read from such a text. The
-- namespace, the group and the kind hold no separator, so the regular expression has one way to match:
-- the namespace stands before the first separator, the kind after the last one, and the group before
-- the kind.
pub mod RoundTrip
use jpl.Base.{
  ℕ, Str, codes, List, [], ◌∷◌, ◌++◌, Option, none, some, Bool, true, false, ◌&&◌, ◌||◌, leb, ◌==◌,
  if◌then◌else◌, replace_one, replace_two,
}
use jpl.Resource.Object.{ObjectMetadata}

abbrev pub separator : ℕ
separator = b'_'

abbrev pub colon_replacement : Str
colon_replacement = codes "__"

abbrev pub is_alnum : ℕ → Bool
is_alnum c = (leb 48 c && leb c 57) || (leb 65 c && leb c 90) || (leb 97 c && leb c 122)

-- namespaceChars and groupChars
abbrev pub is_plain : ℕ → Bool
is_plain c = is_alnum c || c == b'-' || c == b'.'

abbrev pub is_name_char : ℕ → Bool
is_name_char c = is_plain c || c == b'_'

abbrev pub all_chars : (ℕ → Bool) → Str → Bool
all_chars test [] = true
all_chars test (c ∷ s) = test c && all_chars test s

-- nameChars
abbrev pub is_name : Str → Bool
is_name [] = false
is_name (c ∷ s) = is_alnum c && all_chars is_name_char s

-- ToString
pub to_string : ObjectMetadata → Str
to_string m =
    m.namespace
    ++ (separator
        ∷ (replace_one b':' colon_replacement m.name
            ++ (separator ∷ (m.group ++ (separator ∷ m.kind)))))

in_front : ℕ → Option (Str × Str) → Option (Str × Str)
in_front c none = none
in_front c (some (s, t)) = some (c ∷ s, t)

-- What stands before and after the first separator.
at_first : ℕ → Str → Option (Str × Str)
at_first sep [] = none
at_first sep (c ∷ s) =
    let later = in_front c (at_first sep s) in if c == sep then some ([], s) else later

or_here : Bool → Str → Option (Str × Str) → Option (Str × Str)
or_here here s (some parts) = some parts
or_here true s none = some ([], s)
or_here false s none = none

-- What stands before and after the last separator.
at_last : ℕ → Str → Option (Str × Str)
at_last sep [] = none
at_last sep (c ∷ s) = or_here (c == sep) s (in_front c (at_last sep s))

parse_name : Str → Str → Option (Str × Str) → Option ObjectMetadata
parse_name namespace kind none = none
parse_name namespace kind (some (name, group)) =
    if all_chars is_plain namespace
      && is_name name
      && all_chars is_plain group
      && all_chars is_alnum kind
    then some (record {
      name = replace_two b'_' b'_' (codes ":") name;
      namespace = namespace;
      group = group;
      kind = kind;
    })
    else none

parse_kind : Str → Option (Str × Str) → Option ObjectMetadata
parse_kind namespace none = none
parse_kind namespace (some (rest, kind)) = parse_name namespace kind (at_last separator rest)

parse_namespace : Option (Str × Str) → Option ObjectMetadata
parse_namespace none = none
parse_namespace (some (namespace, rest)) = parse_kind namespace (at_last separator rest)

-- ObjectMetadataFromString: `none` where it answers false.
pub object_metadata_from_string : Str → Option ObjectMetadata
object_metadata_from_string text = parse_namespace (at_first separator text)
