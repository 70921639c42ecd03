-- ===== src/Keys.antt =====
-- internal/instance/keys.go: the builder of instance-aware keys, and what it reads back.
pub mod Parse
pub mod Ownership
pub mod Patterns
pub mod Tests
use birb_nest.Prelude.{ℕ, Bool, not, ◌||◌, List, [], ◌∷◌, ◌++◌, Text, lit, text_eq, if◌then◌else◌}
use birb_nest.Prelude.Strings.{join, split, has_prefix, trim_prefix, trim_space}

-- Separator
abbrev pub separator : ℕ
separator = b':'

-- Prefix
abbrev pub instance_prefix : Text
instance_prefix = lit "instance"

pub record KeyBuilder : Type 0 where
  pub instance_id : Text

unfoldable pub new_key_builder : Text → KeyBuilder
new_key_builder id = record { instance_id = trim_space id }

unfoldable pub has_instance : KeyBuilder → Bool
has_instance kb = not (text_eq kb.instance_id [])

unfoldable pub build_key : KeyBuilder → List Text → Text
build_key kb components =
    if text_eq kb.instance_id []
    then join separator components
    else join separator (instance_prefix ∷ kb.instance_id ∷ components)

-- The parts of a split key; `len(parts) >= 2` is the pattern.
parse_parts : List Text → Text × List Text
parse_parts (p ∷ id ∷ rest) = if text_eq p instance_prefix then (id, rest) else ([], p ∷ id ∷ rest)
parse_parts parts = ([], parts)

unfoldable pub parse_key : Text → Text × List Text
unfolding parse_parts
parse_key key = parse_parts (split separator key)

-- "instance:<id>:"
unfoldable pub owned_prefix : KeyBuilder → Text
owned_prefix kb = instance_prefix ++ (separator ∷ (kb.instance_id ++ (separator ∷ [])))

unfoldable pub build_pattern : KeyBuilder → Text → Text
build_pattern kb p =
    if text_eq kb.instance_id []
    then (if text_eq p [] then lit "*" else p ++ lit "*")
    else let base = instance_prefix ++ (separator ∷ kb.instance_id) in
      if text_eq p [] then base ++ lit ":*" else base ++ (separator ∷ (p ++ lit "*"))

unfoldable pub is_instance_key : KeyBuilder → Text → Bool
unfolding owned_prefix
is_instance_key kb key =
    if text_eq kb.instance_id []
    then not (has_prefix key (instance_prefix ++ (separator ∷ [])))
    else has_prefix key (owned_prefix kb)

unfoldable pub strip_instance : KeyBuilder → Text → Text
unfolding is_instance_key owned_prefix
strip_instance kb key =
    if text_eq kb.instance_id [] || not (is_instance_key kb key)
    then key
    else trim_prefix key (owned_prefix kb)

unfoldable pub table_key : KeyBuilder → Text → Text → Text
unfolding build_key
table_key kb table row_id = build_key kb (lit "table" ∷ table ∷ lit "row" ∷ row_id ∷ [])

unfoldable pub index_key : KeyBuilder → Text → Text → Text
unfolding build_key
index_key kb index value = build_key kb (lit "index" ∷ index ∷ value ∷ [])

unfoldable pub cache_key : KeyBuilder → List Text → Text
unfolding build_key
cache_key kb components = build_key kb (lit "cache" ∷ components)

unfoldable pub schema_key : KeyBuilder → Text → Text
unfolding build_key
schema_key kb table = build_key kb (lit "schema" ∷ table ∷ [])

unfoldable pub event_log_key : KeyBuilder → Text → Text
unfolding build_key
event_log_key kb timestamp = build_key kb (lit "eventlog" ∷ timestamp ∷ [])
