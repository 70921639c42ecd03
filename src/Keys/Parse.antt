-- ===== src/Keys/Parse.antt =====
-- Keys that are built and read back.
use birb_nest.Prelude.{◌≡◌, ◌≢◌, refl, ap, List, [], ◌∷◌, arith, Text, text_eq, not-text_eq, All}
use birb_nest.Prelude.Strings.{join, Free, split-join, trim_space_idem}
use birb_nest.Keys.{
  KeyBuilder, separator, instance_prefix, new_key_builder, build_key, parse_key, parse_parts,
}

-- An instance ID that names an instance and does not clash with the separator.
pub record IsPlain (id : Text) : Type 0 where
  pub named : id ≢ []
  pub free : Free separator id

-- The key of a named builder.
pub build_key-named :
    (kb : KeyBuilder) (cs : List Text)
    → kb.instance_id ≢ []
    → build_key kb cs ≡ join separator (instance_prefix ∷ kb.instance_id ∷ cs)
unfolding build_key
build_key-named kb cs h = rw (not-text_eq kb.instance_id [] h)

Free-prefix : Free separator instance_prefix
Free-prefix = omega arith

-- Making a builder from a builder's ID changes nothing: the ID is trimmed once and for all.
pub new_key_builder_idem :
    (id : Text) → new_key_builder (new_key_builder id).instance_id ≡ new_key_builder id
unfolding new_key_builder
new_key_builder_idem id = ap (λ t. record { instance_id = t }) (trim_space_idem id)

-- Parsing a key that a builder made gives back the builder's ID and the components, where the ID
-- is not empty and neither it nor a component holds the separator.
pub parse_key-build_key :
    (kb : KeyBuilder) (cs : List Text)
    → IsPlain kb.instance_id
    → All (Free separator) cs
    → parse_key (build_key kb cs) ≡ (kb.instance_id, cs)
unfolding parse_key text_eq
parse_key-build_key kb cs p fs =
    rw (build_key-named kb cs p.named) (
      rw (split-join separator instance_prefix (kb.instance_id ∷ cs) Free-prefix (p.free, fs)) refl)

-- The components that begin like a key of an instance.
abbrev pub LooksOwned : List Text → Type 0
LooksOwned (p ∷ q ∷ cs) = p ≡ instance_prefix
LooksOwned cs = ⊥

parse_parts_unowned : (cs : List Text) → ¬ LooksOwned cs → parse_parts cs ≡ ([], cs)
unfolding parse_parts
parse_parts_unowned [] h = refl
parse_parts_unowned (p ∷ []) h = refl
parse_parts_unowned (p ∷ q ∷ cs) h = rw (not-text_eq p instance_prefix h)

-- A builder with no ID makes keys that parse to no ID and the same components, where there is a
-- component, none holds the separator, and they do not begin like a key of an instance.
pub parse_key-build_key_legacy :
    (c : Text) (cs : List Text)
    → All (Free separator) (c ∷ cs)
    → ¬ LooksOwned (c ∷ cs)
    → parse_key (build_key (record { instance_id = [] }) (c ∷ cs)) ≡ ([], c ∷ cs)
unfolding parse_key build_key text_eq
parse_key-build_key_legacy c cs fs h =
    rw (split-join separator c cs fs.0 fs.1) (parse_parts_unowned (c ∷ cs) h)
