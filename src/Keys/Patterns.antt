-- ===== src/Keys/Patterns.antt =====
-- Scan patterns: a trailing star stands for any text.
use mathlib.Core.List.{append-nil}
use birb_nest.Prelude.{
  ◌≡◌, ◌≢◌, refl, ap, sym, ◌∙◌, [], ◌∷◌, ◌++◌, append_assoc, Text, lit, text_eq, not-text_eq,
}
use birb_nest.Prelude.Strings.{has_prefix}
use birb_nest.Keys.Ownership.{is_instance_key-named}
use birb_nest.Keys.{KeyBuilder, owned_prefix, is_instance_key, build_pattern}

-- The text before a star at the end.
abbrev pub before_star : Text → Text
before_star [] = []
before_star (c ∷ []) = []
before_star (c ∷ d ∷ s) = c ∷ before_star (d ∷ s)

before_star-append : (s : Text) → before_star (s ++ lit "*") ≡ s
before_star-append [] = refl
before_star-append (c ∷ []) = refl
before_star-append (c ∷ d ∷ s) = ap (λ t. c ∷ t) (before_star-append (d ∷ s))

build_pattern-named :
    (kb : KeyBuilder) (p : Text)
    → kb.instance_id ≢ []
    → build_pattern kb p ≡ (owned_prefix kb ++ p) ++ lit "*"
unfolding build_pattern owned_prefix text_eq
build_pattern-named kb [] h = rw (not-text_eq kb.instance_id [] h) (simp append_assoc)
build_pattern-named kb (c ∷ p) h = rw (not-text_eq kb.instance_id [] h) (simp append_assoc)

pattern_stem :
    (kb : KeyBuilder) (p : Text)
    → kb.instance_id ≢ []
    → before_star (build_pattern kb p) ≡ owned_prefix kb ++ p
pattern_stem kb p h = rw (build_pattern-named kb p h) (before_star-append (owned_prefix kb ++ p))

pattern_stem_bare :
    (kb : KeyBuilder) → kb.instance_id ≢ [] → before_star (build_pattern kb []) ≡ owned_prefix kb
pattern_stem_bare kb h = pattern_stem kb [] h ∙ append-nil (owned_prefix kb)

-- The pattern of a builder with an ID ends in a star. With no prefix asked for, what stands before
-- the star begins exactly the keys that the builder accepts; with a prefix, it is the builder's
-- own prefix followed by that one.
pub build_pattern_owned :
    (kb : KeyBuilder) (p key : Text)
    → kb.instance_id ≢ []
    → (build_pattern kb p ≡ before_star (build_pattern kb p) ++ lit "*")
      × (has_prefix key (before_star (build_pattern kb [])) ≡ is_instance_key kb key)
      × (before_star (build_pattern kb p) ≡ before_star (build_pattern kb []) ++ p)
build_pattern_owned kb p key h = (
  build_pattern-named kb p h ∙ ap (λ t. t ++ lit "*") (sym (pattern_stem kb p h)),
  rw (pattern_stem_bare kb h) (sym (is_instance_key-named kb key h)),
  rw (pattern_stem kb p h, pattern_stem_bare kb h),
)
