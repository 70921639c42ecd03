-- ===== src/Keys/Ownership.antt =====
-- Which builder owns a key, and when two tenants share one.
use birb_nest.Prelude.{
  ◌⊎◌, ◌≡◌, ◌≢◌, refl, sym, ◌∙◌, inl, inr, true, List, [], ◌∷◌, ◌++◌, append_assoc, arith, Text,
  lit, not-text_eq, text_eq_refl,
}
use birb_nest.Prelude.Strings.{
  join, Free, has_prefix, skip, append-skip, has_prefix-append, trim_prefix-append, Free-cancel,
  append_cancel_left,
}
use birb_nest.Keys.Parse.{build_key-named}
use birb_nest.Keys.{
  KeyBuilder, separator, instance_prefix, build_key, owned_prefix, is_instance_key, strip_instance,
  cache_key,
}

is_empty : (s : Text) → (s ≡ []) ⊎ (s ≢ [])
is_empty [] = inl refl
is_empty (c ∷ s) = inr (λ e. cc)

prefix_layout :
    (kb : KeyBuilder) (s : Text)
    → owned_prefix kb ++ s ≡ instance_prefix ++ (separator ∷ (kb.instance_id ++ (separator ∷ s)))
unfolding owned_prefix
prefix_layout kb s = simp append_assoc

-- A key of a named builder with a component: the owner's prefix, then the components.
pub build_key_layout :
    (kb : KeyBuilder) (c : Text) (cs : List Text)
    → kb.instance_id ≢ []
    → build_key kb (c ∷ cs) ≡ owned_prefix kb ++ join separator (c ∷ cs)
unfolding join
build_key_layout kb c cs h =
    build_key-named kb (c ∷ cs) h ∙ sym (prefix_layout kb (join separator (c ∷ cs)))

pub is_instance_key-named :
    (kb : KeyBuilder) (key : Text)
    → kb.instance_id ≢ []
    → is_instance_key kb key ≡ has_prefix key (owned_prefix kb)
unfolding is_instance_key
is_instance_key-named kb key h = rw (not-text_eq kb.instance_id [] h)

owned_build_key :
    (kb : KeyBuilder) (c : Text) (cs : List Text)
    → kb.instance_id ≢ []
    → is_instance_key kb (build_key kb (c ∷ cs)) ≡ true
owned_build_key kb c cs h =
    is_instance_key-named kb (build_key kb (c ∷ cs)) h
    ∙ rw (build_key_layout kb c cs h) (has_prefix-append (owned_prefix kb) _)

stripped_build_key :
    (kb : KeyBuilder) (c : Text) (cs : List Text)
    → kb.instance_id ≢ []
    → strip_instance kb (build_key kb (c ∷ cs)) ≡ join separator (c ∷ cs)
unfolding strip_instance
stripped_build_key kb c cs h = rw (not-text_eq kb.instance_id [] h) (
    rw (build_key_layout kb c cs h, has_prefix-append (owned_prefix kb))
      (trim_prefix-append (owned_prefix kb) _))

-- A builder with an ID accepts each key that it makes from at least one component, and strips it
-- to the components joined by the separator.
pub strip_instance-build_key :
    (kb : KeyBuilder) (c : Text) (cs : List Text)
    → kb.instance_id ≢ []
    → (is_instance_key kb (build_key kb (c ∷ cs)) ≡ true)
      × (strip_instance kb (build_key kb (c ∷ cs)) ≡ join separator (c ∷ cs))
strip_instance-build_key kb c cs h = (owned_build_key kb c cs h, stripped_build_key kb c cs h)

-- An accepted key starts with the owner's prefix.
owned_layout :
    (kb : KeyBuilder) (key : Text)
    → kb.instance_id ≢ []
    → is_instance_key kb key ≡ true
    → key
      ≡ instance_prefix
        ++ (separator ∷ (kb.instance_id ++ (separator ∷ skip key (owned_prefix kb))))
owned_layout kb key h o =
    append-skip key (owned_prefix kb) (sym (is_instance_key-named kb key h) ∙ o)
    ∙ prefix_layout kb _

two_owners :
    (a b : KeyBuilder) (key : Text)
    → Free separator a.instance_id
    → Free separator b.instance_id
    → a.instance_id ≢ []
    → b.instance_id ≢ []
    → is_instance_key a key ≡ true
    → is_instance_key b key ≡ true
    → a.instance_id ≡ b.instance_id
two_owners a b key fa fb na nb oa ob =
    (Free-cancel separator a.instance_id b.instance_id (skip key (owned_prefix a))
      (skip key (owned_prefix b)) fa fb
      (append_cancel_left (instance_prefix ++ (separator ∷ [])) _ _
        (sym (owned_layout a key na oa) ∙ owned_layout b key nb ob))).0

-- A key of a named builder is no key for the builder with no ID.
owned_not_legacy :
    (a b : KeyBuilder) (key : Text)
    → a.instance_id ≢ []
    → b.instance_id ≡ []
    → is_instance_key a key ≡ true
    → is_instance_key b key ≡ true
    → ⊥
unfolding is_instance_key
owned_not_legacy a b key na eb oa ob = cc (
  text_eq_refl [],
  has_prefix-append (instance_prefix ++ (separator ∷ []))
      (a.instance_id ++ (separator ∷ skip key (owned_prefix a))),
  owned_layout a key na oa,
)

-- Two builders that accept the same key have the same ID, where neither ID holds the separator.
pub is_instance_key_unique :
    (a b : KeyBuilder) (key : Text)
    → Free separator a.instance_id
    → Free separator b.instance_id
    → is_instance_key a key ≡ true
    → is_instance_key b key ≡ true
    → a.instance_id ≡ b.instance_id
is_instance_key_unique a b key fa fb oa ob = elim (is_empty a.instance_id) [
  | inl ea ↦ elim (is_empty b.instance_id) [
    | inl eb ↦ ea ∙ sym eb
    | inr nb ↦ absurd (owned_not_legacy b a key nb ea ob oa)
  ]
  | inr na ↦ elim (is_empty b.instance_id) [
    | inl eb ↦ absurd (owned_not_legacy a b key na eb oa ob)
    | inr nb ↦ two_owners a b key fa fb na nb oa ob
  ]
]

cache_key-named :
    (kb : KeyBuilder) (key : Text)
    → kb.instance_id ≢ []
    → cache_key kb (key ∷ [])
      ≡ instance_prefix
        ++ (separator ∷ (kb.instance_id ++ (separator ∷ (lit "cache" ++ (separator ∷ key)))))
unfolding cache_key join
cache_key-named kb key h = build_key-named kb (lit "cache" ∷ key ∷ []) h

cache_key-unnamed :
    (kb : KeyBuilder) (key : Text)
    → kb.instance_id ≡ []
    → cache_key kb (key ∷ []) ≡ lit "cache" ++ (separator ∷ key)
unfolding cache_key build_key join
cache_key-unnamed kb key e = rw (e, text_eq_refl)

-- Two cache keys are the same only for one ID and one key: distinct tenants and distinct keys
-- never share an entry, where neither ID holds the separator. The keys may hold it.
pub cache_key_injective :
    (a b : KeyBuilder) (k j : Text)
    → Free separator a.instance_id
    → Free separator b.instance_id
    → cache_key a (k ∷ []) ≡ cache_key b (j ∷ [])
    → (a.instance_id ≡ b.instance_id) × (k ≡ j)
cache_key_injective a b k j fa fb e = elim (is_empty a.instance_id) [
  | inl ea ↦ elim (is_empty b.instance_id) [
    | inl eb ↦ (
      ea ∙ sym eb,
      append_cancel_left (lit "cache" ++ (separator ∷ [])) k j
          (sym (cache_key-unnamed a k ea) ∙ e ∙ cache_key-unnamed b j eb),
    )
    | inr nb ↦ absurd (ground (arith, cache_key-unnamed a k ea, cache_key-named b j nb))
  ]
  | inr na ↦ elim (is_empty b.instance_id) [
    | inl eb ↦ absurd (ground (arith, cache_key-named a k na, cache_key-unnamed b j eb))
    | inr nb ↦ named na nb
  ]
]
  where
    named : a.instance_id ≢ [] → b.instance_id ≢ [] → (a.instance_id ≡ b.instance_id) × (k ≡ j)
    named na nb =
        let c =
          Free-cancel separator a.instance_id b.instance_id (lit "cache" ++ (separator ∷ k))
            (lit "cache" ++ (separator ∷ j)) fa fb
            (append_cancel_left (instance_prefix ++ (separator ∷ [])) _ _
              (sym (cache_key-named a k na) ∙ e ∙ cache_key-named b j nb)) in
        (c.0, append_cancel_left (lit "cache" ++ (separator ∷ [])) k j c.1)

pub cache_key_cancel :
    (kb : KeyBuilder) (k j : Text) → cache_key kb (k ∷ []) ≡ cache_key kb (j ∷ []) → k ≡ j
cache_key_cancel kb k j e = elim (is_empty kb.instance_id) [
  | inl n ↦
      append_cancel_left (lit "cache" ++ (separator ∷ [])) k j
        (sym (cache_key-unnamed kb k n) ∙ e ∙ cache_key-unnamed kb j n)
  | inr n ↦ append_cancel_left (separator ∷ (lit "cache" ++ (separator ∷ []))) k j (
      append_cancel_left kb.instance_id _ _ (
        append_cancel_left (instance_prefix ++ (separator ∷ [])) _ _
          (sym (cache_key-named kb k n) ∙ e ∙ cache_key-named kb j n)))
]

append-ne-nil : (s t : Text) → s ≢ [] → (s ++ t) ≢ []
append-ne-nil [] t h = absurd (h refl)
append-ne-nil (c ∷ s) t h = λ e. cc

-- An ID that holds the separator shares entries: for every named builder and every key there is
-- another ID and another key with the same cache key.
pub cache_key_collision :
    (id k : Text)
    → id ≢ []
    → cache_key (record { instance_id = id }) ((lit "cache" ++ (separator ∷ k)) ∷ [])
      ≡ cache_key (record { instance_id = id ++ (separator ∷ lit "cache") }) (k ∷ [])
cache_key_collision id k h =
    cache_key-named _ _ h ∙ sym (cache_key-named _ _ (append-ne-nil id _ h) ∙ simp append_assoc)

-- Under one builder distinct keys have distinct cache keys, whatever the ID.
pub cache_key_injective_same :
    (kb : KeyBuilder) (k j : Text) → cache_key kb (k ∷ []) ≡ cache_key kb (j ∷ []) → k ≡ j
cache_key_injective_same kb k j e = elim (is_empty kb.instance_id) [
  | inl u ↦
      append_cancel_left (lit "cache" ++ (separator ∷ [])) k j
        (sym (cache_key-unnamed kb k u) ∙ e ∙ cache_key-unnamed kb j u)
  | inr n ↦ append_cancel_left (lit "cache" ++ (separator ∷ [])) k j (
      append_cancel_left (separator ∷ []) _ _ (
        append_cancel_left kb.instance_id _ _ (
          append_cancel_left (instance_prefix ++ (separator ∷ [])) _ _
            (sym (cache_key-named kb k n) ∙ e ∙ cache_key-named kb j n))))
]
