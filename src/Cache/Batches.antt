-- ===== src/Cache/Batches.antt =====
-- What a tenant reads is what it wrote, one key or many at a time.
use birb_nest.Prelude.{
  ℕ, ◌≡◌, refl, sym, ◌∙◌, true, false, Option, none, some, List, [], ◌∷◌, map, Text, text_eq,
  text_eq_iff, text_eq_refl, text_eq_sound, not-text_eq, if◌then◌else◌, arith, inl, inr,
  Option-cases, Bool-cases,
}
use birb_nest.Prelude.Maps.{Dict, lookup, insert, lookup-insert}
use birb_nest.Keys.{KeyBuilder}
use birb_nest.Keys.Ownership.{cache_key_injective_same}
use birb_nest.Instance.{Carried}
use birb_nest.Cache.{Bytes, Result, ok, err, Cache, IsCache, elem}
use birb_nest.Cache.Contextual.{
  key_in, instance_items, context_builder, key_map, restore_keys, get_by, get_multiple_by,
  set_multiple_by,
}
use birb_nest.Cache.ByContext

module _ (kb : KeyBuilder) where
  key_in_eq : (k j : Text) → text_eq (key_in kb k) (key_in kb j) ≡ text_eq k j
  key_in_eq k j = elim (Bool-cases (text_eq k j)) [
    | inl e ↦ rw (text_eq_sound k j e) (text_eq_refl (key_in kb j) ∙ sym (text_eq_refl j))
    | inr e ↦
        not-text_eq _ _ (λ p. differ e ((text_eq_iff k j).1 (cache_key_injective_same kb k j p)))
        ∙ sym e
  ]
    where
      differ : text_eq k j ≡ false → text_eq k j ≡ true → ⊥
      differ e p = cc

  elem-map : (j : Text) (ks : List Text) → elem (key_in kb j) (map (key_in kb) ks) ≡ elem j ks
  unfolding elem
  elem-map j [] = refl
  elem-map j (k ∷ ks) = rw (key_in_eq k j, elem-map j ks)

  -- The key map takes each instance key of a list back to its key, and knows no other.
  lookup-key_map :
      (ks : List Text) (m : Dict Text) (j : Text)
      → lookup (key_in kb j) (key_map kb ks m)
        ≡ (if elem j ks then some j else lookup (key_in kb j) m)
  unfolding key_map elem
  lookup-key_map [] m j = refl
  lookup-key_map (k ∷ ks) m j = ground (
    arith,
    lookup-key_map ks (insert (key_in kb k) k m) j,
    lookup-insert (key_in kb k) (key_in kb j) k m,
    key_in_eq k j,
    text_eq_iff k j,
  )

  -- A map from instance keys holds each key under its own instance key.
  abbrev Inverts : Dict Text → Type 0
  Inverts m = (i k : Text) → lookup i m ≡ some k → i ≡ key_in kb k

  key_map-Inverts : (ks : List Text) (m : Dict Text) → Inverts m → Inverts (key_map kb ks m)
  unfolding key_map
  key_map-Inverts [] m h = h
  key_map-Inverts (k ∷ ks) m h = key_map-Inverts ks (insert (key_in kb k) k m) (inserted k m h)
    where
      inserted : (k : Text) (m : Dict Text) → Inverts m → Inverts (insert (key_in kb k) k m)
      inserted k m h i j e =
          ground (arith, lookup-insert (key_in kb k) i k m, text_eq_iff (key_in kb k) i, h i j)

  lookup-restore_keys :
      (m : Dict Text) (r : Dict Bytes) (j : Text)
      → Inverts m
      → lookup (key_in kb j) m ≡ some j
      → lookup j (restore_keys m r) ≡ lookup (key_in kb j) r
  unfolding restore_keys lookup
  lookup-restore_keys m [] j inv h = refl
  lookup-restore_keys m ((i, v) ∷ r) j inv h = elim (Option-cases (lookup i m)) [
    | inl e ↦ ground (arith, lookup-restore_keys m r j inv h, text_eq_iff i (key_in kb j))
    | inr (k, e) ↦ ground (
      arith,
      lookup-restore_keys m r j inv h,
      lookup-insert k j v (restore_keys m r),
      inv i k e,
      key_in_eq k j,
      text_eq_iff k j,
    )
  ]

  restore_keys_missing :
      (m : Dict Text) (r : Dict Bytes) (j : Text)
      → Inverts m
      → lookup (key_in kb j) m ≡ none
      → lookup j (restore_keys m r) ≡ none
  unfolding restore_keys lookup
  restore_keys_missing m [] j inv h = refl
  restore_keys_missing m ((i, v) ∷ r) j inv h = elim (Option-cases (lookup i m)) [
    | inl e ↦ ground (arith, restore_keys_missing m r j inv h)
    | inr (k, e) ↦ ground (
      arith,
      restore_keys_missing m r j inv h,
      lookup-insert k j v (restore_keys m r),
      inv i k e,
      text_eq_iff k j,
    )
  ]

  -- The items of a batch under their instance keys.
  lookup-instance_items :
      (items : Dict Bytes) (j : Text)
      → lookup (key_in kb j) (instance_items kb items) ≡ lookup j items
  unfolding instance_items lookup
  lookup-instance_items [] j = refl
  lookup-instance_items ((k, v) ∷ items) j = ground (
    arith,
    lookup-insert (key_in kb k) (key_in kb j) v (instance_items kb items),
    key_in_eq k j,
    lookup-instance_items items j,
  )

no_entry : (i : Text) → lookup {V = Text} i [] ≡ none
unfolding lookup
no_entry i = refl

none_Inverts : (kb : KeyBuilder) → Inverts kb []
unfolding lookup
none_Inverts kb i k e = cc

module _ {S : Type 0} (c : Cache S) {stored : S → Text → Option Bytes}
    (law : IsCache c stored) where
  results_of :
      (kb : KeyBuilder) (ks : List Text) (s : S) (r : Dict Bytes)
      → (get_multiple_by c kb ks s).0 ≡ ok r
      → (raw : Dict Bytes) × ((c.get_multiple (map (key_in kb) ks) s).0 ≡ ok raw)
        × (r ≡ restore_keys (key_map kb ks []) raw)
  unfolding get_multiple_by
  results_of kb ks s r h = by_result (c.get_multiple (map (key_in kb) ks) s).0 refl
    where
      by_result :
          (o : Result (Dict Bytes))
          → (c.get_multiple (map (key_in kb) ks) s).0 ≡ o
          → (raw : Dict Bytes) × ((c.get_multiple (map (key_in kb) ks) s).0 ≡ ok raw)
            × (r ≡ restore_keys (key_map kb ks []) raw)
      by_result (ok raw) e = (raw, e, ground arith)
      by_result (err x) e = ground arith

  get_multiple_by_exact :
      (kb : KeyBuilder) (ks : List Text) (s : S) (r : Dict Bytes) (j : Text)
      → (get_multiple_by c kb ks s).0 ≡ ok r
      → lookup j r ≡ (if elem j ks then stored s (key_in kb j) else none)
  get_multiple_by_exact kb ks s r j h =
      let (raw, found, q) = results_of kb ks s r h in
      let m = lookup-key_map kb ks [] j in
      let inv = key_map-Inverts kb ks [] (none_Inverts kb) in
      let there = law.get_multiple_found (map (key_in kb) ks) (key_in kb j) s raw found in
      elim (Bool-cases (elem j ks)) [
        | inl e ↦
            rw (q, e)
              (lookup-restore_keys kb _ raw j inv (m ∙ rw e) ∙ there ∙ rw (elem-map kb j ks, e))
        | inr e ↦
            rw (q, e) (restore_keys_missing kb _ raw j inv (m ∙ rw e (no_entry (key_in kb j))))
      ]

  get-set_multiple_by :
      (kb : KeyBuilder) (items : Dict Bytes) (ttl : ℕ) (s : S) (j : Text) (v w : Bytes)
      → (set_multiple_by c kb items ttl s).0 ≡ ok tt
      → lookup j items ≡ some v
      → (get_by c kb j (set_multiple_by c kb items ttl s).1).0 ≡ ok w
      → w ≡ v
  unfolding set_multiple_by get_by
  get-set_multiple_by kb items ttl s j v w h l g =
      let done =
        law.set_multiple_done (instance_items kb items) ttl (key_in kb j) s v h
          (lookup-instance_items kb items j ∙ l) in
      let found =
        law.get_found (key_in kb j) (c.set_multiple (instance_items kb items) ttl s).1 w g in
      cc (done, found)

  -- GetMultiple returns, under the keys asked for, exactly the tenant's entries that are stored:
  -- each key of the list with its value, and no other.
  pub get_multiple_exact :
      (ctx : Carried) (ks : List Text) (s : S) (r : Dict Bytes) (j : Text)
      → (ByContext.get_multiple c ctx ks s).0 ≡ ok r
      → lookup j r ≡ (if elem j ks then stored s (key_in (context_builder ctx) j) else none)
  unfolding ByContext.get_multiple
  get_multiple_exact ctx ks s r j h = get_multiple_by_exact (context_builder ctx) ks s r j h

  -- After SetMultiple without an error, each item of the batch is stored for the tenant, and a
  -- later Get of it that succeeds returns its value.
  pub get-set_multiple :
      (ctx : Carried) (items : Dict Bytes) (ttl : ℕ) (s : S) (j : Text) (v w : Bytes)
      → (ByContext.set_multiple c ctx items ttl s).0 ≡ ok tt
      → lookup j items ≡ some v
      → (ByContext.get c ctx j (ByContext.set_multiple c ctx items ttl s).1).0 ≡ ok w
      → w ≡ v
  unfolding ByContext.get ByContext.set_multiple
  get-set_multiple ctx items ttl s j v w h l g =
      get-set_multiple_by (context_builder ctx) items ttl s j v w h l g
