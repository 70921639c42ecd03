-- ===== src/Registry/Ids.antt =====
-- The ID of the context that a call returns.
use birb_nest.Prelude.{
  ℕ, ◌≡◌, refl, sym, ◌∙◌, ap, ◌⊎◌, inl, inr, Option, none, some, [], Text, text_eq, arith,
  Option-cases, Bool-cases,
}
use birb_nest.Prelude.Maps.{lookup}
use birb_nest.Cache.{Bytes}
use birb_nest.Instance.{
  Context, InstanceError, instance_not_found, instance_not_active, invalid_instance_data,
  store_failed, register_failed, empty_instance_id, new_context, validate, update_last_active,
  clone,
}
use birb_nest.Registry.{
  accepted_update, updated, Registry, Store, Codec, Got, Saved, build_key, get_from_mem_cache,
  fresh_entry, register, get, get_or_create, update, created, got_or_created, accepted, save, saved,
}
use birb_nest.Registry.Laws.{IsStore, RoundTrips, get_sources}
use birb_nest.Registry.Named.{IsNamed}

module _ {S : Type 0} (codec : Codec) (store : Store S) where
  saved-id :
      (now : ℕ) (c : Context) (r : Registry S) (o : Option Text × S)
      → (saved codec store now c r o).1 ≡ c
  unfolding saved
  saved-id now c r (some e, w) = refl
  saved-id now c r (none, w) = refl

  save-id :
      (now : ℕ) (c : Context) (r : Registry S) (o : Text ⊎ Bytes)
      → (save codec store now c r o).1 ≡ c
  unfolding save
  save-id now c r (inl e) = refl
  save-id now c r (inr b) = saved-id now c r _

  accepted-id :
      (now : ℕ) (c : Context) (r : Registry S) (o : Option InstanceError)
      → (accepted codec store now c r o).1.instance_id ≡ c.instance_id
  unfolding accepted update_last_active
  accepted-id now c r (some e) = refl
  accepted-id now c r none = ap (λ d. d.instance_id) (save-id now (update_last_active now c) r _)

  created-id : (o : Saved S) (c : Context) → (created codec store o).0 ≡ inr c → o.1 ≡ c
  unfolding created
  created-id (none, d, r) c h = ground arith
  created-id (some e, d, r) c h = ground arith

module _ {S : Type 0} (codec : Codec) (store : Store S) {stored : S → Text → Option Bytes}
    (law : IsStore store stored) (trips : RoundTrips codec) where
  pub get-id :
      (now : ℕ) (id : Text) (c : Context) (r : Registry S)
      → IsNamed codec store law trips r
      → (get codec store now id r).0 ≡ inr c
      → c.instance_id ≡ id
  unfolding get_from_mem_cache fresh_entry clone
  get-id now id c r n h = elim (get_sources codec store now id c r h) [
    | inl m ↦ elim (Option-cases (lookup id r.mem_cache)) [
      | inl l ↦ ground arith
      | inr (e, l) ↦ ground (arith, n.memory id e l)
    ]
    | inr (b, g, u) ↦ n.entries id b (law.get_found (build_key id) r.world b g) c u
  ]

  got_or_created-id :
      (now : ℕ) (id : Text) (o : Got S) (c : Context)
      → ((d : Context) → o.0 ≡ inr d → d.instance_id ≡ id)
      → (got_or_created codec store now id o).0 ≡ inr c
      → c.instance_id ≡ id
  unfolding got_or_created register new_context
  got_or_created-id now id (inr d, r) c n h = n c h
  got_or_created-id now id (inl instance_not_found, r) c n h =
      sym (ap (λ d. d.instance_id) (created-id codec store _ c h))
      ∙ accepted-id codec store now (new_context now id) r (validate (new_context now id))
  got_or_created-id now id (inl empty_instance_id, r) c n h = n c h
  got_or_created-id now id (inl instance_not_active, r) c n h = n c h
  got_or_created-id now id (inl invalid_instance_data, r) c n h = n c h
  got_or_created-id now id (inl (store_failed m u), r) c n h = n c h
  got_or_created-id now id (inl (register_failed e), r) c n h = n c h

  pub get_or_create_by :
      (now : ℕ) (id : Text) (c : Context) (r : Registry S)
      → IsNamed codec store law trips r
      → (get_or_create codec store now id r).0 ≡ inr c
      → c.instance_id ≡ id
  unfolding get_or_create
  get_or_create_by now id c r n h = elim (Bool-cases (text_eq id [])) [
    | inl e ↦ ground arith
    | inr e ↦
        got_or_created-id now id (get codec store now id r) c (λ d g. get-id now id d r n g)
          (ground arith)
  ]

module _ {S : Type 0} (codec : Codec) (store : Store S) where
  updated-id :
      (now : ℕ) (c : Context) (o : Got S)
      → (updated codec store now c o).1.instance_id ≡ c.instance_id
  unfolding updated register
  updated-id now c (inl e, r) = refl
  updated-id now c (inr d, r) = accepted-id codec store now _ r _

  accepted_update-id :
      (now : ℕ) (c : Context) (r : Registry S) (o : Option InstanceError)
      → (accepted_update codec store now c r o).1.instance_id ≡ c.instance_id
  unfolding accepted_update
  accepted_update-id now c r (some e) = refl
  accepted_update-id now c r none = updated-id now c _

  -- Update leaves the ID of the caller's context.
  pub update-id :
      (now : ℕ) (c : Context) (r : Registry S)
      → (update codec store now c r).1.instance_id ≡ c.instance_id
  unfolding update
  update-id now c r = accepted_update-id now c r _
