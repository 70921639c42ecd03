-- ===== src/Registry/Kept.antt =====
-- Each operation that saves or deletes keeps a registry named.
use birb_nest.Prelude.{
  ℕ, ◌≡◌, inl, inr, Option, none, some, [], Text, text_eq, arith, Bool-cases, Sum-cases,
}
use birb_nest.Prelude.Maps.{lookup, lookup-remove}
use birb_nest.Cache.{Bytes}
use birb_nest.Instance.{
  Context, InstanceError, empty_instance_id, instance_not_found, instance_not_active,
  invalid_instance_data, store_failed, register_failed, new_context, validate, update_last_active,
}
use birb_nest.Registry.{
  Registry, Store, Codec, Got, Saved, should_update_activity, register, get_or_create, update,
  delete, touch, saved, save, accepted, accepted_update, is_due, created, got_or_created, updated,
  deleted, touched,
}
use birb_nest.Registry.Laws.{IsStore, RoundTrips}
use birb_nest.Registry.Named.{
  IsNamed, MemoryNames, StoreNames, Names, set-StoreNames, delete-StoreNames,
  update_mem_cache-IsNamed, get-IsNamed,
}

module _ {S : Type 0} (codec : Codec) (store : Store S) {stored : S → Text → Option Bytes}
    (law : IsStore store stored) (trips : RoundTrips codec) where
  saved-IsNamed :
      (now : ℕ) (c : Context) (r : Registry S) (o : Option Text × S)
      → MemoryNames codec store law trips r
      → StoreNames codec store law trips o.1
      → IsNamed codec store law trips (saved codec store now c r o).2
  unfolding saved
  saved-IsNamed now c r (some x, w) m n = record { memory = m; entries = n }
  saved-IsNamed now c r (none, w) m n =
      update_mem_cache-IsNamed codec store law trips now c (record r { world = w })
        (record { memory = m; entries = n })

  pub marshalled :
      (c : Context) (b : Bytes)
      → codec.marshal c ≡ inr b
      → Names codec store law trips c.instance_id b
  marshalled c b h d u = ground (arith, trips c b h)

  save-IsNamed :
      (now : ℕ) (c : Context) (r : Registry S)
      → IsNamed codec store law trips r
      → IsNamed codec store law trips (save codec store now c r (codec.marshal c)).2
  unfolding save
  save-IsNamed now c r n = elim (Sum-cases (codec.marshal c)) [
    | inl (x, h) ↦ rw h n
    | inr (b, h) ↦ rw h (
        saved-IsNamed now c r _ n.memory (
          set-StoreNames codec store law trips c.instance_id b _ r.world (marshalled c b h)
            n.entries))
  ]

  accepted-IsNamed :
      (now : ℕ) (c : Context) (r : Registry S) (o : Option InstanceError)
      → IsNamed codec store law trips r
      → IsNamed codec store law trips (accepted codec store now c r o).2
  unfolding accepted
  accepted-IsNamed now c r (some x) n = n
  accepted-IsNamed now c r none n = save-IsNamed now (update_last_active now c) r n

  pub register-IsNamed :
      (now : ℕ) (c : Context) (r : Registry S)
      → IsNamed codec store law trips r
      → IsNamed codec store law trips (register codec store now c r).2
  unfolding register
  register-IsNamed now c r n = accepted-IsNamed now c r (validate c) n

  created-IsNamed :
      (o : Saved S)
      → IsNamed codec store law trips o.2
      → IsNamed codec store law trips (created codec store o).1
  unfolding created
  created-IsNamed (none, c, r) n = n
  created-IsNamed (some e, c, r) n = n

  got_or_created-IsNamed :
      (now : ℕ) (id : Text) (o : Got S)
      → IsNamed codec store law trips o.1
      → IsNamed codec store law trips (got_or_created codec store now id o).1
  unfolding got_or_created
  got_or_created-IsNamed now id (inr c, r) n = n
  got_or_created-IsNamed now id (inl instance_not_found, r) n =
      created-IsNamed _ (register-IsNamed now (new_context now id) r n)
  got_or_created-IsNamed now id (inl empty_instance_id, r) n = n
  got_or_created-IsNamed now id (inl instance_not_active, r) n = n
  got_or_created-IsNamed now id (inl invalid_instance_data, r) n = n
  got_or_created-IsNamed now id (inl (store_failed m u), r) n = n
  got_or_created-IsNamed now id (inl (register_failed e), r) n = n

  pub get_or_create-IsNamed :
      (now : ℕ) (id : Text) (r : Registry S)
      → IsNamed codec store law trips r
      → IsNamed codec store law trips (get_or_create codec store now id r).1
  unfolding get_or_create
  get_or_create-IsNamed now id r n = elim (Bool-cases (text_eq id [])) [
    | inl e ↦ rw e n
    | inr e ↦ rw e (got_or_created-IsNamed now id _ (get-IsNamed codec store law trips now id r n))
  ]

  updated-IsNamed :
      (now : ℕ) (c : Context) (o : Got S)
      → IsNamed codec store law trips o.1
      → IsNamed codec store law trips (updated codec store now c o).2
  unfolding updated
  updated-IsNamed now c (inl e, r) n = n
  updated-IsNamed now c (inr existing, r) n = register-IsNamed now _ r n

  accepted_update-IsNamed :
      (now : ℕ) (c : Context) (r : Registry S) (o : Option InstanceError)
      → IsNamed codec store law trips r
      → IsNamed codec store law trips (accepted_update codec store now c r o).2
  unfolding accepted_update
  accepted_update-IsNamed now c r (some x) n = n
  accepted_update-IsNamed now c r none n =
      updated-IsNamed now c _ (get-IsNamed codec store law trips now c.instance_id r n)

  deleted-IsNamed :
      (id : Text) (r : Registry S) (o : Option Text × S)
      → MemoryNames codec store law trips r
      → StoreNames codec store law trips o.1
      → IsNamed codec store law trips (deleted codec store id r o).1
  unfolding deleted
  deleted-IsNamed id r (some x, w) m n = record { memory = m; entries = n }
  deleted-IsNamed id r (none, w) m n = record {
    memory = λ j e h. ground (arith, lookup-remove id j r.mem_cache, m j e);
    entries = n;
  }

  pub delete-IsNamed :
      (id : Text) (r : Registry S)
      → IsNamed codec store law trips r
      → IsNamed codec store law trips (delete codec store id r).1
  unfolding delete
  delete-IsNamed id r n = elim (Bool-cases (text_eq id [])) [
    | inl e ↦ rw e n
    | inr e ↦ rw e (
        deleted-IsNamed id r _ n.memory
          (delete-StoreNames codec store law trips id r.world n.entries))
  ]

  touched-IsNamed :
      (now : ℕ) (o : Got S)
      → IsNamed codec store law trips o.1
      → IsNamed codec store law trips (touched codec store now o).1
  unfolding touched
  touched-IsNamed now (inl e, r) n = n
  touched-IsNamed now (inr c, r) n = register-IsNamed now (update_last_active now c) r n

  due-IsNamed :
      (now : ℕ) (id : Text) (r : Registry S)
      → IsNamed codec store law trips r
      → IsNamed codec store law trips (should_update_activity now id r).1
  unfolding should_update_activity
  due-IsNamed now id r n = elim (Bool-cases (is_due now (lookup id r.last_activity))) [
    | inl e ↦ rw e (record { memory = n.memory; entries = n.entries })
    | inr e ↦ rw e n
  ]

  pub touch-IsNamed :
      (now : ℕ) (id : Text) (r : Registry S)
      → IsNamed codec store law trips r
      → IsNamed codec store law trips (touch codec store now id r).1
  unfolding touch
  touch-IsNamed now id r n =
      let d = due-IsNamed now id r n in
      elim (Bool-cases (should_update_activity now id r).0) [
        | inl e ↦ rw e (touched-IsNamed now _ (get-IsNamed codec store law trips now id _ d))
        | inr e ↦ rw e d
      ]

  pub update-IsNamed :
      (now : ℕ) (c : Context) (r : Registry S)
      → IsNamed codec store law trips r
      → IsNamed codec store law trips (update codec store now c r).2
  unfolding update
  update-IsNamed now c r n = accepted_update-IsNamed now c r (validate c) n
