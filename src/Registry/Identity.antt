-- ===== src/Registry/Identity.antt =====
-- Whose context a caller gets, however the steps of the registry's callers interleave.
use birb_nest.Prelude.{
  ℕ, ◌≡◌, sym, inl, inr, Option, none, some, List, [], ◌∷◌, ◌++◌, Text, Sum-cases,
}
use birb_nest.Prelude.{All, ◌⊎◌, Bool-cases, arith, refl}
use birb_nest.Prelude.Maps.{lookup, lookup-remove}
use birb_nest.Cache.{Bytes}
use birb_nest.Instance.{Context}
use birb_nest.Registry.{
  Registry, Store, Codec, build_key, default_ttl, new_registry, clear_memory_cache, get_or_create,
  list, collect, scan_keys, refresh_read, refresh_write, found, should_update_activity, is_due,
}
use birb_nest.Registry.Laws.{IsStore, RoundTrips}
use birb_nest.Registry.Ids.{get_or_create_by}
use birb_nest.Registry.Named.{
  IsNamed, Names, StoreNames, get-StoreNames, set-StoreNames, delete-StoreNames, get-IsNamed,
  update_mem_cache-IsNamed,
}
use birb_nest.Registry.Kept.{
  register-IsNamed, get_or_create-IsNamed, update-IsNamed, delete-IsNamed, touch-IsNamed,
  marshalled,
}
use birb_nest.Registry.Steps.{
  System, Call, do_get, do_get_or_create, do_touch, do_register, do_update, do_delete, do_list,
  do_clear, perform, taken, begin_refresh, end_refresh, read_as, answered, begin_fetch, stored_as,
  begin_save, remember, begin_delete, forget, forget_activity, note_activity, Step, call,
  fetch_starts, save_starts, remembers, delete_starts, forgets, forgets_activity, notes_activity,
  refresh_starts, refresh_ends, Reach, here, next, started,
}

module _ {A : Type 0} (P : A → Type 0) where
  All-without : (xs : List A) (a : A) (ys : List A) → All P (xs ++ (a ∷ ys)) → All P (xs ++ ys)
  All-without [] a ys h = h.1
  All-without (x ∷ xs) a ys h = (h.0, All-without xs a ys h.1)

  All-at : (xs : List A) (a : A) (ys : List A) → All P (xs ++ (a ∷ ys)) → P a
  All-at [] a ys h = h.0
  All-at (x ∷ xs) a ys h = All-at xs a ys h.1

module _ {S : Type 0} (codec : Codec) (store : Store S) {stored : S → Text → Option Bytes}
    (law : IsStore store stored) (trips : RoundTrips codec) where
  -- A context for an ID has that ID.
  abbrev pub OfItsId : Text × Context → Type 0
  OfItsId p = p.1.instance_id ≡ p.0

  abbrev Sound : System S → Type 0
  Sound s =
      IsNamed codec store law trips s.registry
      × All (λ p. Names codec store law trips p.0 p.1) s.in_flight
      × All OfItsId s.pending

  taken-All :
      (id : Text) (w : S) (flight : List (Text × Bytes))
      → StoreNames codec store law trips w
      → All (λ p. Names codec store law trips p.0 p.1) flight
      → All
          (λ p. Names codec store law trips p.0 p.1)
          (taken id (refresh_read codec store id w).0 flight)
  unfolding refresh_read found
  taken-All id w flight n f = elim (Sum-cases (store.get (build_key id) w).0) [
    | inl (x, g) ↦ rw g f
    | inr (b, g) ↦ rw g (n id b (law.get_found (build_key id) w b g), f)
  ]

  perform-IsNamed :
      (x : Call) (r : Registry S)
      → IsNamed codec store law trips r
      → IsNamed codec store law trips (perform codec store x r)
  unfolding perform list collect scan_keys clear_memory_cache lookup
  perform-IsNamed (do_get now id) r n = get-IsNamed codec store law trips now id r n
  perform-IsNamed (do_get_or_create now id) r n =
      get_or_create-IsNamed codec store law trips now id r n
  perform-IsNamed (do_register now c) r n = register-IsNamed codec store law trips now c r n
  perform-IsNamed (do_update now c) r n = update-IsNamed codec store law trips now c r n
  perform-IsNamed (do_delete id) r n = delete-IsNamed codec store law trips id r n
  perform-IsNamed (do_touch now id) r n = touch-IsNamed codec store law trips now id r n
  perform-IsNamed (do_list now f) r n = n
  perform-IsNamed do_clear r n = record { memory = λ id e h. cc; entries = n.entries }

  begin-Sound :
      (s : System S) (id : Text) (ids : List Text)
      → Sound s
      → Sound (begin_refresh codec store id ids s)
  unfolding begin_refresh refresh_read
  begin-Sound s id ids (n, f, p) = (
    record {
      memory = n.memory;
      entries = get-StoreNames codec store law trips (build_key id) s.registry.world n.entries;
    },
    taken-All id s.registry.world s.in_flight n.entries f,
    p,
  )

  end-Sound :
      (s : System S) (id : Text) (b : Bytes) (xs ys : List (Text × Bytes))
      → s.in_flight ≡ xs ++ ((id, b) ∷ ys)
      → Sound s
      → Sound (end_refresh codec store id b (xs ++ ys) s)
  unfolding end_refresh refresh_write
  end-Sound s id b xs ys e (n, f, p) =
      let g : All (λ p. Names codec store law trips p.0 p.1) (xs ++ ((id, b) ∷ ys)) =
        rw (sym e) f in
      (
        record {
          memory = n.memory;
          entries =
              set-StoreNames codec store law trips id b default_ttl s.registry.world
                (All-at _ xs (id, b) ys g) n.entries;
        },
        All-without _ xs (id, b) ys g,
        p,
      )

  read_as-All :
      (id : Text) (o : Text ⊎ Context) (ps : List (Text × Context))
      → ((c : Context) → o ≡ inr c → c.instance_id ≡ id)
      → All OfItsId ps
      → All OfItsId (read_as codec store id o ps)
  unfolding read_as
  read_as-All id (inl e) ps n a = a
  read_as-All id (inr c) ps n a = (n c refl, a)

  answered-All :
      (id : Text) (w : S) (ps : List (Text × Context))
      → StoreNames codec store law trips w
      → All OfItsId ps
      → All OfItsId (answered codec store id (store.get (build_key id) w).0 ps)
  unfolding answered
  answered-All id w ps n a = elim (Sum-cases (store.get (build_key id) w).0) [
    | inl (x, g) ↦ rw g a
    | inr (b, g) ↦ rw g (
        read_as-All id (codec.unmarshal b) ps
          (λ c u. n id b (law.get_found (build_key id) w b g) c u) a)
  ]

  fetch-Sound : (s : System S) (id : Text) → Sound s → Sound (begin_fetch codec store id s)
  unfolding begin_fetch
  fetch-Sound s id (n, f, p) = (
    record {
      memory = n.memory;
      entries = get-StoreNames codec store law trips (build_key id) s.registry.world n.entries;
    },
    f,
    answered-All id s.registry.world s.pending n.entries p,
  )

  stored_as-Sound :
      (s : System S) (c : Context) (o : Option Text × S)
      → StoreNames codec store law trips o.1
      → Sound s
      → Sound (stored_as codec store c o s)
  unfolding stored_as
  stored_as-Sound s c (some e, w) m (n, f, p) = (record { memory = n.memory; entries = m }, f, p)
  stored_as-Sound s c (none, w) m (n, f, p) =
      (record { memory = n.memory; entries = m }, f, (refl, p))

  save-Sound :
      (s : System S) (c : Context) → Sound s → Sound (begin_save codec store c (codec.marshal c) s)
  unfolding begin_save
  save-Sound s c v = elim (Sum-cases (codec.marshal c)) [
    | inl (x, h) ↦ rw h v
    | inr (b, h) ↦ rw h (
        stored_as-Sound s c _
          (set-StoreNames codec store law trips c.instance_id b _ s.registry.world
            (marshalled codec store law trips c b h) v.0.entries)
          v)
  ]

  remember-Sound :
      (s : System S) (now : ℕ) (id : Text) (c : Context) (xs ys : List (Text × Context))
      → s.pending ≡ xs ++ ((id, c) ∷ ys)
      → Sound s
      → Sound (remember codec store now c (xs ++ ys) s)
  unfolding remember
  remember-Sound s now id c xs ys e (n, f, p) = (
    update_mem_cache-IsNamed codec store law trips now c s.registry n,
    f,
    All-without OfItsId xs (id, c) ys (rw (sym e) p),
  )

  delete-Sound : (s : System S) (id : Text) → Sound s → Sound (begin_delete codec store id s)
  unfolding begin_delete
  delete-Sound s id (n, f, p) = (
    record {
      memory = n.memory;
      entries = delete-StoreNames codec store law trips id s.registry.world n.entries;
    },
    f,
    p,
  )

  forget-Sound : (s : System S) (id : Text) → Sound s → Sound (forget codec store id s)
  unfolding forget
  forget-Sound s id (n, f, p) = (
    record {
      memory = λ j e h. n.memory j e (ground (arith, lookup-remove id j s.registry.mem_cache));
      entries = n.entries;
    },
    f,
    p,
  )

  note-Sound :
      (s : System S) (now : ℕ) (id : Text) → Sound s → Sound (note_activity codec store now id s)
  unfolding note_activity should_update_activity
  note-Sound s now id (n, f, p) =
      elim (Bool-cases (is_due now (lookup id s.registry.last_activity))) [
        | inl e ↦ rw e (record { memory = n.memory; entries = n.entries }, f, p)
        | inr e ↦ rw e (n, f, p)
      ]

  Step-Sound : {s t : System S} → Step codec store s t → Sound s → Sound t
  unfolding forget_activity
  Step-Sound (call s x) v = (perform-IsNamed x s.registry v.0, v.1, v.2)
  Step-Sound (fetch_starts s id) v = fetch-Sound s id v
  Step-Sound (save_starts s c) v = save-Sound s c v
  Step-Sound (remembers s now id c xs ys e) v = remember-Sound s now id c xs ys e v
  Step-Sound (delete_starts s id) v = delete-Sound s id v
  Step-Sound (forgets s id) v = forget-Sound s id v
  Step-Sound (forgets_activity s id) (n, f, p) =
      (record { memory = n.memory; entries = n.entries }, f, p)
  Step-Sound (notes_activity s now id) v = note-Sound s now id v
  Step-Sound (refresh_starts s id xs ys e) v = begin-Sound s id (xs ++ ys) v
  Step-Sound (refresh_ends s id b xs ys e) v = end-Sound s id b xs ys e v

  Reach-Sound : {s t : System S} → Reach codec store s t → Sound s → Sound t
  Reach-Sound here v = v
  Reach-Sound (next r st) v = Step-Sound st (Reach-Sound r v)

  -- However calls of the registry and its refreshing goroutines interleave, between their calls of
  -- the store and their changes of the memory cache too, from a new registry on a store whose
  -- entries under registry keys are contexts of their own IDs: a context that GetOrCreate then
  -- returns has the ID that was asked for, and so has each context that a Get under way has from
  -- the store. The store must do what it says and the byte form of a context must read back.
  pub get_or_create-id :
      (w : S) {s : System S}
      → StoreNames codec store law trips w
      → Reach codec store (started w) s
      → ((now : ℕ) (id : Text) (c : Context)
          → (get_or_create codec store now id s.registry).0 ≡ inr c
          → c.instance_id ≡ id)
        × All OfItsId s.pending
  unfolding new_registry lookup
  get_or_create-id w {s} n r =
      let (named, flight, pending) =
        Reach-Sound r (record { memory = λ j e q. cc; entries = n }, tt, tt) in
      (λ now id c h. get_or_create_by codec store law trips now id c s.registry named h, pending)
