-- ===== src/Registry/Laws.antt =====
-- What the registry relies on, and what a caller reads after it saved or deleted an instance.
use birb_nest.Prelude.{
  ℕ, ◌+◌, ◌≤◌, ◌≡◌, ◌≢◌, refl, sym, ◌∙◌, ap, false, ◌⊎◌, inl, inr, Option, none, some, [], Text,
  text_eq, text_eq_refl, arith, Option-cases, Bool-cases, Sum-cases,
}
use birb_nest.Prelude.Maps.{lookup, remove, lookup-insert, lookup-remove}
use birb_nest.Cache.{Bytes}
use birb_nest.Instance.{Context, validate, update_last_active, clone}
use birb_nest.Registry.{
  Registry, Store, Codec, build_key, cache_ttl, new_registry, get_from_mem_cache, update_mem_cache,
  register, get, update, delete,
}

-- Of the entries that a state holds: a call touches only the key that it names, and a call that
-- succeeds does what it says.
pub record IsStore {S : Type 0} (c : Store S) (stored : S → Text → Option Bytes) : Type 0 where
  pub get_keeps : (k j : Text) (s : S) → stored (c.get k s).1 j ≡ stored s j
  pub get_found : (k : Text) (s : S) (v : Bytes) → (c.get k s).0 ≡ inr v → stored s k ≡ some v
  pub set_other :
      (k j : Text) (v : Bytes) (ttl : ℕ) (s : S)
      → text_eq k j ≡ false
      → stored (c.set k v ttl s).1 j ≡ stored s j
  pub set_done :
      (k : Text) (v : Bytes) (ttl : ℕ) (s : S)
      → (c.set k v ttl s).0 ≡ none
      → stored (c.set k v ttl s).1 k ≡ some v
  pub set_failed :
      (k : Text) (v : Bytes) (ttl : ℕ) (s : S) (e : Text)
      → (c.set k v ttl s).0 ≡ some e
      → (stored (c.set k v ttl s).1 k ≡ some v) ⊎ (stored (c.set k v ttl s).1 k ≡ stored s k)
  pub delete_other :
      (k j : Text) (s : S) → text_eq k j ≡ false → stored (c.delete k s).1 j ≡ stored s j
  pub delete_done : (k : Text) (s : S) → (c.delete k s).0 ≡ none → stored (c.delete k s).1 k ≡ none
  pub delete_failed :
      (k : Text) (s : S) (e : Text)
      → (c.delete k s).0 ≡ some e
      → (stored (c.delete k s).1 k ≡ none) ⊎ (stored (c.delete k s).1 k ≡ stored s k)

-- What was marshalled is read back.
abbrev pub RoundTrips : Codec → Type 0
RoundTrips codec = (c : Context) (b : Bytes) → codec.marshal c ≡ inr b → codec.unmarshal b ≡ inr c

clone_lem : (c : Context) → clone c ≡ c
unfolding clone
clone_lem c = refl

module _ {S : Type 0} (codec : Codec) (store : Store S) where
  -- A registration that succeeds: the bytes that were stored, and the entry in memory.
  pub register_done :
      (now : ℕ) (c : Context) (r : Registry S)
      → (register codec store now c r).0 ≡ none
      → (b : Bytes) × (text_eq c.instance_id [] ≡ false)
        × (codec.marshal (update_last_active now c) ≡ inr b)
        × ((store.set (build_key c.instance_id) b 86_400_000_000_000 r.world).0 ≡ none)
        × (register codec store now c r ≡ (
          none,
          update_last_active now c,
          update_mem_cache now (update_last_active now c) (record r {
            world = (store.set (build_key c.instance_id) b 86_400_000_000_000 r.world).1;
          }),
        ))
  unfolding register validate update_last_active
  register_done now c r h = elim (Sum-cases (codec.marshal (update_last_active now c))) [
    | inl (x, m) ↦ ground arith
    | inr (b, m) ↦
        elim (Option-cases (store.set (build_key c.instance_id) b 86_400_000_000_000 r.world).0) [
          | inl s ↦ (b, ground arith, m, s, ground arith)
          | inr (x, s) ↦ ground arith
        ]
  ]

  get_cached :
      (now : ℕ) (id : Text) (c : Context) (r : Registry S)
      → text_eq id [] ≡ false
      → get_from_mem_cache now id r ≡ some c
      → get codec store now id r ≡ (inr c, r)
  unfolding get
  get_cached now id c r e m = rw (e, m) refl

  pub fetch_stored :
      (now : ℕ) (id : Text) (c : Context) (b : Bytes) (r : Registry S)
      → text_eq id [] ≡ false
      → get_from_mem_cache now id r ≡ none
      → (store.get (build_key id) r.world).0 ≡ inr b
      → codec.unmarshal b ≡ inr c
      → (get codec store now id r).0 ≡ inr c
  unfolding get
  fetch_stored now id c b r e m g u = ground arith

  -- What Get returns is in memory, or in the store.
  pub get_sources :
      (now : ℕ) (id : Text) (c : Context) (r : Registry S)
      → (get codec store now id r).0 ≡ inr c
      → (get_from_mem_cache now id r ≡ some c)
        ⊎ ((b : Bytes) × ((store.get (build_key id) r.world).0 ≡ inr b)
            × (codec.unmarshal b ≡ inr c))
  unfolding get
  get_sources now id c r h = elim (Option-cases (get_from_mem_cache now id r)) [
    | inr (d, m) ↦ ground arith
    | inl m ↦ elim (Sum-cases (store.get (build_key id) r.world).0) [
      | inl (x, g) ↦ ground arith
      | inr (b, g) ↦ ground arith
    ]
  ]

  cached_update :
      (now now' : ℕ) (c : Context) (r : Registry S)
      → now' ≤ now + cache_ttl
      → get_from_mem_cache now' c.instance_id (update_mem_cache now c r) ≡ some c
  unfolding get_from_mem_cache update_mem_cache clone
  cached_update now now' c r h = ground (
    arith,
    lookup-insert c.instance_id c.instance_id
        (record { context = clone c; expiration = now + cache_ttl }) r.mem_cache,
    text_eq_refl c.instance_id,
  )

  -- Within five minutes of a Register that succeeded, with no call between them, Get of the same ID
  -- returns the context that was registered, with the time of the registration as its last activity,
  -- and leaves the registry and the store as they are.
  pub get-register :
      (now now' : ℕ) (c : Context) (r : Registry S)
      → (register codec store now c r).0 ≡ none
      → now' ≤ now + cache_ttl
      → get codec store now' c.instance_id (register codec store now c r).2
        ≡ (inr (update_last_active now c), (register codec store now c r).2)
  unfolding update_last_active
  get-register now now' c r h t =
      let (b, e, m, s, q) = register_done now c r h in
      rw q (
        get_cached now' c.instance_id (update_last_active now c) _ e
          (cached_update now now' (update_last_active now c) _ t))

  update_after_get :
      (now : ℕ) (c existing : Context) (r : Registry S)
      → (get codec store now c.instance_id r).0 ≡ inr existing
      → (update codec store now c r).0 ≡ none
      → update codec store now c r
        ≡ register codec store now
            (record c { created_at = existing.created_at })
            (get codec store now c.instance_id r).1
  unfolding update validate
  update_after_get now c existing r g h = elim (Bool-cases (text_eq c.instance_id [])) [
    | inl e ↦ ground arith
    | inr e ↦ ground arith
  ]

  -- Update keeps the time of creation: when it succeeds, a Get within five minutes of it, with no call
  -- between them, returns the caller's context with the time of the update as its last activity and
  -- the time of creation that Get returns before the update, whatever the caller's context said.
  pub update_keeps_created_at :
      (now now' : ℕ) (c existing : Context) (r : Registry S)
      → (get codec store now c.instance_id r).0 ≡ inr existing
      → (update codec store now c r).0 ≡ none
      → now' ≤ now + cache_ttl
      → (get codec store now' c.instance_id (update codec store now c r).2).0
        ≡ inr (update_last_active now (record c { created_at = existing.created_at }))
  update_keeps_created_at now now' c existing r g h t =
      let q = update_after_get now c existing r g h in
      let kept : Context = record c { created_at = existing.created_at } in
      rw q (
        ap (λ o. o.0)
          (get-register now now' kept (get codec store now c.instance_id r).1
            (sym (ap (λ o. o.0) q) ∙ h) t))

  pub delete_done :
      (id : Text) (r : Registry S)
      → (delete codec store id r).0 ≡ none
      → (text_eq id [] ≡ false)
        × ((store.delete (build_key id) r.world).0 ≡ none)
        × ((delete codec store id r).1 ≡ (record r {
          world = (store.delete (build_key id) r.world).1;
          mem_cache = remove id r.mem_cache;
          last_activity = remove id r.last_activity;
        }))
  unfolding delete
  delete_done id r h = elim (Option-cases (store.delete (build_key id) r.world).0) [
    | inl s ↦ ground arith
    | inr (x, s) ↦ ground arith
  ]

  pub forgotten :
      (now : ℕ) (id : Text) (r : Registry S)
      → lookup id r.mem_cache ≡ none
      → get_from_mem_cache now id r ≡ none
  unfolding get_from_mem_cache
  forgotten now id r h = rw h refl

  module _ {stored : S → Text → Option Bytes} (law : IsStore store stored) where
    -- After a Register that succeeded, a registry that starts afresh on the same store returns the
    -- registered context, with the time of the registration as its last activity, if the store
    -- answers its read with bytes and not with an error. The store must do what it says, and the byte
    -- form of a context must read back.
    pub get-register_restarted :
        (now now' : ℕ) (c : Context) (r : Registry S) (b : Bytes)
        → RoundTrips codec
        → (register codec store now c r).0 ≡ none
        → (store.get (build_key c.instance_id) (register codec store now c r).2.world).0 ≡ inr b
        → (get codec store now' c.instance_id
            (new_registry (register codec store now c r).2.world)).0
          ≡ inr (update_last_active now c)
    unfolding new_registry get_from_mem_cache lookup update_mem_cache
    get-register_restarted now now' c r b trips h g =
        let (d, e, m, s, q) = register_done now c r h in
        let w = ap (λ o. o.2.world) q in
        let found : some b ≡ some d =
          sym (law.get_found (build_key c.instance_id) _ b g)
          ∙ ap (λ v. stored v (build_key c.instance_id)) w
          ∙ law.set_done (build_key c.instance_id) d _ r.world s in
        fetch_stored now' c.instance_id (update_last_active now c) b
          (new_registry (register codec store now c r).2.world) e refl g
          (ground (arith, trips (update_last_active now c) d m))

    -- Nothing is found of an instance after a Delete that succeeded: a Get, with no call between them,
    -- returns no context. The store must do what it says.
    pub get-delete :
        (now : ℕ) (id : Text) (c : Context) (r : Registry S)
        → (delete codec store id r).0 ≡ none
        → (get codec store now id (delete codec store id r).1).0 ≢ inr c
    get-delete now id c r h g =
        let (e, d, q) = delete_done id r h in
        elim (get_sources now id c _ g) [
          | inl m ↦
              let gone : lookup id (remove id r.mem_cache) ≡ none =
                lookup-remove id id r.mem_cache ∙ rw (text_eq_refl id) refl in
              let n : get_from_mem_cache now id (delete codec store id r).1 ≡ none =
                forgotten now id _ (ap (λ o. lookup id o.mem_cache) q ∙ gone) in
              cc
          | inr (b, f, u) ↦
              let there = law.get_found (build_key id) _ b f in
              let w = ap (λ o. stored o.world (build_key id)) q in
              let gone = law.delete_done (build_key id) r.world d in cc
        ]
