-- ===== src/Registry/Named.antt =====
-- A registry keeps under an ID contexts of that ID only, and each operation leaves it so.
use birb_nest.Prelude.{
  ℕ, ◌+◌, ◌≡◌, refl, sym, ◌∙◌, ap, ◌⊎◌, inl, inr, Option, none, some, [], Text, text_eq,
  text_eq_iff, text_eq_sound, arith, Option-cases, Bool-cases,
}
use birb_nest.Prelude.Maps.{lookup, lookup-insert}
use birb_nest.Cache.{Bytes}
use birb_nest.Instance.{Context, clone}
use birb_nest.Registry.{
  Registry, Store, Codec, CacheEntry, build_key, cache_ttl, get_from_mem_cache, update_mem_cache,
  get, decoded, fetched, fetch, says_missing,
}
use birb_nest.Registry.Laws.{IsStore, RoundTrips}

build_key_eq : (i j : Text) → text_eq (build_key i) (build_key j) ≡ text_eq i j
unfolding build_key text_eq
build_key_eq i j = refl

module _ {S : Type 0} (codec : Codec) (store : Store S) {stored : S → Text → Option Bytes}
    (law : IsStore store stored) (trips : RoundTrips codec) where
  -- Bytes that read as a context read as one of this ID.
  abbrev pub Names : Text → Bytes → Type 0
  Names id b = (c : Context) → codec.unmarshal b ≡ inr c → c.instance_id ≡ id

  abbrev pub StoreNames : S → Type 0
  StoreNames w = (id : Text) (b : Bytes) → stored w (build_key id) ≡ some b → Names id b

  abbrev pub MemoryNames : Registry S → Type 0
  MemoryNames r =
      (id : Text) (e : CacheEntry) → lookup id r.mem_cache ≡ some e → e.context.instance_id ≡ id

  -- What is kept under an ID is a context of that ID.
  pub record IsNamed (r : Registry S) : Type 0 where
    pub memory : MemoryNames r
    pub entries : StoreNames r.world

  pub get-StoreNames : (k : Text) (w : S) → StoreNames w → StoreNames (store.get k w).1
  get-StoreNames k w n id b h = n id b (sym (law.get_keeps k (build_key id) w) ∙ h)

  set_same :
      (k : Text) (b : Bytes) (ttl : ℕ) (w : S)
      → (stored (store.set k b ttl w).1 k ≡ some b)
        ⊎ (stored (store.set k b ttl w).1 k ≡ stored w k)
  set_same k b ttl w = elim (Option-cases (store.set k b ttl w).0) [
    | inl h ↦ inl (law.set_done k b ttl w h)
    | inr (x, h) ↦ law.set_failed k b ttl w x h
  ]

  delete_same :
      (k : Text) (w : S)
      → (stored (store.delete k w).1 k ≡ none) ⊎ (stored (store.delete k w).1 k ≡ stored w k)
  delete_same k w = elim (Option-cases (store.delete k w).0) [
    | inl h ↦ inl (law.delete_done k w h)
    | inr (x, h) ↦ law.delete_failed k w x h
  ]

  set_here :
      (id : Text) (b : Bytes) (ttl : ℕ) (w : S) (d : Bytes)
      → Names id b
      → StoreNames w
      → stored (store.set (build_key id) b ttl w).1 (build_key id) ≡ some d
      → Names id d
  set_here id b ttl w d m n h c u = elim (set_same (build_key id) b ttl w) [
    | inl q ↦ m c (ground arith)
    | inr q ↦ n id d (sym q ∙ h) c u
  ]

  delete_here :
      (id : Text) (w : S) (d : Bytes)
      → StoreNames w
      → stored (store.delete (build_key id) w).1 (build_key id) ≡ some d
      → Names id d
  delete_here id w d n h = elim (delete_same (build_key id) w) [
    | inl q ↦ ground arith
    | inr q ↦ n id d (sym q ∙ h)
  ]

  pub set-StoreNames :
      (id : Text) (b : Bytes) (ttl : ℕ) (w : S)
      → Names id b
      → StoreNames w
      → StoreNames (store.set (build_key id) b ttl w).1
  set-StoreNames id b ttl w m n j d h = elim (Bool-cases (text_eq id j)) [
    | inr e ↦
        n j d (sym (law.set_other (build_key id) (build_key j) b ttl w (build_key_eq id j ∙ e)) ∙ h)
    | inl e ↦
        let p = text_eq_sound id j e in
        λ c u.
          set_here id b ttl w d m n
            (ap (λ i. stored (store.set (build_key id) b ttl w).1 (build_key i)) p ∙ h) c u
          ∙ p
  ]

  pub delete-StoreNames :
      (id : Text) (w : S) → StoreNames w → StoreNames (store.delete (build_key id) w).1
  delete-StoreNames id w n j d h = elim (Bool-cases (text_eq id j)) [
    | inr e ↦
        n j d (sym (law.delete_other (build_key id) (build_key j) w (build_key_eq id j ∙ e)) ∙ h)
    | inl e ↦
        let p = text_eq_sound id j e in
        λ c u.
          delete_here id w d n
            (ap (λ i. stored (store.delete (build_key id) w).1 (build_key i)) p ∙ h) c u
          ∙ p
  ]

  pub update_mem_cache-IsNamed :
      (now : ℕ) (c : Context) (r : Registry S) → IsNamed r → IsNamed (update_mem_cache now c r)
  unfolding update_mem_cache clone
  update_mem_cache-IsNamed now c r n = record {
    memory = λ id e h. ground (
      arith,
      lookup-insert c.instance_id id (record { context = clone c; expiration = now + cache_ttl })
          r.mem_cache,
      text_eq_iff c.instance_id id,
      n.memory id e,
    );
    entries = n.entries;
  }

  decoded-IsNamed :
      (now : ℕ) (id : Text) (r : Registry S) (o : Text ⊎ Context)
      → IsNamed r
      → IsNamed (decoded codec store now id r o).1
  unfolding decoded
  decoded-IsNamed now id r (inl x) n = n
  decoded-IsNamed now id r (inr c) n =
      update_mem_cache-IsNamed now c _ (record { memory = n.memory; entries = n.entries })

  fetched-IsNamed :
      (now : ℕ) (id : Text) (r : Registry S) (o : (Text ⊎ Bytes) × S)
      → MemoryNames r
      → StoreNames o.1
      → IsNamed (fetched codec store now id r o).1
  unfolding fetched
  fetched-IsNamed now id r (inl x, w) m n = elim (Bool-cases (says_missing x)) [
    | inl e ↦ rw e (record { memory = m; entries = n })
    | inr e ↦ rw e (record { memory = m; entries = n })
  ]
  fetched-IsNamed now id r (inr b, w) m n =
      decoded-IsNamed now id (record r { world = w }) (codec.unmarshal b)
        (record { memory = m; entries = n })

  pub get-IsNamed :
      (now : ℕ) (id : Text) (r : Registry S) → IsNamed r → IsNamed (get codec store now id r).1
  unfolding get fetch
  get-IsNamed now id r n =
      let f =
        fetched-IsNamed now id r (store.get (build_key id) r.world) n.memory
          (get-StoreNames (build_key id) r.world n.entries) in
      elim (Bool-cases (text_eq id [])) [
        | inl e ↦ rw e n
        | inr e ↦ elim (Option-cases (get_from_mem_cache now id r)) [
          | inl q ↦ rw (e, q) f
          | inr (c, q) ↦ rw (e, q) n
        ]
      ]
