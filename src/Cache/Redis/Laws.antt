-- ===== src/Cache/Redis/Laws.antt =====
-- RedisCache keeps the promises of a cache.
use birb_nest.Prelude.{
  ℕ, ◌≡◌, refl, ◌∙◌, Bool, true, false, Option, none, some, List, [], ◌∷◌, map, arith, Text,
  text_eq, text_eq_iff, text_eq_refl, if◌then◌else◌, Option-cases, inl, inr,
}
use birb_nest.Prelude.Maps.{Dict, lookup, insert, lookup-insert}
use birb_nest.Cache.{Bytes, key_not_found, ok, err, IsCache, elem, is_there}
use birb_nest.Cache.Redis.{
  Reply, value, nothing, failure, Client, IsRedis, redis_cache, get, set, delete, exists,
  get_multiple, set_multiple, delete_multiple, collect, with_default,
}

abbrev or_else : Option Bytes → Option Bytes → Option Bytes
or_else none o = o
or_else (some v) o = some v

lookup-collect :
    (f : Text → Option Bytes) (ks : List Text) (result : Dict Bytes) (j : Text)
    → lookup j (collect ks (map f ks) result)
      ≡ (if elem j ks then or_else (f j) (lookup j result) else lookup j result)
unfolding collect elem
lookup-collect f [] result j = refl
lookup-collect f (k ∷ ks) result j = elim (Option-cases (f k)) [
  | inl e ↦ rw (e, collect) (ground (arith, lookup-collect f ks result j, text_eq_iff k j))
  | inr (v, e) ↦
      rw (e, collect)
        (ground (
          arith,
          lookup-collect f ks (insert k v result) j,
          lookup-insert k j v result,
          text_eq_iff k j,
        ))
]

module _ {S : Type 0} {stored : S → Text → Option Bytes} (r : Client S)
    (law : IsRedis r stored) where
  get_found : (k : Text) (s : S) (v : Bytes) → (get r k s).0 ≡ ok v → stored s k ≡ some v
  unfolding get
  get_found k s v h = law.get_value k s v (ground arith)

  get_missing : (k : Text) (s : S) → (get r k s).0 ≡ err key_not_found → stored s k ≡ none
  unfolding get
  get_missing k s h = law.get_nothing k s (ground arith)

  get_keeps : (k j : Text) (s : S) → stored (get r k s).1 j ≡ stored s j
  unfolding get
  get_keeps k j s = ground (arith, law.get_keeps k j s)

  set_other :
      (d : ℕ) (k j : Text) (v : Bytes) (ttl : ℕ) (s : S)
      → text_eq k j ≡ false
      → stored (set r d k v ttl s).1 j ≡ stored s j
  unfolding set
  set_other d k j v ttl s h = ground (arith, law.set_other k j v (with_default d ttl) s)

  set_done :
      (d : ℕ) (k : Text) (v : Bytes) (ttl : ℕ) (s : S)
      → (set r d k v ttl s).0 ≡ ok tt
      → stored (set r d k v ttl s).1 k ≡ some v
  unfolding set
  set_done d k v ttl s h = ground (arith, law.set_done k v (with_default d ttl) s)

  delete_other : (k j : Text) (s : S) → text_eq k j ≡ false → stored (delete r k s).1 j ≡ stored s j
  unfolding delete elem
  delete_other k j s h = ground (arith, law.del_other (k ∷ []) j s)

  delete_done : (k : Text) (s : S) → (delete r k s).0 ≡ ok tt → stored (delete r k s).1 k ≡ none
  unfolding delete elem
  delete_done k s h = by_reply (r.del (k ∷ []) s).0 refl
    where
      by_reply : (o : Reply ℕ) → (r.del (k ∷ []) s).0 ≡ o → stored (delete r k s).1 k ≡ none
      by_reply (value n) e = ground (arith, law.del_done (k ∷ []) k s n e, text_eq_refl k)
      by_reply nothing e = ground arith
      by_reply (failure m) e = ground arith

  exists_keeps : (k j : Text) (s : S) → stored (exists r k s).1 j ≡ stored s j
  unfolding exists
  exists_keeps k j s = ground (arith, law.exists_keeps k j s)

  exists_found : (k : Text) (s : S) (b : Bool) → (exists r k s).0 ≡ ok b → b ≡ is_there (stored s k)
  unfolding exists
  exists_found k s b h = by_reply (r.exists k s).0 refl
    where
      by_reply : (o : Reply ℕ) → (r.exists k s).0 ≡ o → b ≡ is_there (stored s k)
      by_reply (value n) e = ground (arith, law.exists_value k s n e)
      by_reply nothing e = ground arith
      by_reply (failure m) e = ground arith

  get_multiple_keeps :
      (ks : List Text) (j : Text) (s : S) → stored (get_multiple r ks s).1 j ≡ stored s j
  unfolding get_multiple
  get_multiple_keeps [] j s = refl
  get_multiple_keeps (k ∷ ks) j s = ground (arith, law.mget_keeps (k ∷ ks) j s)

  get_multiple_found :
      (ks : List Text) (j : Text) (s : S) (m : Dict Bytes)
      → (get_multiple r ks s).0 ≡ ok m
      → lookup j m ≡ (if elem j ks then stored s j else none)
  unfolding get_multiple elem lookup
  get_multiple_found [] j s m h = ground arith
  get_multiple_found (k ∷ ks) j s m h = by_reply (r.mget (k ∷ ks) s).0 refl
    where
      by_reply :
          (o : Reply (List (Option Bytes)))
          → (r.mget (k ∷ ks) s).0 ≡ o
          → lookup j m ≡ (if elem j (k ∷ ks) then stored s j else none)
      by_reply (value vs) e =
          let q : m ≡ collect (k ∷ ks) (map (stored s) (k ∷ ks)) [] =
            ground (arith, law.mget_values (k ∷ ks) s vs e) in
          rw q (lookup-collect (stored s) (k ∷ ks) [] j ∙ ground arith)
      by_reply nothing e = ground arith
      by_reply (failure t) e = ground arith

  set_multiple_other :
      (d : ℕ) (items : Dict Bytes) (ttl : ℕ) (j : Text) (s : S)
      → lookup j items ≡ none
      → stored (set_multiple r d items ttl s).1 j ≡ stored s j
  unfolding set_multiple
  set_multiple_other d [] ttl j s h = refl
  set_multiple_other d (i ∷ items) ttl j s h =
      ground (arith, law.set_all_other (i ∷ items) (with_default d ttl) j s)

  set_multiple_done :
      (d : ℕ) (items : Dict Bytes) (ttl : ℕ) (j : Text) (s : S) (v : Bytes)
      → (set_multiple r d items ttl s).0 ≡ ok tt
      → lookup j items ≡ some v
      → stored (set_multiple r d items ttl s).1 j ≡ some v
  unfolding set_multiple lookup
  set_multiple_done d [] ttl j s v h l = cc
  set_multiple_done d (i ∷ items) ttl j s v h l =
      ground (arith, law.set_all_done (i ∷ items) (with_default d ttl) j s v)

  delete_multiple_other :
      (ks : List Text) (j : Text) (s : S)
      → elem j ks ≡ false
      → stored (delete_multiple r ks s).1 j ≡ stored s j
  unfolding delete_multiple
  delete_multiple_other [] j s h = refl
  delete_multiple_other (k ∷ ks) j s h = ground (arith, law.del_other (k ∷ ks) j s)

  delete_multiple_done :
      (ks : List Text) (j : Text) (s : S)
      → (delete_multiple r ks s).0 ≡ ok tt
      → elem j ks ≡ true
      → stored (delete_multiple r ks s).1 j ≡ none
  unfolding delete_multiple elem
  delete_multiple_done [] j s h e = cc
  delete_multiple_done (k ∷ ks) j s h e = by_reply (r.del (k ∷ ks) s).0 refl
    where
      by_reply :
          (o : Reply ℕ)
          → (r.del (k ∷ ks) s).0 ≡ o
          → stored (delete_multiple r (k ∷ ks) s).1 j ≡ none
      by_reply (value n) q = ground (arith, law.del_done (k ∷ ks) j s n q)
      by_reply nothing q = ground arith
      by_reply (failure m) q = ground arith

  pub redis_cache-IsCache : (default_ttl : ℕ) → IsCache (redis_cache r default_ttl) stored
  redis_cache-IsCache d = record {
    get_keeps = get_keeps;
    get_found = get_found;
    get_missing = get_missing;
    set_other = set_other d;
    set_done = set_done d;
    delete_other = delete_other;
    delete_done = delete_done;
    exists_keeps = exists_keeps;
    exists_found = exists_found;
    get_multiple_keeps = get_multiple_keeps;
    get_multiple_found = get_multiple_found;
    set_multiple_other = set_multiple_other d;
    set_multiple_done = set_multiple_done d;
    delete_multiple_other = delete_multiple_other;
    delete_multiple_done = delete_multiple_done;
  }
