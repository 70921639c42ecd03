-- ===== src/Cache/Redis.antt =====
-- internal/cache/redis.go: the cache over a Redis client. The client, of go-redis, is a parameter.
pub mod Laws
use birb_nest.Prelude.{
  ℕ, zero, suc, ◌≡◌, ◌≢◌, refl, Bool, true, false, not, Option, none, some, List, [], ◌∷◌, map,
  arith, Text, lit, text_eq, text_eq_iff, if◌then◌else◌, ◌==◌, ltb, Option-cases,
}
use birb_nest.Prelude.Maps.{Dict, lookup, insert, lookup-insert}
use birb_nest.Cache.{
  Bytes, CacheError, key_not_found, failed, Result, ok, err, Done, Cache, IsCache, elem,
}

-- The reply to a command: a value, redis.Nil, or an error with its text.
pub data Reply (A : Type 0) : Type 0 where
  value : A → Reply A
  nothing : Reply A
  failure : Text → Reply A

pub record Client (S : Type 0) : Type 0 where
  pub get : Text → S → Reply Bytes × S
  pub set : Text → Bytes → ℕ → S → Reply (Unit {0}) × S
  pub del : List Text → S → Reply ℕ × S
  pub exists : Text → S → Reply ℕ × S
  pub mget : List Text → S → Reply (List (Option Bytes)) × S
  -- a pipeline of SET commands
  pub set_all : Dict Bytes → ℕ → S → Reply (Unit {0}) × S

-- Use default TTL if not specified
with_default : ℕ → ℕ → ℕ
with_default default_ttl ttl = if ttl == 0 then default_ttl else ttl

existed : ℕ → Result (Unit {0})
existed n = if n == 0 then err key_not_found else ok tt

-- The loop over the values of MGET: result[keys[i]] for each that is there.
collect : List Text → List (Option Bytes) → Dict Bytes → Dict Bytes
collect (k ∷ ks) (some v ∷ vs) result = collect ks vs (insert k v result)
collect (k ∷ ks) (none ∷ vs) result = collect ks vs result
collect _ _ result = result

module _ {S : Type 0} where
  got : Reply Bytes × S → Result Bytes × S
  got (value v, s) = (ok v, s)
  got (nothing, s) = (err key_not_found, s)
  got (failure e, s) = (err (failed (lit "failed to get key") e), s)

  -- The error of a command, under the message of the caller.
  checked : {A : Type 0} → Text → (A → Result (Unit {0})) → Reply A × S → Done × S
  checked message f (value a, s) = (f a, s)
  checked message f (nothing, s) = (err (failed message (lit "redis: nil")), s)
  checked message f (failure e, s) = (err (failed message e), s)

  unfoldable pub get : Client S → Text → S → Result Bytes × S
  unfolding got
  get r key s = got (r.get key s)

  unfoldable pub set : Client S → ℕ → Text → Bytes → ℕ → S → Done × S
  unfolding checked with_default
  set r default_ttl key v ttl s =
      checked (lit "failed to set key") (λ _. ok tt) (r.set key v (with_default default_ttl ttl) s)

  unfoldable pub delete : Client S → Text → S → Done × S
  unfolding checked existed
  delete r key s = checked (lit "failed to delete key") existed (r.del (key ∷ []) s)

  counted : Reply ℕ × S → Result Bool × S
  counted (value n, s) = (ok (ltb 0 n), s)
  counted (nothing, s) = (err (failed (lit "failed to check existence") (lit "redis: nil")), s)
  counted (failure e, s) = (err (failed (lit "failed to check existence") e), s)

  unfoldable pub exists : Client S → Text → S → Result Bool × S
  unfolding counted
  exists r key s = counted (r.exists key s)

  collected : List Text → Reply (List (Option Bytes)) × S → Result (Dict Bytes) × S
  unfolding collect
  collected ks (value vs, s) = (ok (collect ks vs []), s)
  collected ks (nothing, s) =
      (err (failed (lit "failed to get multiple keys") (lit "redis: nil")), s)
  collected ks (failure e, s) = (err (failed (lit "failed to get multiple keys") e), s)

  unfoldable pub get_multiple : Client S → List Text → S → Result (Dict Bytes) × S
  unfolding collected
  get_multiple r [] s = (ok [], s)
  get_multiple r (k ∷ ks) s = collected (k ∷ ks) (r.mget (k ∷ ks) s)

  unfoldable pub set_multiple : Client S → ℕ → Dict Bytes → ℕ → S → Done × S
  unfolding checked with_default
  set_multiple r default_ttl [] ttl s = (ok tt, s)
  set_multiple r default_ttl (i ∷ items) ttl s =
      checked (lit "failed to set multiple keys") (λ _. ok tt)
        (r.set_all (i ∷ items) (with_default default_ttl ttl) s)

  unfoldable pub delete_multiple : Client S → List Text → S → Done × S
  unfolding checked
  delete_multiple r [] s = (ok tt, s)
  delete_multiple r (k ∷ ks) s =
      checked (lit "failed to delete multiple keys") (λ _. ok tt) (r.del (k ∷ ks) s)

  -- RedisCache as a Cache.
  abbrev pub redis_cache : Client S → ℕ → Cache S
  redis_cache r default_ttl = record {
    get = get r;
    set = set r default_ttl;
    delete = delete r;
    exists = exists r;
    get_multiple = get_multiple r;
    set_multiple = set_multiple r default_ttl;
    delete_multiple = delete_multiple r;
  }

-- What Redis documents of these commands.
pub record IsRedis {S : Type 0} (r : Client S) (stored : S → Text → Option Bytes) : Type 0 where
  pub get_keeps : (k j : Text) (s : S) → stored (r.get k s).1 j ≡ stored s j
  pub get_value : (k : Text) (s : S) (v : Bytes) → (r.get k s).0 ≡ value v → stored s k ≡ some v
  pub get_nothing : (k : Text) (s : S) → (r.get k s).0 ≡ nothing → stored s k ≡ none
  pub set_other :
      (k j : Text) (v : Bytes) (ttl : ℕ) (s : S)
      → text_eq k j ≡ false
      → stored (r.set k v ttl s).1 j ≡ stored s j
  pub set_done :
      (k : Text) (v : Bytes) (ttl : ℕ) (s : S)
      → (r.set k v ttl s).0 ≡ value tt
      → stored (r.set k v ttl s).1 k ≡ some v
  pub del_other :
      (ks : List Text) (j : Text) (s : S) → elem j ks ≡ false → stored (r.del ks s).1 j ≡ stored s j
  pub del_done :
      (ks : List Text) (j : Text) (s : S) (n : ℕ)
      → (r.del ks s).0 ≡ value n
      → elem j ks ≡ true
      → stored (r.del ks s).1 j ≡ none
  pub exists_keeps : (k j : Text) (s : S) → stored (r.exists k s).1 j ≡ stored s j
  pub exists_value :
      (k : Text) (s : S) (n : ℕ)
      → (r.exists k s).0 ≡ value n
      → n ≡ (elim (stored s k) [ none ↦ 0 | some v ↦ 1 ])
  pub mget_keeps : (ks : List Text) (j : Text) (s : S) → stored (r.mget ks s).1 j ≡ stored s j
  pub mget_values :
      (ks : List Text) (s : S) (vs : List (Option Bytes))
      → (r.mget ks s).0 ≡ value vs
      → vs ≡ map (stored s) ks
  pub set_all_other :
      (items : Dict Bytes) (ttl : ℕ) (j : Text) (s : S)
      → lookup j items ≡ none
      → stored (r.set_all items ttl s).1 j ≡ stored s j
  pub set_all_done :
      (items : Dict Bytes) (ttl : ℕ) (j : Text) (s : S) (v : Bytes)
      → (r.set_all items ttl s).0 ≡ value tt
      → lookup j items ≡ some v
      → stored (r.set_all items ttl s).1 j ≡ some v
