-- ===== src/Cache.antt =====
-- internal/cache/interface.go: what the cache layers ask of a cache, as operations on a state `S` of
-- everything outside the program. Values are bytes.
pub mod Redis
pub mod Contextual
pub mod ByContext
pub mod ByInstance
pub mod Isolation
pub mod Batches
pub mod Memory
pub mod Tests
use birb_nest.Prelude.{
  ℕ, ◌≡◌, ◌≢◌, Bool, true, false, Option, none, some, List, [], ◌∷◌, ◌++◌, Text, lit, text_eq,
  if◌then◌else◌,
}
use birb_nest.Prelude.Maps.{Dict, lookup}

abbrev pub Bytes : Type 0
Bytes = Text

-- ErrKeyNotFound, ErrCacheClosed, and a CacheError with its message and the underlying error.
pub data CacheError : Type 0 where
  key_not_found cache_closed : CacheError
  failed : Text → Text → CacheError

-- The method Error of CacheError.
unfoldable pub error_text : CacheError → Text
error_text key_not_found = lit "key not found"
error_text cache_closed = lit "cache is closed"
error_text (failed message underlying) = message ++ (lit ": " ++ underlying)

pub data Result {ℓ} (A : Type ℓ) : Type ℓ where
  ok : A → Result A
  err : CacheError → Result A

abbrev pub Done : Type 0
Done = Result (Unit {0})

-- Cache
pub record Cache (S : Type 0) : Type 0 where
  pub get : Text → S → Result Bytes × S
  pub set : Text → Bytes → ℕ → S → Done × S
  pub delete : Text → S → Done × S
  pub exists : Text → S → Result Bool × S
  pub get_multiple : List Text → S → Result (Dict Bytes) × S
  pub set_multiple : Dict Bytes → ℕ → S → Done × S
  pub delete_multiple : List Text → S → Done × S

-- k is one of the keys.
unfoldable pub elem : Text → List Text → Bool
elem k [] = false
elem k (j ∷ ks) = if text_eq j k then true else elem k ks

abbrev pub is_there : {A : Type 0} → Option A → Bool
is_there none = false
is_there (some a) = true

-- What the layers above rely on, of the entries `stored` that a state holds: a call touches only the
-- keys that it names, and a call that succeeds does what it says.
pub record IsCache {S : Type 0} (c : Cache S) (stored : S → Text → Option Bytes) : Type 0 where
  pub get_keeps : (k j : Text) (s : S) → stored (c.get k s).1 j ≡ stored s j
  pub get_found : (k : Text) (s : S) (v : Bytes) → (c.get k s).0 ≡ ok v → stored s k ≡ some v
  pub get_missing : (k : Text) (s : S) → (c.get k s).0 ≡ err key_not_found → stored s k ≡ none
  pub set_other :
      (k j : Text) (v : Bytes) (ttl : ℕ) (s : S)
      → text_eq k j ≡ false
      → stored (c.set k v ttl s).1 j ≡ stored s j
  pub set_done :
      (k : Text) (v : Bytes) (ttl : ℕ) (s : S)
      → (c.set k v ttl s).0 ≡ ok tt
      → stored (c.set k v ttl s).1 k ≡ some v
  pub delete_other :
      (k j : Text) (s : S) → text_eq k j ≡ false → stored (c.delete k s).1 j ≡ stored s j
  pub delete_done : (k : Text) (s : S) → (c.delete k s).0 ≡ ok tt → stored (c.delete k s).1 k ≡ none
  pub exists_keeps : (k j : Text) (s : S) → stored (c.exists k s).1 j ≡ stored s j
  pub exists_found :
      (k : Text) (s : S) (b : Bool) → (c.exists k s).0 ≡ ok b → b ≡ is_there (stored s k)
  pub get_multiple_keeps :
      (ks : List Text) (j : Text) (s : S) → stored (c.get_multiple ks s).1 j ≡ stored s j
  pub get_multiple_found :
      (ks : List Text) (j : Text) (s : S) (r : Dict Bytes)
      → (c.get_multiple ks s).0 ≡ ok r
      → lookup j r ≡ (if elem j ks then stored s j else none)
  pub set_multiple_other :
      (items : Dict Bytes) (ttl : ℕ) (j : Text) (s : S)
      → lookup j items ≡ none
      → stored (c.set_multiple items ttl s).1 j ≡ stored s j
  pub set_multiple_done :
      (items : Dict Bytes) (ttl : ℕ) (j : Text) (s : S) (v : Bytes)
      → (c.set_multiple items ttl s).0 ≡ ok tt
      → lookup j items ≡ some v
      → stored (c.set_multiple items ttl s).1 j ≡ some v
  pub delete_multiple_other :
      (ks : List Text) (j : Text) (s : S)
      → elem j ks ≡ false
      → stored (c.delete_multiple ks s).1 j ≡ stored s j
  pub delete_multiple_done :
      (ks : List Text) (j : Text) (s : S)
      → (c.delete_multiple ks s).0 ≡ ok tt
      → elem j ks ≡ true
      → stored (c.delete_multiple ks s).1 j ≡ none
