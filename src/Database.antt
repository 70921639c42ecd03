-- ===== src/Database.antt =====
-- internal/database/models.go and the table cache_entries (scripts/init-db.sql and
-- scripts/migrations/001_partitioned_cache_entries.sql). A JSONB column holds a document of a type
-- `J`, which a text is read as and which is printed as a text; that is a parameter. Times are
-- nanoseconds. Each statement comes with the error that the server or the connection gives, if any;
-- a statement that fails changes nothing. The rows stand in no particular order.
pub mod Repository
pub mod Queries
pub mod Client
pub mod Rows
pub mod History
pub mod Isolation
pub mod Versions
pub mod Expiry
pub mod Table
pub mod Cleanup
pub mod RoundTrip
pub mod Tests
use birb_nest.Prelude.{
  ℕ, zero, suc, ◌+◌, ◌*◌, ◌≡◌, Bool, true, false, ◌&&◌, Option, none, some, List, [], ◌∷◌, Text,
  text_eq, ltb, if◌then◌else◌,
}
use birb_nest.Prelude.Int.{ℤ, pos, negsuc}
use birb_nest.Cache.{Bytes}

pub record Json (J : Type 0) : Type 0 where
  pub read : Bytes → Option J
  pub print : J → Bytes

-- A printed document is read as itself.
abbrev pub ReadsBack : {J : Type 0} → Json J → Type 0
ReadsBack {J} json = (j : J) → json.read (json.print j) ≡ some j

-- A row of cache_entries. CacheEntry has the same fields.
pub record Row (J : Type 0) : Type 0 where
  pub key : Text
  pub value : J
  pub instance_id : Text
  pub created_at : ℕ
  pub updated_at : ℕ
  pub version : ℕ
  pub ttl : Option ℤ
  pub metadata : Option J

-- CacheEntry
pub record CacheEntry : Type 0 where
  pub key : Text
  pub value : Bytes
  pub instance_id : Text
  pub created_at : ℕ
  pub updated_at : ℕ
  pub version : ℕ
  pub ttl : Option ℤ
  pub metadata : Option Bytes

abbrev pub second : ℕ
second = 1_000_000_000

-- A JSONB column that may be NULL.
unfoldable pub printed : {J : Type 0} → Json J → Option J → Option Bytes
printed json none = none
printed json (some j) = some (json.print j)

-- The Scan of a row.
unfoldable pub scan : {J : Type 0} → Json J → Row J → CacheEntry
unfolding printed
scan json r = record {
  key = r.key;
  value = json.print r.value;
  instance_id = r.instance_id;
  created_at = r.created_at;
  updated_at = r.updated_at;
  version = r.version;
  ttl = r.ttl;
  metadata = printed json r.metadata;
}

unfoldable pub over : ℕ → ℕ → Option ℤ → Bool
over now updated none = false
over now updated (some (pos zero)) = false
over now updated (some (pos (suc n))) = ltb (updated + suc n * second) now
over now updated (some (negsuc n)) = false

-- IsExpired
unfoldable pub is_expired : ℕ → CacheEntry → Bool
unfolding over
is_expired now c = over now c.updated_at c.ttl

-- ttl IS NULL OR updated_at + interval '1 second' * ttl > CURRENT_TIMESTAMP
unfoldable pub lasts : ℕ → ℕ → Option ℤ → Bool
lasts now updated none = true
lasts now updated (some (pos n)) = ltb now (updated + n * second)
lasts now updated (some (negsuc n)) = ltb (now + suc n * second) updated

-- ttl IS NOT NULL AND updated_at + interval '1 second' * ttl < CURRENT_TIMESTAMP
unfoldable pub ended : ℕ → ℕ → Option ℤ → Bool
ended now updated none = false
ended now updated (some (pos n)) = ltb (updated + n * second) now
ended now updated (some (negsuc n)) = ltb updated (now + suc n * second)

module _ {J : Type 0} where
  -- key = $1 AND instance_id = $2
  unfoldable pub is_at : Text → Text → Row J → Bool
  is_at key id r = text_eq r.key key && text_eq r.instance_id id

  -- The row of a key and an instance, which are the primary key.
  unfoldable pub row_at : Text → Text → List (Row J) → Option (Row J)
  row_at key id [] = none
  row_at key id (r ∷ rs) = if is_at key id r then some r else row_at key id rs

  -- WHERE
  unfoldable pub select : (Row J → Bool) → List (Row J) → List (Row J)
  select test [] = []
  select test (r ∷ rs) = let rest = select test rs in if test r then r ∷ rest else rest

  -- INSERT ... ON CONFLICT (instance_id, key) DO UPDATE
  unfoldable pub upsert : Row J → (Row J → Row J) → List (Row J) → List (Row J)
  upsert new change [] = new ∷ []
  upsert new change (r ∷ rs) =
      if is_at new.key new.instance_id r then change r ∷ rs else r ∷ upsert new change rs

  -- UPDATE ... WHERE, and DELETE ... WHERE
  unfoldable pub update_where : (Row J → Bool) → (Row J → Row J) → List (Row J) → List (Row J)
  update_where test change [] = []
  update_where test change (r ∷ rs) = (if test r then change r else r) ∷ update_where test change rs

  unfoldable pub delete_where : (Row J → Bool) → List (Row J) → List (Row J)
  delete_where test [] = []
  delete_where test (r ∷ rs) = let rest = delete_where test rs in if test r then rest else r ∷ rest
