-- ===== src/Database/Repository.antt =====
-- internal/database/cache_repository.go: CacheRepository.
use birb_nest.Prelude.{
  ℕ, ◌+◌, Bool, true, false, ◌&&◌, ◌⊎◌, inl, inr, Option, none, some, List, [], ◌∷◌, length, Text,
  lit, text_eq, ltb, ◌==◌, if◌then◌else◌,
}
use birb_nest.Prelude.Int.{ℤ}
use birb_nest.Cache.{Bytes, elem}
use birb_nest.Database.{
  Json, Row, CacheEntry, scan, is_expired, lasts, is_at, row_at, select, upsert, update_where,
  delete_where,
}

-- ErrNotFound, ErrVersionMismatch, and a message with the error that it wraps.
pub data RepoError : Type 0 where
  not_found version_mismatch : RepoError
  failed : Text → Text → RepoError

-- cache_metrics, but for its id and time.
pub record Metric : Type 0 where
  pub operation : Text
  pub key : Option Text
  pub duration_ms : ℕ
  pub success : Bool
  pub error_message : Option Text

pub record Db (J : Type 0) : Type 0 where
  pub rows : List (Row J)
  pub metrics : List Metric

-- The table of scripts/init-db.sql has triggers that count the version up and note the time at each
-- update; the table of the migration has none.
module _ {J : Type 0} (json : Json J) where
  -- What a statement with a key, a value and metadata meets: an error, or the two documents.
  unfoldable pub accepted : Option Text → Bool → Option J → Option J → Text ⊎ (J × J)
  accepted (some e) long v m = inl e
  accepted none true v m = inl (lit "value too long for type character varying(255)")
  accepted none false (some v) (some m) = inr (v, m)
  accepted none false _ _ = inl (lit "invalid input syntax for type json")

  -- metadata == nil
  unfoldable pub or_empty : Option Bytes → Bytes
  or_empty none = lit "{}"
  or_empty (some m) = m

  unfoldable pub documents : Option Text → Text → Bytes → Option Bytes → Text ⊎ (J × J)
  unfolding accepted or_empty
  documents fault key value metadata =
      accepted fault (ltb 255 (length key)) (json.read value) (json.read (or_empty metadata))

  unfoldable pub set_row :
      ℕ → Text → Text → Option ℤ → Text ⊎ (J × J) → Db J → Option RepoError × Db J
  set_row now key id ttl (inl e) db = (some (failed (lit "failed to set cache entry") e), db)
  set_row now key id ttl (inr (v, m)) db = (
    none,
    record db {
      rows =
          upsert
            (record {
              key = key;
              value = v;
              instance_id = id;
              created_at = now;
              updated_at = now;
              version = 1;
              ttl = ttl;
              metadata = some m;
            })
            (λ r. record r {
              value = v;
              ttl = ttl;
              metadata = some m;
              updated_at = now;
              version = r.version + 1;
            })
            db.rows;
    },
  )

  unfoldable pub set_with_instance :
      ℕ
      → Option Text
      → Text
      → Text
      → Bytes
      → Option ℤ
      → Option Bytes
      → Db J
      → Option RepoError × Db J
  unfolding documents set_row
  set_with_instance now fault key id value ttl metadata db =
      set_row now key id ttl (documents fault key value metadata) db

  unfoldable pub removed : Text → Text → Option (Row J) → Db J → Option RepoError × Db J
  removed key id none db = (some not_found, db)
  removed key id (some r) db = (none, record db { rows = delete_where (is_at key id) db.rows })

  unfoldable pub deleted : Text → Text → Option Text → Db J → Option RepoError × Db J
  unfolding removed
  deleted key id (some e) db = (some (failed (lit "failed to delete cache entry") e), db)
  deleted key id none db = removed key id (row_at key id db.rows) db

  unfoldable pub delete_with_instance : Option Text → Text → Text → Db J → Option RepoError × Db J
  unfolding deleted
  delete_with_instance fault key id db = deleted key id fault db

  -- An entry that is over is deleted, whether that works or not.
  unfoldable pub live :
      ℕ → Option Text → Text → Text → CacheEntry → Db J → (RepoError ⊎ CacheEntry) × Db J
  unfolding delete_with_instance
  live now fault key id c db =
      if is_expired now c
      then (inl not_found, (delete_with_instance fault key id db).1)
      else (inr c, db)

  unfoldable pub got :
      ℕ → Option Text → Text → Text → Option (Row J) → Db J → (RepoError ⊎ CacheEntry) × Db J
  unfolding live
  got now fault key id none db = (inl not_found, db)
  got now fault key id (some r) db = live now fault key id (scan json r) db

  -- `fault` of the query, `fault'` of the deletion of an entry that is over.
  unfoldable pub get_with_instance :
      ℕ → Option Text → Option Text → Text → Text → Db J → (RepoError ⊎ CacheEntry) × Db J
  unfolding got
  get_with_instance now (some e) fault' key id db =
      (inl (failed (lit "failed to get cache entry") e), db)
  get_with_instance now none fault' key id db = got now fault' key id (row_at key id db.rows) db

  -- A row as it is after SET value, ttl, metadata, updated_at.
  unfoldable pub versioned : Bool → ℕ → J → Option ℤ → J → Row J → Row J
  versioned true now v ttl m r = record r {
    value = v;
    ttl = ttl;
    metadata = some m;
    updated_at = now;
    version = r.version + 1;
  }
  versioned false now v ttl m r = record r {
    value = v;
    ttl = ttl;
    metadata = some m;
    updated_at = now;
  }

  -- key = $1 AND version = $5
  unfoldable pub has_version : Text → ℕ → Row J → Bool
  has_version key expected r = text_eq r.key key && r.version == expected

  -- By the rows with the expected version, of any instance.
  unfoldable pub replaced :
      Bool → ℕ → Text → Option ℤ → ℕ → J → J → List (Row J) → Db J → Option RepoError × Db J
  unfolding versioned has_version
  replaced triggered now key ttl expected v m [] db = (some version_mismatch, db)
  replaced triggered now key ttl expected v m (r ∷ rs) db = (
    none,
    record db {
      rows = update_where (has_version key expected) (versioned triggered now v ttl m) db.rows;
    },
  )

  unfoldable pub version_set :
      Bool → ℕ → Text → Option ℤ → ℕ → Text ⊎ (J × J) → Db J → Option RepoError × Db J
  unfolding replaced
  version_set triggered now key ttl expected (inl e) db =
      (some (failed (lit "failed to update cache entry with version") e), db)
  version_set triggered now key ttl expected (inr (v, m)) db =
      replaced triggered now key ttl expected v m (select (has_version key expected) db.rows) db

  unfoldable pub set_with_version :
      Bool
      → ℕ
      → Option Text
      → Text
      → Bytes
      → Option ℤ
      → Option Bytes
      → ℕ
      → Db J
      → Option RepoError × Db J
  unfolding version_set accepted or_empty
  set_with_version triggered now fault key value ttl metadata expected db =
      version_set triggered now key ttl expected
        (accepted fault false (json.read value) (json.read (or_empty metadata))) db

  unfoldable pub lasting : ℕ → Option (Row J) → Bool
  lasting now none = false
  lasting now (some r) = lasts now r.updated_at r.ttl

  unfoldable pub exists_with_instance : ℕ → Option Text → Text → Text → Db J → RepoError ⊎ Bool
  unfolding lasting
  exists_with_instance now (some e) key id db =
      inl (failed (lit "failed to check cache entry existence") e)
  exists_with_instance now none key id db = inr (lasting now (row_at key id db.rows))

  -- Skip expired entries.
  unfoldable pub unexpired : ℕ → List (Row J) → List CacheEntry
  unexpired now [] = []
  unexpired now (r ∷ rs) =
      let rest = unexpired now rs in
      if is_expired now (scan json r) then rest else scan json r ∷ rest

  -- `fault` of the query, `broken` of a scan (true) or of the iteration.
  unfoldable pub fetched :
      ℕ → Option Text → Option (Bool × Text) → List (Row J) → RepoError ⊎ List CacheEntry
  unfolding unexpired
  fetched now (some e) broken rs = inl (failed (lit "failed to batch get cache entries") e)
  fetched now none (some (true, e)) rs = inl (failed (lit "failed to scan cache entry") e)
  fetched now none (some (false, e)) rs = inl (failed (lit "error iterating cache entries") e)
  fetched now none none rs = inr (unexpired now rs)

  unfoldable pub batch_get :
      ℕ → Option Text → Option (Bool × Text) → List Text → Db J → RepoError ⊎ List CacheEntry
  unfolding fetched
  batch_get now fault broken [] db = inr []
  batch_get now fault broken (k ∷ ks) db =
      fetched now fault broken (select (λ r. elem r.key (k ∷ ks)) db.rows)

  unfoldable pub batch_get_with_instance :
      ℕ → Option Text → Option (Bool × Text) → List Text → Text → Db J → RepoError ⊎ List CacheEntry
  unfolding fetched
  batch_get_with_instance now fault broken [] id db = inr []
  batch_get_with_instance now fault broken (k ∷ ks) id db =
      fetched now fault broken
        (select (λ r. elem r.key (k ∷ ks) && text_eq r.instance_id id) db.rows)
