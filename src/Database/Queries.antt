-- ===== src/Database/Queries.antt =====
-- internal/database/cache_repository.go: the queries over many rows, the clean-up and the metrics.
use birb_nest.Prelude.{
  ℕ, zero, suc, ◌/◌, Bool, true, false, ◌&&◌, ◌⊎◌, inl, inr, Option, none, some, List, [], ◌∷◌,
  length, Text, lit, text_eq,
}
use birb_nest.Cache.{elem}
use birb_nest.Database.{Row, lasts, ended, select, delete_where}
use birb_nest.Database.Repository.{RepoError, failed, Db}

-- LIMIT and OFFSET
abbrev pub take : {A : Type 0} → ℕ → List A → List A
take zero xs = []
take (suc n) [] = []
take (suc n) (x ∷ xs) = x ∷ take n xs

abbrev drop : {A : Type 0} → ℕ → List A → List A
drop zero xs = xs
drop (suc n) [] = []
drop (suc n) (x ∷ xs) = drop n xs

-- The keys, or the error of the query, of a scan (true) or of the iteration.
listed : Text → Text → Option Text → Option (Bool × Text) → List Text → RepoError ⊎ List Text
listed what going (some e) broken ks = inl (failed what e)
listed what going none (some (true, e)) ks = inl (failed (lit "failed to scan key") e)
listed what going none (some (false, e)) ks = inl (failed going e)
listed what going none none ks = inr ks

module _ {J : Type 0} where
  unfoldable pub keys_of : List (Row J) → List Text
  keys_of [] = []
  keys_of (r ∷ rs) = r.key ∷ keys_of rs

  -- The subquery of CleanupExpired, and the query of GetExpiredKeys.
  unfoldable pub ended_keys : ℕ → ℕ → List (Row J) → List Text
  unfolding keys_of
  ended_keys now limit rows = take limit (keys_of (select (λ r. ended now r.updated_at r.ttl) rows))

  unfoldable pub get_expired_keys :
      ℕ → Option Text → Option (Bool × Text) → ℕ → Db J → RepoError ⊎ List Text
  unfolding listed
  get_expired_keys now fault broken limit db =
      listed (lit "failed to get expired keys") (lit "error iterating expired keys") fault broken
        (ended_keys now limit db.rows)

  -- DELETE, with the number of rows affected.
  unfoldable pub erased : Text → Option Text → (Row J → Bool) → Db J → (RepoError ⊎ ℕ) × Db J
  erased what (some e) test db = (inl (failed what e), db)
  erased what none test db =
      (inr (length (select test db.rows)), record db { rows = delete_where test db.rows })

  unfoldable pub cleanup_expired : ℕ → Option Text → ℕ → Db J → (RepoError ⊎ ℕ) × Db J
  unfolding erased
  cleanup_expired now fault batch_size db =
      erased (lit "failed to cleanup expired entries") fault
        (λ r. elem r.key (ended_keys now batch_size db.rows)) db

  unfoldable pub delete_by_instance : Option Text → Text → Db J → (RepoError ⊎ ℕ) × Db J
  unfolding erased
  delete_by_instance fault id db =
      erased (lit "failed to delete instance entries") fault (λ r. text_eq r.instance_id id) db

  -- ORDER BY key is `ordered`, by the collation of the database.
  unfoldable pub get_all_keys :
      (List Text → List Text)
      → ℕ
      → Option Text
      → Option (Bool × Text)
      → ℕ
      → ℕ
      → Db J
      → RepoError ⊎ List Text
  unfolding listed keys_of
  get_all_keys ordered now fault broken offset limit db =
      listed (lit "failed to get all keys") (lit "error iterating keys") fault broken (
        take limit
          (drop offset (ordered (keys_of (select (λ r. lasts now r.updated_at r.ttl) db.rows)))))

  unfoldable pub get_keys_by_instance :
      (List Text → List Text)
      → ℕ
      → Option Text
      → Option (Bool × Text)
      → Text
      → ℕ
      → ℕ
      → Db J
      → RepoError ⊎ List Text
  unfolding listed keys_of
  get_keys_by_instance ordered now fault broken id offset limit db =
      listed (lit "failed to get instance keys") (lit "error iterating keys") fault broken (
        take limit (
          drop offset (
            ordered (
              keys_of
                (select (λ r. text_eq r.instance_id id && lasts now r.updated_at r.ttl) db.rows)))))

  -- RecordMetric always returns nil.
  unfoldable pub record_metric :
      Option Text → Text → Option Text → ℕ → Bool → Option Text → Db J → Db J
  record_metric (some e) operation key duration success error db = db
  record_metric none operation key duration success error db = record db {
    metrics =
        record {
          operation = operation;
          key = key;
          duration_ms = duration / 1_000_000;
          success = success;
          error_message = error;
        }
        ∷ db.metrics;
  }
