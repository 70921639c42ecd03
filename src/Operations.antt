-- ===== src/Operations.antt =====
-- internal/operations/instance_ops.go: InstanceOperations, over the table of the database, the cache
-- and the registry. The rows that a query returns come one by one, and rows.Next says false both at
-- their end and when the connection fails. A backup is its lines, one JSON value each; encoding/json
-- writes and reads them and is a parameter.
pub mod Load
pub mod Backup
pub mod Latest
pub mod Whole
pub mod Removal
pub mod Restore
pub mod RoundTrip
pub mod Transfer
pub mod Forms
pub mod Tests
use birb_nest.Prelude.{ℕ, zero, suc, ◌≡◌, ◌⊎◌, inl, inr, Option, none, some, List, [], ◌∷◌, Text}
use birb_nest.Prelude.Int.{ℤ}
use birb_nest.Cache.{Bytes, CacheError}
use birb_nest.Instance.{InstanceError}
use birb_nest.Registry.{Registry}
use birb_nest.Database.{Row, Json, printed}
use birb_nest.Database.Repository.{Db}

-- The messages, each with the error that it wraps.
pub data OpError : Type 0 where
  not_registered status_failed unregister_failed : InstanceError → OpError
  cache_failed : CacheError → OpError
  failed : Text → Text → OpError

-- What a query meets: an error at once, a row that Scan does not read, a connection that fails after
-- some rows.
pub record Source (J : Type 0) : Type 0 where
  pub refused : Option Text
  pub unread : Row J → Option Text
  pub arriving : Option ℕ

-- The rows that rows.Next comes to.
unfoldable pub arrived : {J : Type 0} → Option ℕ → List (Row J) → List (Row J)
arrived none rs = rs
arrived (some n) [] = []
arrived (some zero) (r ∷ rs) = []
arrived (some (suc n)) (r ∷ rs) = r ∷ arrived (some n) rs

-- All that the operations change.
pub record World (S C J : Type 0) : Type 0 where
  pub db : Db J
  pub cache : C
  pub registry : Registry S

-- A line of a backup. A RawMessage that the line does not have is none.
pub record Entry : Type 0 where
  pub instance_id : Text
  pub key : Text
  pub value : Option Bytes
  pub version : ℕ
  pub ttl : Option ℤ
  pub metadata : Option Bytes
  pub created_at : ℕ
  pub updated_at : ℕ

-- Encode and Decode of a line.
pub record Lines : Type 0 where
  pub encode : Entry → Text ⊎ Bytes
  pub decode : Bytes → Text ⊎ Entry
