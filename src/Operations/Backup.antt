-- ===== src/Operations/Backup.antt =====
-- internal/operations/instance_ops.go: BackupInstance and RestoreInstance.
use birb_nest.Prelude.{
  ℕ, ◌+◌, Bool, true, false, ◌⊎◌, inl, inr, Option, none, some, List, [], ◌∷◌, length, Text, lit,
  text_eq, ltb,
}
use birb_nest.Cache.{Bytes}
use birb_nest.Database.{Json, Row, printed, select, upsert}
use birb_nest.Database.Repository.{Db}
use birb_nest.Operations.{OpError, failed, Source, arrived, Entry, Lines}

-- The error, and what was written.
abbrev pub Written : Type 0
Written = Option OpError × List Bytes

unfoldable pub and_written : Bytes → Written → Written
and_written line (e, ls) = (e, line ∷ ls)

-- A step that may fail, and what follows it.
unfoldable pub and_then : {A B : Type 0} → OpError ⊎ A → (A → OpError ⊎ B) → OpError ⊎ B
and_then (inl e) next = inl e
and_then (inr a) next = next a

unfoldable pub or_failed : {A : Type 0} → Text → Text ⊎ A → OpError ⊎ A
or_failed what (inl e) = inl (failed what e)
or_failed what (inr a) = inr a

module _ {J : Type 0} (json : Json J) (lines : Lines) where
  -- The entry of a row, of the instance that is backed up.
  unfoldable pub entry_of : Text → Row J → Entry
  unfolding printed
  entry_of id r = record {
    instance_id = id;
    key = r.key;
    value = some (json.print r.value);
    version = r.version;
    ttl = r.ttl;
    metadata = printed json r.metadata;
    created_at = r.created_at;
    updated_at = r.updated_at;
  }

  unfoldable pub add_line : Text ⊎ Bytes → Written → Written
  unfolding and_written
  add_line (inl e) rest = (some (failed (lit "failed to encode entry") e), [])
  add_line (inr line) rest = and_written line rest

  unfoldable pub scanned : Option Text → Written → Written
  scanned (some e) rest = (some (failed (lit "failed to scan row") e), [])
  scanned none rest = rest

  unfoldable pub backup_rows : (Row J → Option Text) → Text → List (Row J) → Written
  unfolding scanned add_line
  backup_rows unread id [] = (none, [])
  backup_rows unread id (r ∷ rs) =
      scanned (unread r) (add_line (lines.encode (entry_of id r)) (backup_rows unread id rs))

  unfoldable pub backed_up : Option Text → Written → Written
  backed_up (some e) rest = (some (failed (lit "failed to query instance data") e), [])
  backed_up none rest = rest

  -- ORDER BY key is `ordered`, by the collation of the database. rows.Err is not read.
  unfoldable pub backup_instance : (List (Row J) → List (Row J)) → Source J → Text → Db J → Written
  unfolding backed_up
  backup_instance ordered src id db = backed_up src.refused (
      backup_rows src.unread id
        (arrived src.arriving (ordered (select (λ r. text_eq r.instance_id id) db.rows))))

  -- A JSONB parameter: NULL, or a document.
  unfoldable pub nullable : Option Bytes → Option (Option J)
  nullable none = some none
  nullable (some b) = elim (json.read b) [ none ↦ none | some j ↦ some (some j) ]

  -- The error of the INSERT, or the value and the metadata.
  unfoldable pub columns :
      Option Text → Bool → Option (Option J) → Option (Option J) → Text ⊎ (J × Option J)
  columns (some e) long v m = inl e
  columns none true v m = inl (lit "value too long for type character varying(255)")
  columns none false (some (some v)) (some m) = inr (v, m)
  columns none false (some none) (some m) =
      inl (lit "null value in column \"value\" violates not-null constraint")
  columns none false _ _ = inl (lit "invalid input syntax for type json")

  -- The row in conflict, SET from EXCLUDED; with the triggers, its version and time are theirs.
  unfoldable pub overwritten : Bool → ℕ → Entry → J → Option J → Row J → Row J
  overwritten true now e v m r = record r {
    value = v;
    version = r.version + 1;
    ttl = e.ttl;
    metadata = m;
    updated_at = now;
  }
  overwritten false now e v m r = record r {
    value = v;
    version = e.version;
    ttl = e.ttl;
    metadata = m;
    updated_at = e.updated_at;
  }

  unfoldable pub inserted :
      Bool → ℕ → Text → Entry → List (Row J) → Text ⊎ (J × Option J) → Text ⊎ List (Row J)
  unfolding overwritten
  inserted triggered now id e rows (inl x) = inl x
  inserted triggered now id e rows (inr (v, m)) = inr (
      upsert
        (record {
          key = e.key;
          value = v;
          instance_id = id;
          created_at = e.created_at;
          updated_at = e.updated_at;
          version = e.version;
          ttl = e.ttl;
          metadata = m;
        })
        (overwritten triggered now e v m) rows)

  -- The INSERT of an entry, with the error it meets besides those of its values.
  unfoldable pub insert_entry :
      Bool → ℕ → Option Text → Text → Entry → List (Row J) → Text ⊎ List (Row J)
  unfolding inserted columns nullable
  insert_entry triggered now fault id e rows =
      inserted triggered now id e rows
        (columns fault (ltb 255 (length e.key)) (nullable e.value) (nullable e.metadata))

  module _ (triggered : Bool) (now : ℕ) (fault : Entry → Option Text) (id : Text) where
    -- The loop over the lines, in the transaction.
    unfoldable pub restore_lines : List Bytes → List (Row J) → OpError ⊎ List (Row J)
    unfolding and_then or_failed
    restore_lines [] rows = inr rows
    restore_lines (l ∷ ls) rows =
        and_then (or_failed (lit "failed to decode entry") (lines.decode l)) (λ e.
          and_then
            (or_failed (lit "failed to insert entry")
              (insert_entry triggered now (fault e) id e rows))
            (restore_lines ls))

    -- Commit, or roll back. A Commit that reports an error has perhaps taken place (true), as when
    -- the connection fails before the server's answer arrives.
    unfoldable pub committed :
        Option (Bool × Text) → OpError ⊎ List (Row J) → Db J → Option OpError × Db J
    committed f (inl e) db = (some e, db)
    committed (some (false, e)) (inr rows) db =
        (some (failed (lit "failed to commit transaction") e), db)
    committed (some (true, e)) (inr rows) db =
        (some (failed (lit "failed to commit transaction") e), record db { rows = rows })
    committed none (inr rows) db = (none, record db { rows = rows })

    unfoldable pub restore_instance :
        Option Text → Option (Bool × Text) → List Bytes → Db J → Option OpError × Db J
    unfolding committed
    restore_instance (some e) commit_fault ls db =
        (some (failed (lit "failed to begin transaction") e), db)
    restore_instance none commit_fault ls db = committed commit_fault (restore_lines ls db.rows) db
