-- ===== src/Operations/Restore.antt =====
-- What a restored backup holds.
use birb_nest.Prelude.{
  ℕ, ◌≡◌, ◌≢◌, refl, ◌∙◌, subst, Bool, true, false, ◌&&◌, ◌⊎◌, inl, inr, Option, none, some, List,
  [], ◌∷◌, length, Text, text_eq, text_eq_sound, ltb, if◌then◌else◌, arith,
}
use birb_nest.Cache.{Bytes}
use birb_nest.Database.{Json, ReadsBack, Row, printed, is_at, row_at, upsert}
use birb_nest.Database.Rows.{Absent, row_at-upsert}
use birb_nest.Database.Repository.{Db}
use birb_nest.Operations.{OpError, Entry, Lines}
use birb_nest.Operations.Backup.{
  Written, entry_of, add_line, scanned, backup_rows, nullable, columns, overwritten, inserted,
  insert_entry, restore_lines, committed, restore_instance,
}

-- The row in another instance.
abbrev pub moved : {J : Type 0} → Text → Row J → Row J
moved id r = record r { instance_id = id }

module _ {J : Type 0} (json : Json J) (lines : Lines) where
  -- A line is decoded as the entry that it was encoded from, its documents written perhaps another
  -- way.
  pub record ReadsLines : Type 0 where
    pub compact : Bytes → Bytes
    pub same : (b : Bytes) → json.read (compact b) ≡ json.read b
    pub decoded :
        (e : Entry) (b l : Bytes) (m : Option Bytes)
        → lines.encode (record e { value = some b; metadata = m }) ≡ inr l
        → lines.decode l
          ≡ inr (record e {
            value = some (compact b);
            metadata = elim m [ none ↦ none | some d ↦ some (compact d) ];
          })

  -- A RestoreInstance whose Commit does not report an error, and that returns one, changes no row;
  -- after an error of Commit the rows are as before or as after a restore without that error.
  pub restore_instance_atomic :
      (triggered : Bool) (now : ℕ) (fault : Entry → Option Text) (id : Text)
      (begin_fault : Option Text) (commit_fault : Option (Bool × Text)) (ls : List Bytes)
      (db : Db J) (e : OpError)
      → (restore_instance json lines triggered now fault id begin_fault commit_fault ls db).0
        ≡ some e
      → let after =
          (restore_instance json lines triggered now fault id begin_fault commit_fault ls db).1 in
        (after ≡ db)
        ⊎ ((commit_fault ≢ none)
            × (restore_instance json lines triggered now fault id begin_fault none ls db
                ≡ (none, after)))
  unfolding restore_instance committed
  restore_instance_atomic triggered now fault id (some x) commit_fault ls db e h = inl refl
  restore_instance_atomic triggered now fault id none commit_fault ls db e h =
      by_lines commit_fault (restore_lines json lines triggered now fault id ls db.rows) h
    where
      by_lines :
          (f : Option (Bool × Text)) (o : OpError ⊎ List (Row J))
          → (committed json lines triggered now fault id f o db).0 ≡ some e
          → ((committed json lines triggered now fault id f o db).1 ≡ db)
            ⊎ ((f ≢ none)
                × (committed json lines triggered now fault id none o db
                    ≡ (none, (committed json lines triggered now fault id f o db).1)))
      by_lines f (inl x) q = inl refl
      by_lines (some (false, x)) (inr rows) q = inl refl
      by_lines (some (true, x)) (inr rows) q = inr (λ n. ground arith, refl)
      by_lines none (inr rows) q = absurd (ground arith)

  nullable-compact :
      (law : ReadsLines)
      → ReadsBack json
      → (m : Option J)
      → nullable json lines (elim (printed json m) [ none ↦ none | some d ↦ some (law.compact d) ])
        ≡ some m
  unfolding nullable printed
  nullable-compact law back none = refl
  nullable-compact law back (some j) = rw (law.same (json.print j), back j) refl

  -- A backup of a row and others that meets no error: the line of the row, and theirs.
  pub backup_rows_cons :
      (unread : Row J → Option Text) (from : Text) (r : Row J) (rs : List (Row J))
      → (backup_rows json lines unread from (r ∷ rs)).0 ≡ none
      → (l : Bytes) × (lines.encode (entry_of json lines from r) ≡ inr l)
        × ((backup_rows json lines unread from rs).0 ≡ none)
        × ((backup_rows json lines unread from (r ∷ rs)).1
            ≡ l ∷ (backup_rows json lines unread from rs).1)
  unfolding backup_rows
  backup_rows_cons unread from r rs h =
      go (unread r) (lines.encode (entry_of json lines from r))
        (backup_rows json lines unread from rs) refl h
    where
      go :
          (u : Option Text) (o : Text ⊎ Bytes) (w : Written)
          → lines.encode (entry_of json lines from r) ≡ o
          → (scanned json lines u (add_line json lines o w)).0 ≡ none
          → (l : Bytes) × (lines.encode (entry_of json lines from r) ≡ inr l)
            × (w.0 ≡ none)
            × ((scanned json lines u (add_line json lines o w)).1 ≡ l ∷ w.1)
      go (some e) o w q h = ground arith
      go none (inl e) w q h = ground arith
      go none (inr l) w q h = (l, q, h, refl)

  overwritten_key :
      (triggered : Bool) (now : ℕ) (e : Entry) (v : J) (m : Option J) (r : Row J)
      → ((overwritten json lines triggered now e v m r).key ≡ r.key)
        × ((overwritten json lines triggered now e v m r).instance_id ≡ r.instance_id)
  unfolding overwritten
  overwritten_key true now e v m r = (refl, refl)
  overwritten_key false now e v m r = (refl, refl)

  pub Absent-row_at :
      (key from : Text) (rs : List (Row J)) → Absent key from rs → row_at key from rs ≡ none
  unfolding row_at
  Absent-row_at key from [] a = refl
  Absent-row_at key from (r ∷ rs) a = rw a.0 (Absent-row_at key from rs a.1)

  pub Absent-of :
      (from : Text) (r : Row J) (key : Text) (rs : List (Row J))
      → text_eq r.instance_id from ≡ true
      → text_eq r.key key ≡ true
      → Absent r.key r.instance_id rs
      → Absent key from rs
  Absent-of from r key rs p q a =
      subst (λ i. Absent key i rs) (text_eq_sound r.instance_id from p)
        (subst (λ j. Absent j r.instance_id rs) (text_eq_sound r.key key q) a)

  module _ (law : ReadsLines) (back : ReadsBack json) (triggered : Bool) (now : ℕ)
      (from id : Text) where
    -- The entry that the line of a row is decoded as.
    again : Row J → Entry
    again r = record (entry_of json lines from r) {
      value = some (law.compact (json.print r.value));
      metadata = elim (printed json r.metadata) [ none ↦ none | some d ↦ some (law.compact d) ];
    }

    pub put_row : Row J → List (Row J) → List (Row J)
    unfolding again
    put_row r rows =
        upsert (moved id r) (overwritten json lines triggered now (again r) r.value r.metadata) rows

    insert_again :
        (r : Row J) (rows : List (Row J))
        → ltb 255 (length r.key) ≡ false
        → insert_entry json lines triggered now none id (again r) rows ≡ inr (put_row r rows)
    unfolding insert_entry again put_row inserted columns entry_of printed
    insert_again r rows h =
        rw (h, nullable-compact law back (some r.value), nullable-compact law back r.metadata) refl

    pub restore_cons :
        (r : Row J) (l : Bytes) (ls : List Bytes) (rows : List (Row J))
        → ltb 255 (length r.key) ≡ false
        → lines.encode (entry_of json lines from r) ≡ inr l
        → restore_lines json lines triggered now (λ e. none) id (l ∷ ls) rows
          ≡ restore_lines json lines triggered now (λ e. none) id ls (put_row r rows)
    unfolding restore_lines again entry_of
    restore_cons r l ls rows h e =
        rw
          (
            law.decoded (entry_of json lines from r) (json.print r.value) l
                (printed json r.metadata) e,
            insert_again r rows h,
          )
          refl

    pub put_row-row_at :
        (r : Row J) (rows : List (Row J)) (key other : Text)
        → row_at r.key id rows ≡ none
        → row_at key other (put_row r rows) ≡ (
            if text_eq r.key key && text_eq id other
            then some (moved id r)
            else row_at key other rows)
    unfolding put_row is_at
    put_row-row_at r rows key other fresh =
        row_at-upsert key other _ _ rows
          (overwritten_key triggered now (again r) r.value r.metadata)
        ∙ rw fresh refl
