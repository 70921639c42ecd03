-- ===== src/Operations/Transfer.antt =====
-- An instance backed up and restored as another.
use birb_nest.Prelude.{
  and_false, ℕ, ◌≡◌, refl, sym, ◌∙◌, ap, Bool, true, false, inl, inr, Option, none, some, List, [],
  ◌∷◌, length, Text, text_eq, text_eq_sound, ltb, if◌then◌else◌, arith, Bool-cases, All,
}
use birb_nest.Database.{Json, ReadsBack, Row, is_at, row_at, select}
use birb_nest.Database.Rows.{IsKeyed}
use birb_nest.Database.Repository.{Db}
use birb_nest.Operations.{Source, arrived, Lines}
use birb_nest.Operations.Backup.{
  Written, backup_rows, backed_up, backup_instance, restore_lines, committed, restore_instance,
}
use birb_nest.Operations.Restore.{ReadsLines, moved}
use birb_nest.Operations.RoundTrip.{restored, brought, moved_row}

-- ORDER BY key returns the rows that it is given, in another order.
pub record Orders {J : Type 0} (ordered : List (Row J) → List (Row J)) : Type 0 where
  pub keeps :
      (test : Row J → Bool) (b : Bool) (rs : List (Row J))
      → All (λ r. test r ≡ b) rs
      → All (λ r. test r ≡ b) (ordered rs)
  pub keyed : (rs : List (Row J)) → IsKeyed rs → IsKeyed (ordered rs)
  pub found :
      (key id : Text) (rs : List (Row J))
      → IsKeyed rs
      → row_at key id (ordered rs) ≡ row_at key id rs

module _ {J : Type 0} where
  All-select :
      (P : Row J → Type 0) (test : Row J → Bool) (rs : List (Row J))
      → All P rs
      → All P (select test rs)
  unfolding select
  All-select P test [] a = tt
  All-select P test (r ∷ rs) a = elim (Bool-cases (test r)) [
    | inl e ↦ rw e (a.0, All-select P test rs a.1)
    | inr e ↦ rw e (All-select P test rs a.1)
  ]

  All-selected :
      (test : Row J → Bool) (rs : List (Row J)) → All (λ r. test r ≡ true) (select test rs)
  unfolding select
  All-selected test [] = tt
  All-selected test (r ∷ rs) = elim (Bool-cases (test r)) [
    | inl e ↦ rw e (e, All-selected test rs)
    | inr e ↦ rw e (All-selected test rs)
  ]

  select-IsKeyed : (test : Row J → Bool) (rs : List (Row J)) → IsKeyed rs → IsKeyed (select test rs)
  unfolding select
  select-IsKeyed test [] v = tt
  select-IsKeyed test (r ∷ rs) v = elim (Bool-cases (test r)) [
    | inl e ↦ rw e (All-select _ test rs v.0, select-IsKeyed test rs v.1)
    | inr e ↦ rw e (select-IsKeyed test rs v.1)
  ]

  row_at-select :
      (key id : Text) (rs : List (Row J))
      → row_at key id (select (λ r. text_eq r.instance_id id) rs) ≡ row_at key id rs
  unfolding select row_at is_at
  row_at-select key id [] = refl
  row_at-select key id (r ∷ rs) = elim (Bool-cases (text_eq r.instance_id id)) [
    | inl e ↦ rw (e, e, row_at-select key id rs) refl
    | inr e ↦ rw (e, row_at-select key id rs, and_false (text_eq r.key key)) refl
  ]

  unlimited :
      (src : Source J) (rs : List (Row J)) → src.arriving ≡ none → arrived src.arriving rs ≡ rs
  unfolding arrived
  unlimited src rs h = ap (λ a. arrived a rs) h

  vacant :
      (test : Row J → Text) (rows : List (Row J)) (id : Text) (rs : List (Row J))
      → ((key : Text) → row_at key id rows ≡ none)
      → All (λ s. row_at (test s) id rows ≡ none) rs
  vacant test rows id [] h = tt
  vacant test rows id (r ∷ rs) h = (h (test r), vacant test rows id rs h)

module _ {J : Type 0} (json : Json J) (lines : Lines) where
  backed_up_done :
      (o : Option Text) (w : Written)
      → (backed_up json lines o w).0 ≡ none
      → (w.0 ≡ none) × ((backed_up json lines o w).1 ≡ w.1)
  unfolding backed_up
  backed_up_done (some e) w h = ground arith
  backed_up_done none w h = (h, refl)

  -- The rows that a backup writes.
  abbrev taken : (List (Row J) → List (Row J)) → Text → Db J → List (Row J)
  taken ordered from db = ordered (select (λ r. text_eq r.instance_id from) db.rows)

  backup_done :
      (ordered : List (Row J) → List (Row J)) (src : Source J) (from : Text) (db : Db J)
      → src.arriving ≡ none
      → (backup_instance json lines ordered src from db).0 ≡ none
      → ((backup_rows json lines src.unread from (taken ordered from db)).0 ≡ none)
        × ((backup_instance json lines ordered src from db).1
            ≡ (backup_rows json lines src.unread from (taken ordered from db)).1)
  unfolding backup_instance arrived
  backup_done ordered src from db all h =
      let u = unlimited src (taken ordered from db) all in
      let (d, e) = backed_up_done src.refused _ h in
      (
        ap (λ rs. (backup_rows json lines src.unread from rs).0) (sym u) ∙ d,
        e ∙ ap (λ rs. (backup_rows json lines src.unread from rs).1) u,
      )

  moved-none :
      (law : ReadsLines json lines) (back : ReadsBack json) (triggered : Bool) (now : ℕ)
      (from id : Text) (o : Option (Row J))
      → moved_row json lines law back triggered now from id o none
        ≡ elim o [ none ↦ none | some r ↦ some (moved id r) ]
  moved-none law back triggered now from id none = refl
  moved-none law back triggered now from id (some r) = refl

  brought-taken :
      (law : ReadsLines json lines) (back : ReadsBack json) (triggered : Bool) (now : ℕ)
      (from id : Text) (ordered : List (Row J) → List (Row J)) (db : Db J) (key other : Text)
      (o : Option (Row J))
      → row_at key from (taken ordered from db) ≡ row_at key from db.rows
      → (text_eq id other ≡ true → o ≡ none)
      → brought json lines law back triggered now from id (taken ordered from db) key other o ≡ (
          if text_eq id other
          then elim (row_at key from db.rows) [ none ↦ none | some r ↦ some (moved id r) ]
          else o)
  brought-taken law back triggered now from id ordered db key other o p q =
      elim (Bool-cases (text_eq id other)) [
        | inl e ↦
            rw (e, p, q e) (moved-none law back triggered now from id (row_at key from db.rows))
        | inr e ↦ rw e refl
      ]

  -- A backup that returns no error and whose query comes to its end, restored with no error of the
  -- database for an instance with no rows, in the same table or another: the restoring returns no
  -- error, each key of that instance then has the row that the key has in the table of the backup, but for the
  -- instance, and the rows of other instances are as before. The table of the backup has its
  -- primary key and keys of at most 255 characters; a printed document must read back, and a line
  -- as its entry.
  pub restore-backup :
      (law : ReadsLines json lines) (back : ReadsBack json) (ordered : List (Row J) → List (Row J))
      (orders : Orders ordered) (triggered : Bool) (now : ℕ) (src : Source J) (from id : Text)
      (db db' : Db J)
      → src.arriving ≡ none
      → IsKeyed db.rows
      → All (λ r. ltb 255 (length r.key) ≡ false) db.rows
      → ((key : Text) → row_at key id db'.rows ≡ none)
      → (backup_instance json lines ordered src from db).0 ≡ none
      → let after =
          restore_instance json lines triggered now
            (λ e. none)
            id
            none
            none
            (backup_instance json lines ordered src from db).1
            db' in
        (after.0 ≡ none)
        × ((key other : Text)
            → row_at key other after.1.rows ≡ (
                if text_eq id other
                then elim (row_at key from db.rows) [ none ↦ none | some r ↦ some (moved id r) ]
                else row_at key other db'.rows))
  unfolding restore_instance committed
  restore-backup law back ordered orders triggered now src from id db db' all v short free h =
      let (ok, ls) = backup_done ordered src from db all h in
      let kv = select-IsKeyed (λ r. text_eq r.instance_id from) db.rows v in
      let (rows', run, at) =
        restored json lines law back triggered now from id src.unread (taken ordered from db)
          db'.rows (orders.keeps (λ r. text_eq r.instance_id from) true _ (All-selected _ db.rows))
          (orders.keyed _ kv)
          (orders.keeps (λ r. ltb 255 (length r.key)) false _ (All-select _ _ db.rows short))
          (vacant (λ s. s.key) db'.rows id _ free) ok in
      rw (ap (λ x. restore_lines json lines triggered now (λ e. none) id x db'.rows) ls ∙ run) (
        refl,
        λ key other.
            at key other
            ∙ brought-taken law back triggered now from id ordered db key other _
                (orders.found key from _ kv ∙ row_at-select key from db.rows)
                (λ e. ap (λ i. row_at key i db'.rows) (sym (text_eq_sound id other e)) ∙ free key),
      )
