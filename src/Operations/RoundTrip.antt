-- ===== src/Operations/RoundTrip.antt =====
-- A backup restored.
use birb_nest.Prelude.{
  and_false, ℕ, ◌≡◌, refl, ◌∙◌, ap, Bool, true, false, inl, inr, Option, none, some, List, [], ◌∷◌,
  length, Text, text_eq, text_eq_iff, ltb, if◌then◌else◌, arith, Bool-cases, All,
}
use birb_nest.Database.{Json, ReadsBack, Row, is_at, row_at}
use birb_nest.Database.Rows.{Absent, IsKeyed}
use birb_nest.Operations.{Lines}
use birb_nest.Operations.Backup.{backup_rows, restore_lines}
use birb_nest.Operations.Restore.{
  ReadsLines, moved, backup_rows_cons, Absent-row_at, Absent-of, put_row, put_row-row_at,
  restore_cons,
}

module _ {J : Type 0} (json : Json J) (lines : Lines) where
  module _ (law : ReadsLines json lines) (back : ReadsBack json) (triggered : Bool) (now : ℕ)
      (from id : Text) where
    abbrev pub moved_row : Option (Row J) → Option (Row J) → Option (Row J)
    moved_row none o = o
    moved_row (some r) o = some (moved id r)

    -- The rows of the backup over what was there.
    abbrev pub brought : List (Row J) → Text → Text → Option (Row J) → Option (Row J)
    brought rs key other o = if text_eq id other then moved_row (row_at key from rs) o else o

    abbrev Fresh : List (Row J) → List (Row J) → Type 0
    Fresh rs rows = All (λ s. row_at s.key id rows ≡ none) rs

    abbrev Owned : List (Row J) → Type 0
    Owned = All (λ s. text_eq s.instance_id from ≡ true)

    Fresh-put_row :
        (r : Row J) (rs rows : List (Row J))
        → row_at r.key id rows ≡ none
        → text_eq r.instance_id from ≡ true
        → Owned rs
        → Absent r.key r.instance_id rs
        → Fresh rs rows
        → Fresh rs (put_row json lines law back triggered now from id r rows)
    unfolding is_at
    Fresh-put_row r [] rows n p o a f = tt
    Fresh-put_row r (s ∷ rs) rows n p o a f =
        let d : text_eq r.key s.key ≡ false = ground (
          arith,
          o.0,
          a.0,
          text_eq_iff r.key s.key,
          text_eq_iff s.key r.key,
          text_eq_iff r.instance_id from,
          text_eq_iff s.instance_id from,
          text_eq_iff s.instance_id r.instance_id,
        ) in
        (
          put_row-row_at json lines law back triggered now from id r rows s.key id n ∙ rw d f.0,
          Fresh-put_row r rs rows n p o.1 a.1 f.1,
        )

    brought_cons :
        (r : Row J) (rs rows : List (Row J)) (key other : Text)
        → row_at r.key id rows ≡ none
        → text_eq r.instance_id from ≡ true
        → Absent r.key r.instance_id rs
        → brought rs key other
            (row_at key other (put_row json lines law back triggered now from id r rows))
          ≡ brought (r ∷ rs) key other (row_at key other rows)
    unfolding row_at is_at
    brought_cons r rs rows key other n p a = elim (Bool-cases (text_eq id other)) [
      | inl e ↦ elim (Bool-cases (text_eq r.key key)) [
        | inl f ↦
            rw
              (
                e,
                f,
                p,
                Absent-row_at json lines key from rs (Absent-of json lines from r key rs p f a),
              )
              (put_row-row_at json lines law back triggered now from id r rows key other n
                ∙ rw (f, e) refl)
        | inr f ↦
            rw (e, put_row-row_at json lines law back triggered now from id r rows key other n, f)
              refl
      ]
      | inr e ↦
          rw
            (
              e,
              put_row-row_at json lines law back triggered now from id r rows key other n,
              e,
              and_false (text_eq r.key key),
            )
            refl
    ]

    pub restored :
        (unread : Row J → Option Text) (rs rows : List (Row J))
        → Owned rs
        → IsKeyed rs
        → All (λ s. ltb 255 (length s.key) ≡ false) rs
        → Fresh rs rows
        → (backup_rows json lines unread from rs).0 ≡ none
        → (rows' : List (Row J)) × (restore_lines json lines triggered now
              (λ e. none)
              id
              (backup_rows json lines unread from rs).1
              rows
            ≡ inr rows')
          × ((key other : Text)
              → row_at key other rows' ≡ brought rs key other (row_at key other rows))
    unfolding restore_lines backup_rows row_at
    restored unread [] rows o v s f h = (
      rows,
      refl,
      λ key other. elim (Bool-cases (text_eq id other)) [ inl e ↦ rw e refl | inr e ↦ rw e refl ],
    )
    restored unread (r ∷ rs) rows o v s f h =
        let (l, enc, ok, ls) = backup_rows_cons json lines unread from r rs h in
        let (rows', run, at) =
          restored unread rs (put_row json lines law back triggered now from id r rows) o.1 v.1 s.1
            (Fresh-put_row r rs rows f.0 o.0 o.1 v.0 f.1) ok in
        (
          rows',
          ap (λ x. restore_lines json lines triggered now (λ e. none) id x rows) ls
              ∙ restore_cons json lines law back triggered now from id r l _ rows s.0 enc
              ∙ run,
          λ key other. at key other ∙ brought_cons r rs rows key other f.0 o.0 v.0,
        )
