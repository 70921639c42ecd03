-- ===== src/Database/Rows.antt =====
-- Laws of the statements on lists of rows.
use birb_nest.Prelude.{
  ◌≡◌, refl, sym, ◌∙◌, ap, Bool, true, false, ◌&&◌, inl, inr, none, some, List, [], ◌∷◌, Text,
  text_eq, text_eq_iff, text_eq_sound, if◌then◌else◌, arith, Bool-cases, All,
}
use birb_nest.Database.{Row, is_at, row_at, select, upsert, update_where, delete_where}

module _ {J : Type 0} where
  -- No row with the key and the instance.
  abbrev pub Absent : Text → Text → List (Row J) → Type 0
  Absent key id = All (λ r. is_at key id r ≡ false)

  -- The primary key: no two rows with the same key and instance.
  abbrev pub IsKeyed : List (Row J) → Type 0
  IsKeyed [] = Unit
  IsKeyed (r ∷ rs) = Absent r.key r.instance_id rs × IsKeyed rs

  -- The change leaves the primary key as it is.
  abbrev pub KeepsKey : (Row J → Row J) → Type 0
  KeepsKey change =
      (r : Row J) → ((change r).key ≡ r.key) × ((change r).instance_id ≡ r.instance_id)

  is_at_iff :
      (key id : Text) (r : Row J) → is_at key id r ≡ (text_eq r.key key && text_eq r.instance_id id)
  unfolding is_at
  is_at_iff key id r = refl

  is_at_change :
      (change : Row J → Row J) (key id : Text) (r : Row J)
      → KeepsKey change
      → is_at key id (change r) ≡ is_at key id r
  unfolding is_at
  is_at_change change key id r k = rw ((k r).0, (k r).1) refl

  is_at_sym :
      (r s : Row J) → is_at r.key r.instance_id s ≡ false → is_at s.key s.instance_id r ≡ false
  unfolding is_at
  is_at_sym r s h = ground (
    arith,
    text_eq_iff s.key r.key,
    text_eq_iff r.key s.key,
    text_eq_iff s.instance_id r.instance_id,
    text_eq_iff r.instance_id s.instance_id,
  )

  Absent-upsert :
      (key id : Text) (new : Row J) (change : Row J → Row J) (rs : List (Row J))
      → KeepsKey change
      → is_at key id new ≡ false
      → Absent key id rs
      → Absent key id (upsert new change rs)
  unfolding upsert
  Absent-upsert key id new change [] k n a = (n, tt)
  Absent-upsert key id new change (r ∷ rs) k n a =
      elim (Bool-cases (is_at new.key new.instance_id r)) [
        | inl e ↦ rw e (is_at_change change key id r k ∙ a.0, a.1)
        | inr e ↦ rw e (a.0, Absent-upsert key id new change rs k n a.1)
      ]

  pub upsert-IsKeyed :
      (new : Row J) (change : Row J → Row J) (rs : List (Row J))
      → KeepsKey change
      → IsKeyed rs
      → IsKeyed (upsert new change rs)
  unfolding upsert
  upsert-IsKeyed new change [] k v = (tt, tt)
  upsert-IsKeyed new change (r ∷ rs) k v = elim (Bool-cases (is_at new.key new.instance_id r)) [
    | inl e ↦ rw e (rw ((k r).0, (k r).1) v.0, v.1)
    | inr e ↦ rw e (
      Absent-upsert r.key r.instance_id new change rs k (is_at_sym new r e) v.0,
      upsert-IsKeyed new change rs k v.1,
    )
  ]

  Absent-delete_where :
      (key id : Text) (test : Row J → Bool) (rs : List (Row J))
      → Absent key id rs
      → Absent key id (delete_where test rs)
  unfolding delete_where
  Absent-delete_where key id test [] a = tt
  Absent-delete_where key id test (r ∷ rs) a = elim (Bool-cases (test r)) [
    | inl e ↦ rw e (Absent-delete_where key id test rs a.1)
    | inr e ↦ rw e (a.0, Absent-delete_where key id test rs a.1)
  ]

  pub delete_where-IsKeyed :
      (test : Row J → Bool) (rs : List (Row J)) → IsKeyed rs → IsKeyed (delete_where test rs)
  unfolding delete_where
  delete_where-IsKeyed test [] v = tt
  delete_where-IsKeyed test (r ∷ rs) v = elim (Bool-cases (test r)) [
    | inl e ↦ rw e (delete_where-IsKeyed test rs v.1)
    | inr e ↦
        rw e (Absent-delete_where r.key r.instance_id test rs v.0, delete_where-IsKeyed test rs v.1)
  ]

  pub KeepsKey-if :
      (test : Row J → Bool) (change : Row J → Row J)
      → KeepsKey change
      → KeepsKey (λ r. if test r then change r else r)
  KeepsKey-if test change k r = elim (Bool-cases (test r)) [
    | inl e ↦ rw e (k r)
    | inr e ↦ rw e (refl, refl)
  ]

  Absent-update_where :
      (key id : Text) (test : Row J → Bool) (change : Row J → Row J) (rs : List (Row J))
      → KeepsKey change
      → Absent key id rs
      → Absent key id (update_where test change rs)
  unfolding update_where
  Absent-update_where key id test change [] k a = tt
  Absent-update_where key id test change (r ∷ rs) k a = (
    is_at_change (λ r. if test r then change r else r) key id r (KeepsKey-if test change k) ∙ a.0,
    Absent-update_where key id test change rs k a.1,
  )

  pub update_where-IsKeyed :
      (test : Row J → Bool) (change : Row J → Row J) (rs : List (Row J))
      → KeepsKey change
      → IsKeyed rs
      → IsKeyed (update_where test change rs)
  unfolding update_where
  update_where-IsKeyed test change [] k v = tt
  update_where-IsKeyed test change (r ∷ rs) k v =
      let q = KeepsKey-if test change k r in
      (
        rw (q.0, q.1) (Absent-update_where r.key r.instance_id test change rs k v.0),
        update_where-IsKeyed test change rs k v.1,
      )

  is_at_same :
      (key id : Text) (r s : Row J)
      → is_at key id r ≡ true
      → is_at r.key r.instance_id s ≡ is_at key id s
  unfolding is_at
  is_at_same key id r s h = ground (arith, text_eq_sound r.key key, text_eq_sound r.instance_id id)

  is_at_other :
      (key id : Text) (r s : Row J)
      → is_at r.key r.instance_id s ≡ true
      → is_at key id s ≡ is_at key id r
  unfolding is_at
  is_at_other key id r s h =
      ground (arith, text_eq_sound s.key r.key, text_eq_sound s.instance_id r.instance_id)

  -- Of a key and an instance, what an upsert leaves: its own row is new or changed.
  pub row_at-upsert :
      (key id : Text) (new : Row J) (change : Row J → Row J) (rs : List (Row J))
      → KeepsKey change
      → row_at key id (upsert new change rs) ≡ (
          if is_at key id new
          then some (elim (row_at new.key new.instance_id rs) [ none ↦ new | some r ↦ change r ])
          else row_at key id rs)
  unfolding row_at upsert
  row_at-upsert key id new change [] k = refl
  row_at-upsert key id new change (r ∷ rs) k = elim (Bool-cases (is_at new.key new.instance_id r)) [
    | inl e ↦
        rw (e, is_at_change change key id r k, is_at_other key id new r e)
          (elim (Bool-cases (is_at key id new)) [ inl f ↦ rw f refl | inr f ↦ rw f refl ])
    | inr e ↦ elim (Bool-cases (is_at key id new)) [
      | inl f ↦
          rw (e, f, sym (is_at_same key id new r f), e)
            (row_at-upsert key id new change rs k ∙ rw f refl)
      | inr f ↦ elim (Bool-cases (is_at key id r)) [
        | inl g ↦ rw (e, f, g) refl
        | inr g ↦ rw (e, f, g) (row_at-upsert key id new change rs k ∙ rw f refl)
      ]
    ]
  ]

  pub row_at-delete_where :
      (key id j i : Text) (rs : List (Row J))
      → row_at key id (delete_where (is_at j i) rs)
        ≡ (if text_eq j key && text_eq i id then none else row_at key id rs)
  unfolding row_at delete_where is_at
  row_at-delete_where key id j i [] = ground arith
  row_at-delete_where key id j i (r ∷ rs) = ground (
    arith,
    row_at-delete_where key id j i rs,
    text_eq_iff r.key j,
    text_eq_iff r.key key,
    text_eq_iff j key,
    text_eq_iff r.instance_id i,
    text_eq_iff r.instance_id id,
    text_eq_iff i id,
  )

  pub row_at-is_at :
      (key id : Text) (rs : List (Row J)) (r : Row J)
      → row_at key id rs ≡ some r
      → is_at key id r ≡ true
  unfolding row_at
  row_at-is_at key id [] r e = ground arith
  row_at-is_at key id (s ∷ rs) r e = elim (Bool-cases (is_at key id s)) [
    | inl f ↦ grind arith
    | inr f ↦
        row_at-is_at key id rs r (sym (ap (λ b. if b then some s else row_at key id rs) f) ∙ e)
  ]

  pub row_at-update_where :
      (key id : Text) (test : Row J → Bool) (change : Row J → Row J) (rs : List (Row J)) (r : Row J)
      → KeepsKey change
      → row_at key id rs ≡ some r
      → row_at key id (update_where test change rs) ≡ some (if test r then change r else r)
  unfolding row_at update_where
  row_at-update_where key id test change [] r k h = ground arith
  row_at-update_where key id test change (q ∷ rs) r k h = elim (Bool-cases (is_at key id q)) [
    | inl e ↦
        let same : q ≡ r = ground arith in
        elim (Bool-cases (test q)) [
          | inl t ↦ rw (t, is_at_change change key id q k, e, sym same) (rw t refl)
          | inr t ↦ rw (t, e, sym same) (rw t refl)
        ]
    | inr e ↦
        let rest : row_at key id rs ≡ some r = ground arith in
        let ih = row_at-update_where key id test change rs r k rest in
        elim (Bool-cases (test q)) [
          | inl t ↦ rw (t, is_at_change change key id q k, e) ih
          | inr t ↦ rw (t, e) ih
        ]
  ]

  -- A row that is there and passes the test is selected.
  pub select-row_at :
      (key id : Text) (test : Row J → Bool) (rs : List (Row J)) (r : Row J)
      → row_at key id rs ≡ some r
      → test r ≡ true
      → (s : Row J) × (ss : List (Row J)) × (select test rs ≡ s ∷ ss)
  unfolding row_at select
  select-row_at key id test [] r h t = absurd (ground arith)
  select-row_at key id test (q ∷ rs) r h t = elim (Bool-cases (test q)) [
    | inl e ↦ (q, select test rs, rw e refl)
    | inr e ↦
        let other : is_at key id q ≡ false = ground arith in
        let (s, ss, p) = select-row_at key id test rs r (ground arith) t in (s, ss, rw e p)
  ]
