-- ===== src/Database/Table.antt =====
-- The table as a map from a key and an instance to a row, and what the calls do to it.
use birb_nest.Prelude.{
  ℕ, ◌+◌, ◌≡◌, refl, sym, ◌∙◌, ap, ◌&&◌, ◌⊎◌, inl, inr, Option, none, some, List, [], ◌∷◌, Text,
  lit, text_eq, text_eq_iff, text_eq_sound, if◌then◌else◌, arith, Bool-cases,
}
use birb_nest.Prelude.Int.{ℤ}
use birb_nest.Database.{Json, Row, CacheEntry, scan, over, is_expired, is_at, row_at, delete_where}
use birb_nest.Database.Rows.{row_at-upsert, row_at-delete_where}
use birb_nest.Database.Repository.{
  RepoError, not_found, failed, Db, documents, set_row, set_with_instance, removed, deleted,
  delete_with_instance, live, got, get_with_instance,
}
use birb_nest.Database.Queries.{erased, delete_by_instance}
use birb_nest.Database.History.{Call, set, get, delete, clear, perform}

-- A map from a key and an instance to a row.
abbrev pub Table : Type 0 → Type 0
Table J = Text → Text → Option (Row J)

module _ {J : Type 0} where
  abbrev pub table : List (Row J) → Table J
  table rs key id = row_at key id rs

  -- The table with one place changed.
  abbrev pub put : Text → Text → Option (Row J) → Table J → Table J
  put key id o t key' id' = if text_eq key key' && text_eq id id' then o else t key' id'

  -- A row that is written over what was there.
  abbrev pub written : ℕ → Text → Text → J → Option ℤ → J → Option (Row J) → Row J
  written now key id v ttl m none = record {
    key = key;
    value = v;
    instance_id = id;
    created_at = now;
    updated_at = now;
    version = 1;
    ttl = ttl;
    metadata = some m;
  }
  written now key id v ttl m (some r) = record r {
    value = v;
    ttl = ttl;
    metadata = some m;
    updated_at = now;
    version = r.version + 1;
  }

  -- What is left of a row at a time.
  abbrev pub kept : ℕ → Option (Row J) → Option (Row J)
  kept now none = none
  kept now (some r) = if over now r.updated_at r.ttl then none else some r

abbrev done : Option RepoError → RepoError ⊎ Option CacheEntry
done none = inr none
done (some e) = inl e

abbrev read : RepoError ⊎ CacheEntry → RepoError ⊎ Option CacheEntry
read (inl e) = inl e
read (inr c) = inr (some c)

abbrev cleared_as : RepoError ⊎ ℕ → RepoError ⊎ Option CacheEntry
cleared_as (inl e) = inl e
cleared_as (inr n) = inr none

module _ {J : Type 0} (json : Json J) where
  unfoldable pub write : ℕ → Text → Text → Option ℤ → Text ⊎ (J × J) → Table J → Table J
  write now key id ttl (inl e) t = t
  write now key id ttl (inr (v, m)) t = put key id (some (written now key id v ttl m (t key id))) t

  -- What a call does to the map: a write counts the version of the row up or starts it at 1, a read
  -- drops a row that is over, a deletion drops the row, a clearing all rows of the instance; a call
  -- whose statement fails does nothing.
  unfoldable pub act : Text → Call → Table J → Table J
  unfolding write
  act id (set now fault key value ttl metadata) t =
      write now key id ttl (documents json fault key value metadata) t
  act id (get now none none key) t = put key id (kept now (t key id)) t
  act id (get now fault fault' key) t = t
  act id (delete none key) t = put key id none t
  act id (delete (some e) key) t = t
  act id (clear none) t = λ key' id'. if text_eq id id' then none else t key' id'
  act id (clear (some e)) t = t

  unfoldable pub act_all : List (Text × Call) → Table J → Table J
  act_all [] t = t
  act_all ((id, x) ∷ xs) t = act_all xs (act id x t)

  unfoldable pub perform_each : List (Text × Call) → Db J → Db J
  perform_each [] db = db
  perform_each ((id, x) ∷ xs) db = perform_each xs (perform json id x db)

  upserted-written :
      (now : ℕ) (key id : Text) (v m : J) (ttl : Option ℤ) (o : Option (Row J))
      → elim o [
        | none ↦ record {
          key = key;
          value = v;
          instance_id = id;
          created_at = now;
          updated_at = now;
          version = 1;
          ttl = ttl;
          metadata = some m;
        }
        | some r ↦ record r {
          value = v;
          ttl = ttl;
          metadata = some m;
          updated_at = now;
          version = r.version + 1;
        }
      ]
        ≡ written now key id v ttl m o
  upserted-written now key id v m ttl none = refl
  upserted-written now key id v m ttl (some r) = refl

  pub set_row-write :
      (now : ℕ) (key id : Text) (ttl : Option ℤ) (o : Text ⊎ (J × J)) (db : Db J) (key' id' : Text)
      → table (set_row json now key id ttl o db).1.rows key' id'
        ≡ write now key id ttl o (table db.rows) key' id'
  unfolding set_row write is_at
  set_row-write now key id ttl (inl e) db key' id' = refl
  set_row-write now key id ttl (inr (v, m)) db key' id' =
      row_at-upsert key' id' _ _ db.rows (λ r. (refl, refl))
      ∙ ap (λ r. if text_eq key key' && text_eq id id' then some r else row_at key' id' db.rows)
          (upserted-written now key id v m ttl (row_at key id db.rows))

  put-same :
      (key id : Text) (o : Option (Row J)) (t : Table J) (key' id' : Text)
      → o ≡ t key id
      → put key id o t key' id' ≡ t key' id'
  put-same key id o t key' id' p = elim (Bool-cases (text_eq key key' && text_eq id id')) [
    | inl e ↦
        rw
          (
            e,
            sym (text_eq_sound key key' (ground arith)),
            sym (text_eq_sound id id' (ground arith)),
          )
          p
    | inr e ↦ rw e refl
  ]

  deleted-put :
      (key id : Text) (o : Option (Row J)) (db : Db J) (key' id' : Text)
      → row_at key id db.rows ≡ o
      → table (removed json key id o db).1.rows key' id' ≡ put key id none (table db.rows) key' id'
  unfolding removed
  deleted-put key id none db key' id' p =
      sym (put-same key id none (table db.rows) key' id' (sym p))
  deleted-put key id (some r) db key' id' p = row_at-delete_where key' id' key id db.rows

  pub cleared :
      (id : Text) (rs : List (Row J)) (key' id' : Text)
      → row_at key' id' (delete_where (λ r. text_eq r.instance_id id) rs)
        ≡ (if text_eq id id' then none else row_at key' id' rs)
  unfolding row_at delete_where is_at
  cleared id [] key' id' = ground arith
  cleared id (r ∷ rs) key' id' = ground (
    arith,
    cleared id rs key' id',
    text_eq_iff r.instance_id id,
    text_eq_iff r.instance_id id',
    text_eq_iff id id',
  )

  live-kept :
      (now : ℕ) (key id : Text) (r : Row J) (db : Db J) (key' id' : Text)
      → row_at key id db.rows ≡ some r
      → table (live json now none key id (scan json r) db).1.rows key' id'
        ≡ put key id (kept now (some r)) (table db.rows) key' id'
  unfolding live delete_with_instance scan is_expired deleted
  live-kept now key id r db key' id' e = elim (Bool-cases (over now r.updated_at r.ttl)) [
    | inl f ↦ rw f (deleted-put key id _ db key' id' refl)
    | inr f ↦ rw f (sym (put-same key id (some r) (table db.rows) key' id' (sym e)))
  ]

  got-kept :
      (now : ℕ) (key id : Text) (o : Option (Row J)) (db : Db J) (key' id' : Text)
      → row_at key id db.rows ≡ o
      → table (got json now none key id o db).1.rows key' id'
        ≡ put key id (kept now o) (table db.rows) key' id'
  unfolding got
  got-kept now key id none db key' id' e =
      sym (put-same key id none (table db.rows) key' id' (sym e))
  got-kept now key id (some r) db key' id' e = live-kept now key id r db key' id' e

  got-failing :
      (now : ℕ) (e key id : Text) (o : Option (Row J)) (db : Db J)
      → (got json now (some e) key id o db).1 ≡ db
  unfolding got live delete_with_instance deleted
  got-failing now e key id none db = refl
  got-failing now e key id (some r) db = elim (Bool-cases (is_expired now (scan json r))) [
    | inl f ↦ rw f refl
    | inr f ↦ rw f refl
  ]

  perform-act :
      (id : Text) (x : Call) (db : Db J) (key' id' : Text)
      → table (perform json id x db).rows key' id' ≡ act id x (table db.rows) key' id'
  unfolding perform act set_with_instance delete_with_instance delete_by_instance erased deleted
      get_with_instance
  perform-act id (set now fault key value ttl metadata) db key' id' =
      set_row-write now key id ttl _ db key' id'
  perform-act id (get now none none key) db key' id' = got-kept now key id _ db key' id' refl
  perform-act id (get now none (some e) key) db key' id' =
      ap (λ d. table d.rows key' id') (got-failing now e key id (row_at key id db.rows) db)
  perform-act id (get now (some e) none key) db key' id' = refl
  perform-act id (get now (some e) (some e') key) db key' id' = refl
  perform-act id (delete none key) db key' id' = deleted-put key id _ db key' id' refl
  perform-act id (delete (some e) key) db key' id' = refl
  perform-act id (clear none) db key' id' = cleared id db.rows key' id'
  perform-act id (clear (some e)) db key' id' = refl

  -- What a call returns: an error, or for a read the entry. The number of rows that a clearing
  -- deletes is left out.
  unfoldable pub returned : Text → Call → Db J → RepoError ⊎ Option CacheEntry
  returned id (set now fault key value ttl metadata) db =
      done (set_with_instance json now fault key id value ttl metadata db).0
  returned id (get now fault fault' key) db =
      read (get_with_instance json now fault fault' key id db).0
  returned id (delete fault key) db = done (delete_with_instance json fault key id db).0
  returned id (clear fault) db = cleared_as (delete_by_instance fault id db).0

  -- What it is to return by the map.
  abbrev found : ℕ → Option (Row J) → RepoError ⊎ Option CacheEntry
  found now none = inl not_found
  found now (some r) =
      if over now r.updated_at r.ttl then inl not_found else inr (some (scan json r))

  abbrev set_result : Text ⊎ (J × J) → RepoError ⊎ Option CacheEntry
  set_result (inl e) = inl (failed (lit "failed to set cache entry") e)
  set_result (inr d) = inr none

  unfoldable pub expected : Text → Call → Table J → RepoError ⊎ Option CacheEntry
  expected id (set now fault key value ttl metadata) t =
      set_result (documents json fault key value metadata)
  expected id (get now (some e) fault' key) t = inl (failed (lit "failed to get cache entry") e)
  expected id (get now none fault' key) t = found now (t key id)
  expected id (delete (some e) key) t = inl (failed (lit "failed to delete cache entry") e)
  expected id (delete none key) t = elim (t key id) [ none ↦ inl not_found | some r ↦ inr none ]
  expected id (clear (some e)) t = inl (failed (lit "failed to delete instance entries") e)
  expected id (clear none) t = inr none

  set_row-result :
      (now : ℕ) (key id : Text) (ttl : Option ℤ) (o : Text ⊎ (J × J)) (db : Db J)
      → done (set_row json now key id ttl o db).0 ≡ set_result o
  unfolding set_row
  set_row-result now key id ttl (inl e) db = refl
  set_row-result now key id ttl (inr (v, m)) db = refl

  got-result :
      (now : ℕ) (fault : Option Text) (key id : Text) (o : Option (Row J)) (db : Db J)
      → read (got json now fault key id o db).0 ≡ found now o
  unfolding got live scan is_expired
  got-result now fault key id none db = refl
  got-result now fault key id (some r) db = elim (Bool-cases (over now r.updated_at r.ttl)) [
    | inl e ↦ rw e refl
    | inr e ↦ rw e refl
  ]

  removed-result :
      (key id : Text) (o : Option (Row J)) (db : Db J)
      → done (removed json key id o db).0 ≡ (elim o [ none ↦ inl not_found | some r ↦ inr none ])
  unfolding removed
  removed-result key id none db = refl
  removed-result key id (some r) db = refl

  returned-expected :
      (id : Text) (x : Call) (db : Db J) → returned id x db ≡ expected id x (table db.rows)
  unfolding returned expected set_with_instance delete_with_instance delete_by_instance erased
      deleted get_with_instance
  returned-expected id (set now fault key value ttl metadata) db =
      set_row-result now key id ttl _ db
  returned-expected id (get now (some e) fault' key) db = refl
  returned-expected id (get now none fault' key) db = got-result now fault' key id _ db
  returned-expected id (delete (some e) key) db = refl
  returned-expected id (delete none key) db = removed-result key id _ db
  returned-expected id (clear (some e)) db = refl
  returned-expected id (clear none) db = refl

  unfoldable pub returned_each : List (Text × Call) → Db J → List (RepoError ⊎ Option CacheEntry)
  returned_each [] db = []
  returned_each ((id, x) ∷ xs) db = returned id x db ∷ returned_each xs (perform json id x db)

  unfoldable pub expected_all : List (Text × Call) → Table J → List (RepoError ⊎ Option CacheEntry)
  expected_all [] t = []
  expected_all ((id, x) ∷ xs) t = expected id x t ∷ expected_all xs (act id x t)

  -- A sequence of writes, reads, deletions and clearings, each for an instance of its own and with
  -- the errors that its statements meet, leaves the rows that the same sequence makes of the map
  -- from keys and instances to rows, and returns what that map says: each read the entry of its
  -- place unless it is over, each deletion whether there was a row, and each call its own error.
  pub perform_each-act :
      (xs : List (Text × Call)) (db : Db J)
      → (table (perform_each xs db).rows ≡ act_all xs (table db.rows))
        × (returned_each xs db ≡ expected_all xs (table db.rows))
  unfolding perform_each act_all returned_each expected_all
  perform_each-act [] db = (refl, refl)
  perform_each-act ((id, x) ∷ xs) db =
      let step : table (perform json id x db).rows ≡ act id x (table db.rows) =
        λ i key' id'. perform-act id x db key' id' i in
      let (rows, answers) = perform_each-act xs (perform json id x db) in
      (
        rows ∙ ap (act_all xs) step,
        ap (λ a. a ∷ returned_each xs (perform json id x db)) (returned-expected id x db)
            ∙ ap (λ rest. expected id x (table db.rows) ∷ rest)
                (answers ∙ ap (expected_all xs) step),
      )
