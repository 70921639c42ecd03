-- ===== src/Database/Isolation.antt =====
-- What the calls for one instance leave of the rows of another.
use birb_nest.Prelude.{
  ℕ, ◌≡◌, refl, sym, ◌∙◌, Bool, true, false, ◌⊎◌, inl, inr, Option, none, some, List, [], ◌∷◌, Text,
  text_eq, text_eq_sound, arith, Bool-cases, ◌≢◌, not-text_eq,
}
use birb_nest.Prelude.Int.{ℤ}
use birb_nest.Database.{
  CacheEntry, Json, Row, scan, is_expired, is_at, row_at, select, upsert, delete_where,
}
use birb_nest.Database.Repository.{
  Db, set_row, set_with_instance, removed, deleted, delete_with_instance, live, got,
  get_with_instance,
}
use birb_nest.Database.Queries.{erased, delete_by_instance}
use birb_nest.Database.History.{Call, set, get, delete, clear, perform}

module _ {J : Type 0} where
  abbrev of : Text → Row J → Bool
  of id r = text_eq r.instance_id id

  -- The rows of an instance.
  abbrev pub rows_of : Text → Db J → List (Row J)
  rows_of id db = select (of id) db.rows

  select-upsert :
      (test : Row J → Bool) (new : Row J) (change : Row J → Row J) (rs : List (Row J))
      → test new ≡ false
      → ((r : Row J) → is_at new.key new.instance_id r ≡ true → test r ≡ false)
      → ((r : Row J) → test (change r) ≡ test r)
      → select test (upsert new change rs) ≡ select test rs
  unfolding select upsert
  select-upsert test new change [] n at k = rw n refl
  select-upsert test new change (r ∷ rs) n at k =
      elim (Bool-cases (is_at new.key new.instance_id r)) [
        | inl e ↦ rw (e, k r, at r e) refl
        | inr e ↦ rw (e, select-upsert test new change rs n at k) refl
      ]

  select-delete_where :
      (test gone : Row J → Bool) (rs : List (Row J))
      → ((r : Row J) → gone r ≡ true → test r ≡ false)
      → select test (delete_where gone rs) ≡ select test rs
  unfolding select delete_where
  select-delete_where test gone [] at = refl
  select-delete_where test gone (r ∷ rs) at = elim (Bool-cases (gone r)) [
    | inl e ↦ rw (e, at r e) (select-delete_where test gone rs at)
    | inr e ↦ rw (e, select-delete_where test gone rs at) refl
  ]

  not-of :
      (id other : Text) (r : Row J)
      → other ≢ id
      → text_eq r.instance_id id ≡ true
      → of other r ≡ false
  not-of id other r h e =
      not-text_eq r.instance_id other (λ p. h (sym p ∙ text_eq_sound r.instance_id id e))

  not-at :
      (key id other : Text) (r : Row J) → other ≢ id → is_at key id r ≡ true → of other r ≡ false
  unfolding is_at
  not-at key id other r h e = not-of id other r h (ground arith)

module _ {J : Type 0} (json : Json J) (id other : Text) (apart : other ≢ id) where
  set_row-Isolated :
      (now : ℕ) (key : Text) (ttl : Option ℤ) (o : Text ⊎ (J × J)) (db : Db J)
      → rows_of other (set_row json now key id ttl o db).1 ≡ rows_of other db
  unfolding set_row
  set_row-Isolated now key ttl (inl e) db = refl
  set_row-Isolated now key ttl (inr (v, m)) db =
      select-upsert (of other) _ _ db.rows (not-text_eq id other (λ p. apart (sym p)))
        (λ r. not-at key id other r apart) (λ r. refl)

  removed-Isolated :
      (key : Text) (o : Option (Row J)) (db : Db J)
      → rows_of other (removed json key id o db).1 ≡ rows_of other db
  unfolding removed
  removed-Isolated key none db = refl
  removed-Isolated key (some r) db =
      select-delete_where (of other) (is_at key id) db.rows (λ r. not-at key id other r apart)

  deleted-Isolated :
      (key : Text) (fault : Option Text) (db : Db J)
      → rows_of other (deleted json key id fault db).1 ≡ rows_of other db
  unfolding deleted
  deleted-Isolated key (some e) db = refl
  deleted-Isolated key none db = removed-Isolated key (row_at key id db.rows) db

  erased-Isolated :
      (what : Text) (fault : Option Text) (db : Db J)
      → rows_of other (erased what fault (of id) db).1 ≡ rows_of other db
  unfolding erased
  erased-Isolated what (some e) db = refl
  erased-Isolated what none db =
      select-delete_where (of other) (of id) db.rows (λ r. not-of id other r apart)

module _ {J : Type 0} (json : Json J) where
  live-Isolated :
      (now : ℕ) (fault : Option Text) (key id other : Text) (c : CacheEntry) (db : Db J)
      → other ≢ id
      → rows_of other (live json now fault key id c db).1 ≡ rows_of other db
  unfolding live delete_with_instance
  live-Isolated now fault key id other c db h = elim (Bool-cases (is_expired now c)) [
    | inl e ↦ rw e (deleted-Isolated json id other h key fault db)
    | inr e ↦ rw e refl
  ]

  got-Isolated :
      (now : ℕ) (fault : Option Text) (key id other : Text) (o : Option (Row J)) (db : Db J)
      → other ≢ id
      → rows_of other (got json now fault key id o db).1 ≡ rows_of other db
  unfolding got
  got-Isolated now fault key id other none db h = refl
  got-Isolated now fault key id other (some r) db h =
      live-Isolated now fault key id other (scan json r) db h

  perform-Isolated :
      (id other : Text) (x : Call) (db : Db J)
      → other ≢ id
      → rows_of other (perform json id x db) ≡ rows_of other db
  unfolding perform set_with_instance get_with_instance delete_with_instance delete_by_instance
  perform-Isolated id other (set now fault key value ttl metadata) db h =
      set_row-Isolated json id other h now key ttl _ db
  perform-Isolated id other (get now (some e) fault' key) db h = refl
  perform-Isolated id other (get now none fault' key) db h =
      got-Isolated now fault' key id other _ db h
  perform-Isolated id other (delete fault key) db h = deleted-Isolated json id other h key fault db
  perform-Isolated id other (clear fault) db h = erased-Isolated json id other h _ fault db

  -- The calls for one instance.
  abbrev pub perform_calls : Text → List Call → Db J → Db J
  perform_calls id [] db = db
  perform_calls id (x ∷ xs) db = perform_calls id xs (perform json id x db)

  -- No sequence of writes, reads, deletions and clearings for an instance, failing ones included,
  -- changes a row of another instance.
  pub perform_calls-Isolated :
      (id other : Text) (xs : List Call) (db : Db J)
      → other ≢ id
      → rows_of other (perform_calls id xs db) ≡ rows_of other db
  perform_calls-Isolated id other [] db h = refl
  perform_calls-Isolated id other (x ∷ xs) db h =
      perform_calls-Isolated id other xs _ h ∙ perform-Isolated id other x db h
