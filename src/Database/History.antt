-- ===== src/Database/History.antt =====
-- The calls of the repository that change the table.
use birb_nest.Prelude.{
  ℕ, refl, Bool, true, false, ◌⊎◌, inl, inr, Option, none, some, List, [], ◌∷◌, Text, Bool-cases,
}
use birb_nest.Prelude.Int.{ℤ}
use birb_nest.Cache.{Bytes}
use birb_nest.Database.{Json, Row, CacheEntry, scan, is_expired, is_at, row_at}
use birb_nest.Database.Rows.{
  IsKeyed, KeepsKey, upsert-IsKeyed, update_where-IsKeyed, delete_where-IsKeyed,
}
use birb_nest.Database.Repository.{
  Db, set_row, set_with_instance, removed, deleted, delete_with_instance, live, got,
  get_with_instance, versioned, replaced, version_set, set_with_version,
}
use birb_nest.Database.Queries.{erased, cleanup_expired, delete_by_instance}

-- A call for one instance; each with the clock and the errors that its statements meet.
pub data Call : Type 0 where
  set : ℕ → Option Text → Text → Bytes → Option ℤ → Option Bytes → Call
  get : ℕ → Option Text → Option Text → Text → Call
  delete : Option Text → Text → Call
  clear : Option Text → Call

-- A call for an instance, or one that names none.
pub data AnyCall : Type 0 where
  tenant : Text → Call → AnyCall
  versioned_set : ℕ → Option Text → Text → Bytes → Option ℤ → Option Bytes → ℕ → AnyCall
  cleanup : ℕ → Option Text → ℕ → AnyCall

module _ {J : Type 0} (json : Json J) where
  unfoldable pub perform : Text → Call → Db J → Db J
  perform id (set now fault key value ttl metadata) db =
      (set_with_instance json now fault key id value ttl metadata db).1
  perform id (get now fault fault' key) db = (get_with_instance json now fault fault' key id db).1
  perform id (delete fault key) db = (delete_with_instance json fault key id db).1
  perform id (clear fault) db = (delete_by_instance fault id db).1

  unfoldable pub perform_any : Bool → AnyCall → Db J → Db J
  perform_any triggered (tenant id x) db = perform id x db
  perform_any triggered (versioned_set now fault key value ttl metadata expected) db =
      (set_with_version json triggered now fault key value ttl metadata expected db).1
  perform_any triggered (cleanup now fault size) db = (cleanup_expired now fault size db).1

  unfoldable pub perform_all : Bool → List AnyCall → Db J → Db J
  perform_all triggered [] db = db
  perform_all triggered (x ∷ xs) db = perform_all triggered xs (perform_any triggered x db)

module _ {J : Type 0} (json : Json J) where
  abbrev pub Keyed : Db J → Type 0
  Keyed db = IsKeyed db.rows

  set_row-Keyed :
      (now : ℕ) (key id : Text) (ttl : Option ℤ) (o : Text ⊎ (J × J)) (db : Db J)
      → Keyed db
      → Keyed (set_row json now key id ttl o db).1
  unfolding set_row
  set_row-Keyed now key id ttl (inl e) db v = v
  set_row-Keyed now key id ttl (inr (a, m)) db v = upsert-IsKeyed _ _ db.rows (λ r. (refl, refl)) v

  removed-Keyed :
      (key id : Text) (o : Option (Row J)) (db : Db J)
      → Keyed db
      → Keyed (removed json key id o db).1
  unfolding removed
  removed-Keyed key id none db v = v
  removed-Keyed key id (some r) db v = delete_where-IsKeyed (is_at key id) db.rows v

  deleted-Keyed :
      (key id : Text) (fault : Option Text) (db : Db J)
      → Keyed db
      → Keyed (deleted json key id fault db).1
  unfolding deleted
  deleted-Keyed key id (some e) db v = v
  deleted-Keyed key id none db v = removed-Keyed key id (row_at key id db.rows) db v

  live-Keyed :
      (now : ℕ) (fault : Option Text) (key id : Text) (c : CacheEntry) (db : Db J)
      → Keyed db
      → Keyed (live json now fault key id c db).1
  unfolding live delete_with_instance
  live-Keyed now fault key id c db v = elim (Bool-cases (is_expired now c)) [
    | inl e ↦ rw e (deleted-Keyed key id fault db v)
    | inr e ↦ rw e v
  ]

  got-Keyed :
      (now : ℕ) (fault : Option Text) (key id : Text) (o : Option (Row J)) (db : Db J)
      → Keyed db
      → Keyed (got json now fault key id o db).1
  unfolding got
  got-Keyed now fault key id none db v = v
  got-Keyed now fault key id (some r) db v = live-Keyed now fault key id (scan json r) db v

  get-Keyed :
      (now : ℕ) (fault fault' : Option Text) (key id : Text) (db : Db J)
      → Keyed db
      → Keyed (get_with_instance json now fault fault' key id db).1
  unfolding get_with_instance
  get-Keyed now (some e) fault' key id db v = v
  get-Keyed now none fault' key id db v = got-Keyed now fault' key id (row_at key id db.rows) db v

  erased-Keyed :
      (what : Text) (fault : Option Text) (test : Row J → Bool) (db : Db J)
      → Keyed db
      → Keyed (erased what fault test db).1
  unfolding erased
  erased-Keyed what (some e) test db v = v
  erased-Keyed what none test db v = delete_where-IsKeyed test db.rows v

  versioned-KeepsKey :
      (triggered : Bool) (now : ℕ) (a m : J) (ttl : Option ℤ)
      → KeepsKey (versioned json triggered now a ttl m)
  unfolding versioned
  versioned-KeepsKey true now a m ttl r = (refl, refl)
  versioned-KeepsKey false now a m ttl r = (refl, refl)

  replaced-Keyed :
      (triggered : Bool) (now : ℕ) (key : Text) (ttl : Option ℤ) (expected : ℕ) (a m : J)
      (found : List (Row J)) (db : Db J)
      → Keyed db
      → Keyed (replaced json triggered now key ttl expected a m found db).1
  unfolding replaced
  replaced-Keyed triggered now key ttl expected a m [] db v = v
  replaced-Keyed triggered now key ttl expected a m (r ∷ rs) db v =
      update_where-IsKeyed _ _ db.rows (versioned-KeepsKey triggered now a m ttl) v

  version_set-Keyed :
      (triggered : Bool) (now : ℕ) (key : Text) (ttl : Option ℤ) (expected : ℕ) (o : Text ⊎ (J × J))
      (db : Db J)
      → Keyed db
      → Keyed (version_set json triggered now key ttl expected o db).1
  unfolding version_set
  version_set-Keyed triggered now key ttl expected (inl e) db v = v
  version_set-Keyed triggered now key ttl expected (inr (a, m)) db v =
      replaced-Keyed triggered now key ttl expected a m _ db v

  perform-Keyed : (id : Text) (x : Call) (db : Db J) → Keyed db → Keyed (perform json id x db)
  unfolding perform set_with_instance delete_with_instance delete_by_instance
  perform-Keyed id (set now fault key value ttl metadata) db v = set_row-Keyed now key id ttl _ db v
  perform-Keyed id (get now fault fault' key) db v = get-Keyed now fault fault' key id db v
  perform-Keyed id (delete fault key) db v = deleted-Keyed key id fault db v
  perform-Keyed id (clear fault) db v = erased-Keyed _ fault _ db v

  perform_any-Keyed :
      (triggered : Bool) (x : AnyCall) (db : Db J)
      → Keyed db
      → Keyed (perform_any json triggered x db)
  unfolding perform_any set_with_version cleanup_expired
  perform_any-Keyed triggered (tenant id x) db v = perform-Keyed id x db v
  perform_any-Keyed triggered (versioned_set now fault key value ttl metadata expected) db v =
      version_set-Keyed triggered now key ttl expected _ db v
  perform_any-Keyed triggered (cleanup now fault size) db v = erased-Keyed _ fault _ db v

  -- No sequence of calls, failing ones included, leaves two rows with the same key and instance in
  -- a table that had none.
  pub perform_all-Keyed :
      (triggered : Bool) (xs : List AnyCall) (db : Db J)
      → Keyed db
      → Keyed (perform_all json triggered xs db)
  unfolding perform_all
  perform_all-Keyed triggered [] db v = v
  perform_all-Keyed triggered (x ∷ xs) db v =
      perform_all-Keyed triggered xs _ (perform_any-Keyed triggered x db v)
