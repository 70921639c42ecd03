-- ===== src/Database/Expiry.antt =====
-- What Get and Exists say of an entry and its TTL.
use birb_nest.Prelude.{
  ℕ, zero, suc, ◌≡◌, refl, true, false, inl, inr, Option, none, some, Text, text_eq_refl, arith,
  Bool-cases,
}
use birb_nest.Prelude.Int.{ℤ, pos, negsuc}
use birb_nest.Database.{Json, Row, scan, over, is_expired, lasts, row_at}
use birb_nest.Database.Rows.{row_at-delete_where}
use birb_nest.Database.Repository.{
  not_found, Db, removed, deleted, delete_with_instance, live, got, get_with_instance, lasting,
  exists_with_instance,
}

lasts-over :
    (now updated : ℕ) (ttl : Option ℤ) → lasts now updated ttl ≡ true → over now updated ttl ≡ false
unfolding lasts over
lasts-over now updated none h = refl
lasts-over now updated (some (pos zero)) h = refl
lasts-over now updated (some (pos (suc n))) h = ground arith
lasts-over now updated (some (negsuc n)) h = refl

module _ {J : Type 0} (json : Json J) where
  live-lasts :
      (now : ℕ) (fault : Option Text) (key id : Text) (r : Row J) (db : Db J)
      → lasts now r.updated_at r.ttl ≡ true
      → live json now fault key id (scan json r) db ≡ (inr (scan json r), db)
  unfolding live is_expired scan
  live-lasts now fault key id r db h = rw (lasts-over now r.updated_at r.ttl h) refl

  got-lasting :
      (now : ℕ) (fault : Option Text) (key id : Text) (o : Option (Row J)) (db : Db J)
      → lasting json now o ≡ true
      → (r : Row J) × (o ≡ some r) × (got json now fault key id o db ≡ (inr (scan json r), db))
  unfolding got lasting
  got-lasting now fault key id none db h = ground arith
  got-lasting now fault key id (some r) db h = (r, refl, live-lasts now fault key id r db h)

  -- When Exists says that a key is there, Get at that time returns the row that the table has for
  -- it, and changes nothing.
  pub exists-get :
      (now : ℕ) (fault : Option Text) (key id : Text) (db : Db J)
      → exists_with_instance json now none key id db ≡ inr true
      → (r : Row J) × (row_at key id db.rows ≡ some r)
        × (get_with_instance json now none fault key id db ≡ (inr (scan json r), db))
  unfolding exists_with_instance get_with_instance
  exists-get now fault key id db h =
      got-lasting now fault key id (row_at key id db.rows) db (grind arith)

  removed-found :
      (key id : Text) (r : Row J) (db : Db J)
      → row_at key id db.rows ≡ some r
      → row_at key id (deleted json key id none db).1.rows ≡ none
  unfolding deleted removed
  removed-found key id r db e =
      rw (e, row_at-delete_where key id key id db.rows, text_eq_refl key, text_eq_refl id) refl

  live-gone :
      (now : ℕ) (key id : Text) (r : Row J) (db : Db J)
      → row_at key id db.rows ≡ some r
      → (live json now none key id (scan json r) db).0 ≡ inl not_found
      → row_at key id (live json now none key id (scan json r) db).1.rows ≡ none
  unfolding live delete_with_instance
  live-gone now key id r db e h = elim (Bool-cases (is_expired now (scan json r))) [
    | inl f ↦ rw f (removed-found key id r db e)
    | inr f ↦ grind arith
  ]

  got-not_found :
      (now : ℕ) (key id : Text) (o : Option (Row J)) (db : Db J)
      → row_at key id db.rows ≡ o
      → (got json now none key id o db).0 ≡ inl not_found
      → row_at key id (got json now none key id o db).1.rows ≡ none
  unfolding got
  got-not_found now key id none db e h = e
  got-not_found now key id (some r) db e h = live-gone now key id r db e h

  -- A key that Get does not find, neither of its statements failing, has no row in the table after
  -- that, nor does Exists find it.
  pub get-not_found :
      (now later : ℕ) (key id : Text) (db : Db J)
      → (get_with_instance json now none none key id db).0 ≡ inl not_found
      → let after = (get_with_instance json now none none key id db).1 in
        (row_at key id after.rows ≡ none)
        × (exists_with_instance json later none key id after ≡ inr false)
  unfolding get_with_instance exists_with_instance lasting
  get-not_found now later key id db h =
      let gone = got-not_found now key id _ db refl h in (gone, rw gone refl)
