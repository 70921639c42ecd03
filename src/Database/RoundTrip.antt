-- ===== src/Database/RoundTrip.antt =====
-- internal/database/interface.go: what PostgreSQLClient reads after it has written.
use birb_nest.Prelude.{
  ℕ, ◌≡◌, refl, ◌∙◌, ap, false, inr, Option, none, some, Text, lit, length, text_eq_refl, ltb,
}
use birb_nest.Cache.{Bytes}
use birb_nest.Database.{Row, scan, over, is_expired, row_at}
use birb_nest.Database.Repository.{
  Db, accepted, or_empty, documents, set_row, set_with_instance, live, got, get_with_instance,
}
use birb_nest.Database.Table.{written, write, set_row-write}
use birb_nest.Database.Client.{Client, as_json, get, set, value_of}

module _ {J : Type 0} (c : Client J) where
  got-written :
      (now later : ℕ) (fault : Option Text) (key id : Text) (j e : J) (o : Option (Row J))
      (db : Db J)
      → value_of (got c.json later fault key id (some (written now key id j none e o)) db)
        ≡ (inr (c.json.print j), db)
  unfolding got live is_expired scan value_of over
  got-written now later fault key id j e none db = refl
  got-written now later fault key id j e (some r) db = refl

  set_row-row_at :
      (now : ℕ) (key id : Text) (j e : J) (db : Db J)
      → row_at key id (set_row c.json now key id none (inr (j, e)) db).1.rows
        ≡ some (written now key id j none e (row_at key id db.rows))
  unfolding write
  set_row-row_at now key id j e db =
      set_row-write c.json now key id none (inr (j, e)) db key id
      ∙ rw (text_eq_refl key, text_eq_refl id) refl

  documents-accepted :
      (key : Text) (value : Bytes) (j e : J)
      → ltb 255 (length key) ≡ false
      → c.json.read value ≡ some j
      → c.json.read (lit "{}") ≡ some e
      → documents c.json none key value none ≡ inr (j, e)
  unfolding documents accepted or_empty
  documents-accepted key value j e short p q = rw (short, p, q) refl

  -- A Set of a key of at most 255 characters, whose value, or, where it is no valid JSON, the
  -- JSON string made of it, is a document that PostgreSQL takes, and which reaches the database, succeeds; from then on until the row changes Get
  -- returns that document as the database prints it.
  pub set-get :
      (now later : ℕ) (fault : Option Text) (key id : Text) (value : Bytes) (j e : J) (db : Db J)
      → ltb 255 (length key) ≡ false
      → c.json.read (as_json c value) ≡ some j
      → c.json.read (lit "{}") ≡ some e
      → let after = set c now none key id value db in
        (after.0 ≡ none) × (get c later none fault key id after.1 ≡ (inr (c.json.print j), after.1))
  unfolding set get set_with_instance get_with_instance
  set-get now later fault key id value j e db short p q =
      rw (documents-accepted key (as_json c value) j e short p q) (
        refl,
        ap
              (λ o. value_of (
                got c.json later fault key id o (set_row c.json now key id none (inr (j, e)) db).1))
              (set_row-row_at now key id j e db)
            ∙ got-written now later fault key id j e (row_at key id db.rows) _,
      )
