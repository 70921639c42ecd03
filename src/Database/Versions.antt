-- ===== src/Database/Versions.antt =====
-- SetWithVersion, of internal/database/cache_repository.go, called twice with one expected version.
use birb_nest.Prelude.{
  ℕ, ◌+◌, ◌≡◌, refl, ◌∙◌, Bool, true, false, inl, inr, Option, none, some, List, [], ◌∷◌, Text,
  if◌then◌else◌, arith, Bool-cases,
}
use birb_nest.Prelude.Int.{ℤ}
use birb_nest.Cache.{Bytes}
use birb_nest.Database.{Json, Row, is_at, row_at, select, update_where}
use birb_nest.Database.Rows.{KeepsKey, row_at-update_where, row_at-is_at, select-row_at}
use birb_nest.Database.Repository.{
  RepoError, version_mismatch, Db, accepted, or_empty, versioned, has_version, replaced,
  version_set, set_with_version,
}

module _ {J : Type 0} where
  none-left :
      (test : Row J → Bool) (change : Row J → Row J) (rs : List (Row J))
      → ((r : Row J) → test r ≡ true → test (change r) ≡ false)
      → select test (update_where test change rs) ≡ []
  unfolding select update_where
  none-left test change [] k = refl
  none-left test change (r ∷ rs) k = elim (Bool-cases (test r)) [
    | inl e ↦ rw (e, k r e) (none-left test change rs k)
    | inr e ↦ rw (e, e) (none-left test change rs k)
  ]

module _ {J : Type 0} (json : Json J) (key : Text) (expected : ℕ) where
  versioned-other :
      (now : ℕ) (v m : J) (ttl : Option ℤ) (r : Row J)
      → has_version json key expected r ≡ true
      → has_version json key expected (versioned json true now v ttl m r) ≡ false
  unfolding has_version versioned
  versioned-other now v m ttl r e = ground arith

  versioned-KeepsKey :
      (triggered : Bool) (now : ℕ) (v m : J) (ttl : Option ℤ)
      → KeepsKey (versioned json triggered now v ttl m)
  unfolding versioned
  versioned-KeepsKey true now v m ttl r = (refl, refl)
  versioned-KeepsKey false now v m ttl r = (refl, refl)

  abbrev stored_by : Bool → ℕ → J → Option ℤ → J → Db J → Db J
  stored_by triggered now v ttl m db = record db {
    rows =
        update_where (has_version json key expected) (versioned json triggered now v ttl m) db.rows;
  }

  -- What an UPDATE does that finds a row, and one that finds none.
  set-found :
      (triggered : Bool) (now : ℕ) (ttl : Option ℤ) (value : Bytes) (metadata : Option Bytes)
      (v m : J) (db : Db J) (s : Row J) (ss : List (Row J))
      → json.read value ≡ some v
      → json.read (or_empty json metadata) ≡ some m
      → select (has_version json key expected) db.rows ≡ s ∷ ss
      → set_with_version json triggered now none key value ttl metadata expected db
        ≡ (none, stored_by triggered now v ttl m db)
  unfolding set_with_version accepted version_set replaced
  set-found triggered now ttl value metadata v m db s ss p q e = rw (p, q, e) refl

  set-missed :
      (triggered : Bool) (now : ℕ) (ttl : Option ℤ) (value : Bytes) (metadata : Option Bytes)
      (v m : J) (db : Db J)
      → json.read value ≡ some v
      → json.read (or_empty json metadata) ≡ some m
      → select (has_version json key expected) db.rows ≡ []
      → set_with_version json triggered now none key value ttl metadata expected db
        ≡ (some version_mismatch, db)
  unfolding set_with_version accepted version_set replaced
  set-missed triggered now ttl value metadata v m db p q e = rw (p, q, e) refl

  has_version-row_at :
      (id : Text) (rs : List (Row J)) (r : Row J)
      → row_at key id rs ≡ some r
      → r.version ≡ expected
      → has_version json key expected r ≡ true
  unfolding has_version is_at
  has_version-row_at id rs r h e = ground (arith, row_at-is_at key id rs r h)

  stored_by-row_at :
      (triggered : Bool) (now : ℕ) (v m : J) (ttl : Option ℤ) (id : Text) (r : Row J) (db : Db J)
      → row_at key id db.rows ≡ some r
      → r.version ≡ expected
      → row_at key id (stored_by triggered now v ttl m db).rows
        ≡ some (versioned json triggered now v ttl m r)
  stored_by-row_at triggered now v m ttl id r db h e =
      row_at-update_where key id _ _ db.rows r (versioned-KeepsKey triggered now v m ttl) h
      ∙ rw (has_version-row_at id db.rows r h e) refl

  -- What two writes with one expected version leave of a row: the second is refused, or stored over
  -- the first.
  abbrev pub Outcome :
      Bool → Text → ℕ → J → J → Option RepoError × Db J → Option RepoError × Db J → Type 0
  Outcome triggered id version v v' first second =
      (first.0 ≡ none)
      × (second.0 ≡ (if triggered then some version_mismatch else none))
      × (r : Row J) × (row_at key id second.1.rows ≡ some r)
      × (r.value ≡ (if triggered then v else v'))
      × (r.version ≡ (if triggered then version + 1 else version))

  -- Two SetWithVersion with the same expected version, which a row with their key has, whose values
  -- and metadata are JSON and which reach the database: the first succeeds. With the triggers the
  -- second is refused for its version, and the row keeps the first value, with its version counted
  -- up; without them the second succeeds as well, and the row has the second value and the version
  -- that both expected.
  pub set_with_version_twice :
      (triggered : Bool) (now now' : ℕ) (value value' : Bytes) (ttl ttl' : Option ℤ)
      (metadata metadata' : Option Bytes) (v m v' m' : J) (id : Text) (r : Row J) (db : Db J)
      → json.read value ≡ some v
      → json.read (or_empty json metadata) ≡ some m
      → json.read value' ≡ some v'
      → json.read (or_empty json metadata') ≡ some m'
      → row_at key id db.rows ≡ some r
      → r.version ≡ expected
      → let first = set_with_version json triggered now none key value ttl metadata expected db in
        Outcome triggered id expected v v' first
          (set_with_version json triggered now' none key value' ttl' metadata' expected first.1)
  unfolding versioned
  set_with_version_twice true now now' value value' ttl ttl' metadata metadata' v m v' m' id r db p
        q p' q' h e =
      let (s, ss, f) =
        select-row_at key id (has_version json key expected) db.rows r h
          (has_version-row_at id db.rows r h e) in
      let first = set-found true now ttl value metadata v m db s ss p q f in
      let after = stored_by true now v ttl m db in
      let gone =
        none-left (has_version json key expected) (versioned json true now v ttl m) db.rows
          (versioned-other now v m ttl) in
      rw (first, set-missed true now' ttl' value' metadata' v' m' after p' q' gone)
        (refl, refl, _, stored_by-row_at true now v m ttl id r db h e, refl, omega arith)
  set_with_version_twice false now now' value value' ttl ttl' metadata metadata' v m v' m' id r db p
        q p' q' h e =
      let (s, ss, f) =
        select-row_at key id (has_version json key expected) db.rows r h
          (has_version-row_at id db.rows r h e) in
      let first = set-found false now ttl value metadata v m db s ss p q f in
      let after = stored_by false now v ttl m db in
      let row = versioned json false now v ttl m r in
      let there = stored_by-row_at false now v m ttl id r db h e in
      let (s', ss', f') =
        select-row_at key id (has_version json key expected) after.rows row there
          (has_version-row_at id after.rows row there e) in
      rw (first, set-found false now' ttl' value' metadata' v' m' after s' ss' p' q' f')
        (refl, refl, _, stored_by-row_at false now' v' m' ttl' id row after there e, refl, e)
