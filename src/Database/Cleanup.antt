-- ===== src/Database/Cleanup.antt =====
-- What CleanupExpired, of internal/database/cache_repository.go, leaves.
use birb_nest.Prelude.{
  ℕ, zero, suc, ◌≡◌, refl, ◌∙◌, ap, true, false, ◌≤◌, length, ◌&&◌, inl, inr, Option, none, some,
  List, [], ◌∷◌, Text, text_eq, text_eq_sound, if◌then◌else◌, arith, Bool-cases, All,
}
use birb_nest.Cache.{elem}
use birb_nest.Database.{Row, ended, is_at, row_at, select, delete_where}
use birb_nest.Database.Repository.{Db}
use birb_nest.Database.Queries.{take, keys_of, ended_keys, erased, cleanup_expired}

elem-take :
    (n : ℕ) (key : Text) (ks : List Text) → elem key ks ≡ false → elem key (take n ks) ≡ false
unfolding elem
elem-take zero key ks h = refl
elem-take (suc n) key [] h = refl
elem-take (suc n) key (k ∷ ks) h = elim (Bool-cases (text_eq k key)) [
  | inl e ↦ ground arith
  | inr e ↦ rw e (elem-take n key ks (ground arith))
]

take-all : {A : Type 0} (n : ℕ) (xs : List A) → length xs ≤ n → take n xs ≡ xs
take-all zero [] l = refl
take-all zero (x ∷ xs) l = absurd (omega arith)
take-all (suc n) [] l = refl
take-all (suc n) (x ∷ xs) l = ap (λ ys. x ∷ ys) (take-all n xs (omega arith))

module _ {J : Type 0} where
  -- Rows deleted by their key alone.
  row_at-delete_keys :
      (ks : List Text) (key id : Text) (rs : List (Row J))
      → row_at key id (delete_where (λ r. elem r.key ks) rs)
        ≡ (if elem key ks then none else row_at key id rs)
  unfolding row_at delete_where is_at
  row_at-delete_keys ks key id [] = ground arith
  row_at-delete_keys ks key id (r ∷ rs) = elim (Bool-cases (text_eq r.key key)) [
    | inl e ↦
        let f : elem r.key ks ≡ elem key ks = ap (λ k. elem k ks) (text_eq_sound r.key key e) in
        ground (arith, row_at-delete_keys ks key id rs)
    | inr e ↦ ground (arith, row_at-delete_keys ks key id rs)
  ]

  -- None of the rows with the key is past its TTL.
  abbrev pub Unended : ℕ → Text → List (Row J) → Type 0
  Unended now key = All (λ r. (text_eq r.key key && ended now r.updated_at r.ttl) ≡ false)

  elem-ended :
      (now : ℕ) (key : Text) (rs : List (Row J))
      → Unended now key rs
      → elem key (keys_of (select (λ r. ended now r.updated_at r.ttl) rs)) ≡ false
  unfolding select keys_of elem
  elem-ended now key [] h = refl
  elem-ended now key (r ∷ rs) h = elim (Bool-cases (ended now r.updated_at r.ttl)) [
    | inl e ↦ rw e ground (arith, h.0, elem-ended now key rs h.1)
    | inr e ↦ rw e (elem-ended now key rs h.1)
  ]

  cleanup-row_at :
      (now : ℕ) (size : ℕ) (key id : Text) (db : Db J)
      → (row_at key id (cleanup_expired now none size db).1.rows)
        ≡ (if elem key (ended_keys now size db.rows) then none else row_at key id db.rows)
  unfolding cleanup_expired erased
  cleanup-row_at now size key id db =
      row_at-delete_keys (ended_keys now size db.rows) key id db.rows

  -- CleanupExpired keeps each row whose key no row of the table has past its TTL, whatever the
  -- instances and the batch size are.
  pub cleanup_expired-keeps :
      (now : ℕ) (fault : Option Text) (size : ℕ) (key id : Text) (db : Db J)
      → Unended now key db.rows
      → row_at key id (cleanup_expired now fault size db).1.rows ≡ row_at key id db.rows
  unfolding cleanup_expired erased ended_keys
  cleanup_expired-keeps now (some e) size key id db h = refl
  cleanup_expired-keeps now none size key id db h =
      cleanup-row_at now size key id db
      ∙ rw (elem-take size key _ (elem-ended now key db.rows h)) refl

  elem-row_at :
      (now : ℕ) (key id : Text) (rs : List (Row J)) (r : Row J)
      → row_at key id rs ≡ some r
      → ended now r.updated_at r.ttl ≡ true
      → elem key (keys_of (select (λ r. ended now r.updated_at r.ttl) rs)) ≡ true
  unfolding row_at select keys_of elem is_at
  elem-row_at now key id [] r h e = ground arith
  elem-row_at now key id (q ∷ rs) r h e = elim (Bool-cases (is_at key id q)) [
    | inl f ↦ let same : q ≡ r = ground arith in rw same (rw e (ground arith))
    | inr f ↦
        let ih = elem-row_at now key id rs r (ground arith) e in
        elim (Bool-cases (ended now q.updated_at q.ttl)) [
          | inl g ↦ rw g (ground arith)
          | inr g ↦ rw g ih
        ]
  ]

  ended-length :
      (now : ℕ) (rs : List (Row J))
      → length (keys_of (select (λ r. ended now r.updated_at r.ttl) rs)) ≤ length rs
  unfolding select keys_of
  ended-length now [] = omega arith
  ended-length now (r ∷ rs) =
      let ih = ended-length now rs in
      elim (Bool-cases (ended now r.updated_at r.ttl)) [
        | inl e ↦ rw e (omega arith)
        | inr e ↦ rw e (omega arith)
      ]

  -- A CleanupExpired that succeeds, with a batch as large as the table: where one row is past its
  -- TTL, the rows of all instances with its key are deleted, those within their TTL too; a key that
  -- no row has past its TTL keeps all its rows.
  pub cleanup_expired-shared :
      (now size : ℕ) (key id : Text) (r : Row J) (db : Db J)
      → row_at key id db.rows ≡ some r
      → ended now r.updated_at r.ttl ≡ true
      → length db.rows ≤ size
      → let after = (cleanup_expired now none size db).1 in
        ((other : Text) → row_at key other after.rows ≡ none)
        × ((key' other : Text)
            → Unended now key' db.rows
            → row_at key' other after.rows ≡ row_at key' other db.rows)
  unfolding ended_keys
  cleanup_expired-shared now size key id r db h e l =
      let enough = ended-length now db.rows in
      let picked : elem key (ended_keys now size db.rows) ≡ true =
        ap (elem key) (take-all size _ (omega arith)) ∙ elem-row_at now key id db.rows r h e in
      (
        λ other. cleanup-row_at now size key other db ∙ rw picked refl,
        λ key' other u. cleanup_expired-keeps now none size key' other db u,
      )
