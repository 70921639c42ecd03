-- ===== src/Operations/Whole.antt =====
-- LoadInstance over a table with its primary key.
use birb_nest.Prelude.{
  and_false, ℕ, ◌≡◌, refl, sym, ◌∙◌, ap, true, false, inl, inr, Option, none, some, List, [], ◌∷◌,
  Text, ◌≢◌, subst, text_eq, text_eq_sound, text_eq_refl, not-text_eq, if◌then◌else◌, arith,
  Bool-cases,
}
use birb_nest.Keys.{KeyBuilder, new_key_builder, cache_key}
use birb_nest.Keys.Ownership.{cache_key_cancel}
use birb_nest.Cache.{Bytes, Cache, IsCache}
use birb_nest.Registry.{Store, Codec}
use birb_nest.Database.{Json, Row, is_at, row_at, select}
use birb_nest.Database.Rows.{Absent, IsKeyed}
use birb_nest.Operations.{Source, arrived, World}
use birb_nest.Operations.Load.{Formats, load_instance}
use birb_nest.Operations.Latest.{latest, load_instance-stored}

module _ {J : Type 0} (json : Json J) (kb : KeyBuilder) where
  apart :
      (j key : Text)
      → text_eq j key ≡ false
      → text_eq (cache_key kb (j ∷ [])) (cache_key kb (key ∷ [])) ≡ false
  apart j key h =
      not-text_eq _ _ (λ e. ground (arith, text_eq_refl key, cache_key_cancel kb j key e))

  latest-Absent :
      (key id : Text) (rs : List (Row J)) (o : Option Bytes)
      → Absent key id rs
      → latest json kb (cache_key kb (key ∷ [])) (select (λ r. text_eq r.instance_id id) rs) o ≡ o
  unfolding select is_at
  latest-Absent key id [] o a = refl
  latest-Absent key id (r ∷ rs) o a = elim (Bool-cases (text_eq r.instance_id id)) [
    | inl e ↦
        let n : text_eq r.key key ≡ false = ground (arith, a.0) in
        rw e (
          ap
            (λ b.
              latest json kb (cache_key kb (key ∷ [])) (select (λ s. text_eq s.instance_id id) rs)
                (if b then some (json.print r.value) else o))
            (apart r.key key n)
          ∙ latest-Absent key id rs o a.1)
    | inr e ↦ rw e (latest-Absent key id rs o a.1)
  ]

  same :
      (j key : Text)
      → text_eq j key ≡ true
      → text_eq (cache_key kb (j ∷ [])) (cache_key kb (key ∷ [])) ≡ true
  same j key h =
      ap (λ x. text_eq (cache_key kb (x ∷ [])) (cache_key kb (key ∷ []))) (text_eq_sound j key h)
      ∙ text_eq_refl (cache_key kb (key ∷ []))

  printed_value : Option (Row J) → Option Bytes
  printed_value none = none
  printed_value (some r) = some (json.print r.value)

  latest-row_at :
      (key id : Text) (rs : List (Row J)) (o : Option Bytes)
      → IsKeyed rs
      → row_at key id rs ≢ none
      → latest json kb (cache_key kb (key ∷ [])) (select (λ r. text_eq r.instance_id id) rs) o
        ≡ printed_value (row_at key id rs)
  unfolding select row_at is_at printed_value
  latest-row_at key id [] o v h = absurd (h refl)
  latest-row_at key id (s ∷ rs) o v h = elim (Bool-cases (text_eq s.instance_id id)) [
    | inl e ↦ elim (Bool-cases (text_eq s.key key)) [
      | inl f ↦
          let a : Absent key id rs =
            subst (λ i. Absent key i rs) (text_eq_sound s.instance_id id e)
              (subst (λ j. Absent j s.instance_id rs) (text_eq_sound s.key key f) v.0) in
          rw (e, f)
            (ap
                (λ b.
                  latest json kb (cache_key kb (key ∷ []))
                    (select (λ r. text_eq r.instance_id id) rs)
                    (if b then some (json.print s.value) else o))
                (same s.key key f)
              ∙ latest-Absent key id rs _ a)
      | inr f ↦ rw (e, f) (latest-row_at key id rs _ v.1 (λ n. h (rw f n)))
    ]
    | inr e ↦
        rw (e, and_false (text_eq s.key key))
          (latest-row_at key id rs o v.1 (λ n. h (rw (e, and_false (text_eq s.key key)) n)))
  ]

module _ {S C J : Type 0} (codec : Codec) (store : Store S) (cache : Cache C) (json : Json J)
    (formats : Formats) {stored : C → Text → Option Bytes} (law : IsCache cache stored) where
  -- After a LoadInstance that returns no error and whose query comes to its end, each row of the
  -- instance, whatever its TTL is, is in the cache under its cache key, as the database prints its
  -- value, if the table has its primary key. The cache must do what it says.
  pub load_instance-row_at :
      (now later : ℕ) (src : Source J) (key id : Text) (r : Row J) (w : World S C J)
      → src.arriving ≡ none
      → IsKeyed w.db.rows
      → row_at key id w.db.rows ≡ some r
      → (load_instance codec store cache json formats now later src id w).0 ≡ none
      → stored
          (load_instance codec store cache json formats now later src id w).1.cache
          (cache_key (new_key_builder id) (key ∷ []))
        ≡ some (json.print r.value)
  unfolding arrived printed_value
  load_instance-row_at now later src key id r w all v found h =
      let k = cache_key (new_key_builder id) (key ∷ []) in
      let rs = select (λ s. text_eq s.instance_id id) w.db.rows in
      load_instance-stored codec store cache json formats law now later src id w k h
      ∙ ap (λ a. latest json (new_key_builder id) k (arrived a rs) (stored w.cache k)) all
      ∙ latest-row_at json (new_key_builder id) key id w.db.rows (stored w.cache k) v
          (λ n. ground (arith, sym n ∙ found))
      ∙ ap (printed_value json (new_key_builder id)) found
