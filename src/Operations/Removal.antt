-- ===== src/Operations/Removal.antt =====
-- What DeleteInstance leaves.
use birb_nest.Prelude.{
  ℕ, ◌≡◌, ◌≢◌, refl, sym, ◌∙◌, ap, inl, inr, Option, none, some, Text, text_eq, if◌then◌else◌,
  arith,
}
use birb_nest.Cache.{Bytes, Cache}
use birb_nest.Instance.{Context, InstanceError}
use birb_nest.Registry.{Registry, Store, Codec, Got, Saved}
use birb_nest.Registry
use birb_nest.Registry.Laws.{IsStore, get-delete}
use birb_nest.Database.{Json, row_at}
use birb_nest.Database.Repository.{Db}
use birb_nest.Database.Table.{cleared}
use birb_nest.Operations.{OpError, World}
use birb_nest.Operations.Load.{
  Formats, outcome, unregistered, erased, deleting, found, delete_instance,
}

module _ {S C J : Type 0} (codec : Codec) (store : Store S) (cache : Cache C) (json : Json J)
    (formats : Formats) where
  outcome-none :
      (wrap : InstanceError → OpError) (e : Option InstanceError)
      → outcome codec store cache json formats wrap e ≡ none
      → e ≡ none
  unfolding outcome
  outcome-none wrap none h = refl
  outcome-none wrap (some e) h = ground arith

  -- What a deletion of the instance does when it goes well.
  Removed : Text → Db J → C → Option OpError × World S C J → Type 0
  Removed id db c o =
      o.0 ≡ none
      → ((key other : Text)
          → row_at key other o.1.db.rows
            ≡ (if text_eq id other then none else row_at key other db.rows))
        × (o.1.cache ≡ c)
        × ((r : Registry S) × ((Registry.delete codec store id r).0 ≡ none)
            × (o.1.registry ≡ (Registry.delete codec store id r).1))

  erased-Removed :
      (fault : Option Text) (id : Text) (db : Db J) (c : C) (r : Registry S)
      → Removed id db c (erased codec store cache json formats fault id db c r)
  unfolding Removed erased unregistered outcome
  erased-Removed (some e) id db c r h = ground arith
  erased-Removed none id db c r h =
      (λ key other. cleared json id db.rows key other, refl, (r, outcome-none _ _ h, refl))

  deleting-Removed :
      (fault : Option Text) (id : Text) (db : Db J) (c : C) (o : Saved S)
      → Removed id db c (deleting codec store cache json formats fault id db c o)
  unfolding Removed deleting
  deleting-Removed fault id db c (some e, inst, r) h = ground arith
  deleting-Removed fault id db c (none, inst, r) h = erased-Removed fault id db c r h

  found-Removed :
      (now : ℕ) (fault : Option Text) (id : Text) (db : Db J) (c : C) (o : Got S)
      → Removed id db c (found codec store cache json formats now fault id db c o)
  unfolding Removed found
  found-Removed now fault id db c (inl e, r) h = ground arith
  found-Removed now fault id db c (inr inst, r) h = deleting-Removed fault id db c _ h

  -- After a DeleteInstance that returns no error, no key has a row of the instance and the rows of
  -- other instances are as before; a Get of the registry, with no call between them, returns no
  -- context of the instance; and the cache is as before, with the entries of the instance. The store
  -- of the registry must do what it says.
  pub delete_instance_done :
      {stored : S → Text → Option Bytes} (law : IsStore store stored) (now later : ℕ)
      (fault : Option Text) (id : Text) (w : World S C J) (inst : Context)
      → (delete_instance codec store cache json formats now fault id w).0 ≡ none
      → let after = (delete_instance codec store cache json formats now fault id w).1 in
        ((key other : Text)
          → row_at key other after.db.rows
            ≡ (if text_eq id other then none else row_at key other w.db.rows))
        × (after.cache ≡ w.cache)
        × ((Registry.get codec store later id after.registry).0 ≢ inr inst)
  unfolding delete_instance Removed
  delete_instance_done law now later fault id w inst h =
      let (rows, cached, (r, ok, after)) = found-Removed now fault id w.db w.cache _ h in
      (
        rows,
        cached,
        λ q.
            get-delete codec store law later id inst r ok
              (sym (ap (λ x. (Registry.get codec store later id x).0) after) ∙ q),
      )
