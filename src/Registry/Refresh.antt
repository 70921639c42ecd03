-- ===== src/Registry/Refresh.antt =====
-- The background refresh of an instance's TTL, which reads and then writes.
use birb_nest.Prelude.{
  ℕ, ◌≡◌, refl, sym, ◌∙◌, ap, inl, inr, ◌⊎◌, Option, none, some, Text, text_eq_refl, arith,
}
use birb_nest.Prelude.Maps.{lookup, remove, lookup-remove}
use birb_nest.Cache.{Bytes}
use birb_nest.Instance.{Context}
use birb_nest.Registry.{
  Registry, Store, Codec, build_key, default_ttl, get_from_mem_cache, get, delete, refresh_read,
  refresh_write, found,
}
use birb_nest.Registry.Laws.{IsStore, fetch_stored, delete_done, forgotten}

module _ {S : Type 0} (codec : Codec) (store : Store S) {stored : S → Text → Option Bytes}
    (law : IsStore store stored) where
  found_some : (o : Text ⊎ Bytes) (b : Bytes) → found codec store o ≡ some b → o ≡ inr b
  unfolding found
  found_some (inl e) b h = ground arith
  found_some (inr v) b h = ground arith

  -- A refresh that reads an instance's bytes before a Delete and writes them after it undoes the
  -- Delete: where the Delete and the write succeed, the store holds after the write what it held
  -- under the instance's key before the refresh, and nothing in between; and a Get that the store
  -- answers with bytes returns the context that they stand for. The store must do what it says.
  pub refresh_resurrects :
      (now : ℕ) (id : Text) (b : Bytes) (c : Context) (r : Registry S)
      → let read = refresh_read codec store id r.world in
        let gone = delete codec store id (record r { world = read.1 }) in
        let back : Registry S = record (gone.1) {
          world = refresh_write codec store id read.0 gone.1.world;
        } in
        codec.unmarshal b ≡ inr c
        → read.0 ≡ some b
        → gone.0 ≡ none
        → (store.set (build_key id) b default_ttl gone.1.world).0 ≡ none
        → (stored r.world (build_key id) ≡ some b)
          × (stored gone.1.world (build_key id) ≡ none)
          × (stored back.world (build_key id) ≡ some b)
          × ((v : Bytes)
              → (store.get (build_key id) back.world).0 ≡ inr v
              → (get codec store now id back).0 ≡ inr c)
  unfolding refresh_write refresh_read get_from_mem_cache
  refresh_resurrects now id b c r u k d w =
      let before : Registry S = record r { world = (refresh_read codec store id r.world).1 } in
      let (e, s, q) = delete_done codec store id before d in
      let gone : lookup id (remove id r.mem_cache) ≡ none =
        lookup-remove id id r.mem_cache ∙ rw (text_eq_refl id) refl in
      let written : (refresh_write codec store id (refresh_read codec store id r.world).0
            (delete codec store id before).1.world)
          ≡ (store.set (build_key id) b default_ttl (delete codec store id before).1.world).1 =
        rw k refl in
      let held : stored
            (refresh_write codec store id (refresh_read codec store id r.world).0
              (delete codec store id before).1.world)
            (build_key id)
          ≡ some b =
        ap (λ x. stored x (build_key id)) written ∙ law.set_done (build_key id) b _ _ w in
      (
        law.get_found (build_key id) r.world b
            (found_some (store.get (build_key id) r.world).0 b k),
        ap (λ o. stored o.world (build_key id)) q ∙ law.delete_done (build_key id) before.world s,
        held,
        λ v g.
            let same : some v ≡ some b = sym (law.get_found (build_key id) _ v g) ∙ held in
            fetch_stored codec store now id c v _ e
              (forgotten codec store now id (delete codec store id before).1
                (ap (λ o. lookup id o.mem_cache) q ∙ gone))
              g (ground arith),
      )
