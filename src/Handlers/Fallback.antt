-- ===== src/Handlers/Fallback.antt =====
-- Where a server looks for an entry, and where it writes one.
use birb_nest.Prelude.{
  ℕ, ◌≡◌, refl, sym, ◌∙◌, ap, Bool, true, false, inl, inr, Option, none, some, [], Text, text_eq,
  arith, Bool-cases, Option-cases,
}
use birb_nest.Instance.{Carried}
use birb_nest.Cache.{Bytes, CacheError, ok, err, Done, IsCache}
use birb_nest.Cache.Contextual.{key_in, context_builder, get_by, set_by}
use birb_nest.Cache.ByContext
use birb_nest.AsyncWriter.{AsyncWriter}
use birb_nest.Handlers.{
  Handlers, Outside, status, sent, instance_of, noted, start, queue_write, stored_by, after_set,
  set, repopulated, from_row, missed, looked_up, get,
}

module _ {S : Type 0} where
  queue_write_world :
      (now : ℕ) (key : Text) (v : Bytes) (id : Text) (h : Handlers S)
      → (queue_write now key v id h).world ≡ h.world
  unfolding queue_write
  queue_write_world now key v id h = elim (Option-cases h.async_writer) [
    | inl e ↦ rw e refl
    | inr (aw, e) ↦ rw e refl
  ]

  after_set_world :
      (held : Text → Text) (b : Bool) (now stamp : ℕ) (header key : Text) (v : Bytes) (id : Text)
      (h : Handlers S)
      → (after_set held b now stamp header key v id h).world ≡ h.world
  unfolding after_set start
  after_set_world held true now stamp header key v id h =
      queue_write_world now (held key) (held v) _ h
  after_set_world held false now stamp header key v id h = refl

  stored_by_world :
      (held : Text → Text) (now stamp : ℕ) (header key : Text) (v : Bytes) (id : Text) (o : Done)
      (h : Handlers S)
      → (stored_by held now stamp header key v id o h).1.world ≡ h.world
  unfolding stored_by
  stored_by_world held now stamp header key v id (err x) h = refl
  stored_by_world held now stamp header key v id (ok u) h =
      after_set_world held h.is_primary now stamp header key v id h

  stored_by_answer :
      (held : Text → Text) (now stamp : ℕ) (header key : Text) (v : Bytes) (id : Text) (o : Done)
      (h : Handlers S)
      → (stored_by held now stamp header key v id o h).0 ≡ status 200
      → o ≡ ok tt
  unfolding stored_by
  stored_by_answer held now stamp header key v id (err x) h e = ground arith
  stored_by_answer held now stamp header key v id (ok tt) h e = refl

module _ {S : Type 0} (out : Outside S) where
  -- The key under which the cache holds an entry of a request's tenant.
  abbrev pub place : Carried → Text → Text
  place ctx key = key_in (context_builder ctx) key

  set_accepted :
      (now : ℕ) (header : Text) (stamp : Option ℕ) (key : Text) (v : Bytes) (ctx : Carried)
      (h : Handlers S)
      → (set out now header stamp key v ctx h).0 ≡ status 200
      → (text_eq key [] ≡ false)
        × ((out.cache.set (place ctx key) v 0 (noted ctx h).world).0 ≡ ok tt)
        × ((set out now header stamp key v ctx h).1.world
            ≡ (out.cache.set (place ctx key) v 0 (noted ctx h).world).1)
  unfolding set ByContext.set set_by
  set_accepted now header stamp key v ctx h e = elim (Bool-cases (text_eq key [])) [
    | inl k ↦ ground arith
    | inr k ↦ (
      k,
      stored_by_answer out.held now _ header key v _ _ _ (rw k at e),
      rw k (stored_by_world out.held now _ header key v _ _ _),
    )
  ]

  get_hit :
      (key : Text) (ctx : Carried) (h : Handlers S) (v : Bytes)
      → text_eq key [] ≡ false
      → (out.cache.get (place ctx key) (noted ctx h).world).0 ≡ ok v
      → (get out key ctx h).0 ≡ sent v
  unfolding get looked_up ByContext.get get_by
  get_hit key ctx h v k g = rw (k, g) refl

  missed_row :
      (b : Bool) (o : Option AsyncWriter) (key id : Text) (ctx : Carried) (h : Handlers S)
      (aw : AsyncWriter) (v : Bytes)
      → b ≡ true
      → o ≡ some aw
      → (out.get_with_instance key id h.world).0 ≡ inr v
      → missed out b o key id ctx h
        ≡ repopulated out key v ctx (record h { world = (out.get_with_instance key id h.world).1 })
  unfolding missed from_row
  missed_row b o key id ctx h aw v p a r = rw (p, a, r) refl

  get_missed :
      (key : Text) (ctx : Carried) (h : Handlers S) (x : CacheError)
      → text_eq key [] ≡ false
      → (out.cache.get (place ctx key) h.world).0 ≡ err x
      → get out key ctx h
        ≡ missed out h.is_primary h.async_writer key
            (instance_of h.default_instance ctx)
            ctx
            (record (noted ctx h) { world = (out.cache.get (place ctx key) h.world).1 })
  unfolding get looked_up ByContext.get get_by noted start
  get_missed key none h x k m = rw (k, m) refl
  get_missed key (some c) h x k m = rw (k, m) refl

module _ {S : Type 0} (out : Outside S) {stored : S → Text → Option Bytes}
    (law : IsCache out.cache stored) where
  noted_world : (ctx : Carried) (h : Handlers S) → (noted ctx h).world ≡ h.world
  unfolding noted start
  noted_world none h = refl
  noted_world (some c) h = refl

  -- On a primary and on a replica: after a Set that answered 200, a Get of the same key and tenant,
  -- with no call between them, sends the value that was set, if the cache does what it says and
  -- answers the Get's read with some value.
  pub get-set :
      (now : ℕ) (header : Text) (stamp : Option ℕ) (key : Text) (v w : Bytes) (ctx : Carried)
      (h : Handlers S)
      → (set out now header stamp key v ctx h).0 ≡ status 200
      → (out.cache.get (place out ctx key) (set out now header stamp key v ctx h).1.world).0 ≡ ok w
      → (get out key ctx (set out now header stamp key v ctx h).1).0 ≡ sent v
  get-set now header stamp key v w ctx h e g =
      let h' = (set out now header stamp key v ctx h).1 in
      let (k, s, q) = set_accepted out now header stamp key v ctx h e in
      let same : some w ≡ some v =
        sym (law.get_found (place out ctx key) h'.world w g)
        ∙ ap (λ u. stored u (place out ctx key)) q
        ∙ law.set_done (place out ctx key) v 0 _ s in
      get_hit out key ctx h' v k (rw (noted_world ctx h') (ground arith))

  -- On a primary with a database, where the cache fails to find the key, the database has a row of it
  -- for the tenant, and the cache then takes the value and does what it says: Get sends the value of
  -- the row, and the cache holds it afterwards under the tenant's key.
  pub get_reads_through :
      (key : Text) (ctx : Carried) (h : Handlers S) (aw : AsyncWriter) (x : CacheError) (v : Bytes)
      → text_eq key [] ≡ false
      → h.is_primary ≡ true
      → h.async_writer ≡ some aw
      → (out.cache.get (place out ctx key) h.world).0 ≡ err x
      → (out.get_with_instance key
          (instance_of h.default_instance ctx)
          (out.cache.get (place out ctx key) h.world).1).0
        ≡ inr v
      → (out.cache.set
          (place out ctx key)
          v
          0
          (out.get_with_instance key
            (instance_of h.default_instance ctx)
            (out.cache.get (place out ctx key) h.world).1).1).0
        ≡ ok tt
      → ((get out key ctx h).0 ≡ sent v)
        × (stored (get out key ctx h).1.world (place out ctx key) ≡ some v)
  unfolding repopulated ByContext.set set_by
  get_reads_through key ctx h aw x v k p a m r s =
      let read = get_missed out key ctx h x k m in
      let row =
        missed_row out h.is_primary h.async_writer key (instance_of h.default_instance ctx) ctx
          (record (noted ctx h) { world = (out.cache.get (place out ctx key) h.world).1 }) aw v p a
          r in
      let q = read ∙ row in
      (
        ap (λ o. o.0) q,
        ap (λ o. stored o.1.world (place out ctx key)) q ∙ law.set_done (place out ctx key) v 0 _ s,
      )
