-- ===== src/Registry/Activity.antt =====
-- How often the activity of an instance is written.
use birb_nest.Prelude.{
  ℕ, ◌+◌, ◌≡◌, ◌<◌, refl, ◌∙◌, ap, true, ◌⊎◌, inl, inr, Option, none, some, [], Text, text_eq,
  text_eq_refl, arith, Option-cases, Bool-cases,
}
use birb_nest.Prelude.Maps.{lookup, lookup-insert}
use birb_nest.Cache.{Bytes}
use birb_nest.Instance.{Context, validate, update_last_active}
use birb_nest.Registry.{
  Registry, Store, Codec, Got, activity_update_interval, get_from_mem_cache, should_update_activity,
  is_due, says_missing, register, get, touch, fetch, fetched, decoded, saved, save, accepted,
  touched, update_mem_cache,
}

module _ {S : Type 0} (codec : Codec) (store : Store S) where
  decoded_activity :
      (now : ℕ) (id : Text) (r : Registry S) (o : Text ⊎ Context)
      → (decoded codec store now id r o).1.last_activity ≡ r.last_activity
  unfolding decoded update_mem_cache
  decoded_activity now id r (inl e) = refl
  decoded_activity now id r (inr c) = refl

  fetched_activity :
      (now : ℕ) (id : Text) (r : Registry S) (o : (Text ⊎ Bytes) × S)
      → (fetched codec store now id r o).1.last_activity ≡ r.last_activity
  unfolding fetched
  fetched_activity now id r (inl x, w) = elim (Bool-cases (says_missing x)) [
    | inl e ↦ rw e refl
    | inr e ↦ rw e refl
  ]
  fetched_activity now id r (inr b, w) = decoded_activity now id (record r { world = w }) _

  get_activity :
      (now : ℕ) (id : Text) (r : Registry S)
      → (get codec store now id r).1.last_activity ≡ r.last_activity
  unfolding get fetch
  get_activity now id r = elim (Bool-cases (text_eq id [])) [
    | inl e ↦ rw e refl
    | inr e ↦ elim (Option-cases (get_from_mem_cache now id r)) [
      | inl q ↦ rw (e, q) (fetched_activity now id r _)
      | inr (c, q) ↦ rw (e, q) refl
    ]
  ]

  saved_activity :
      (now : ℕ) (c : Context) (r : Registry S) (o : Option Text × S)
      → (saved codec store now c r o).2.last_activity ≡ r.last_activity
  unfolding saved update_mem_cache
  saved_activity now c r (some e, w) = refl
  saved_activity now c r (none, w) = refl

  save_activity :
      (now : ℕ) (c : Context) (r : Registry S) (o : Text ⊎ Bytes)
      → (save codec store now c r o).2.last_activity ≡ r.last_activity
  unfolding save
  save_activity now c r (inl e) = refl
  save_activity now c r (inr b) = saved_activity now c r _

  register_activity :
      (now : ℕ) (c : Context) (r : Registry S)
      → (register codec store now c r).2.last_activity ≡ r.last_activity
  unfolding register accepted
  register_activity now c r = elim (Option-cases (validate c)) [
    | inl e ↦ rw e (save_activity now (update_last_active now c) r _)
    | inr (x, e) ↦ rw e refl
  ]

  touched_activity :
      (now : ℕ) (o : Got S) → (touched codec store now o).1.last_activity ≡ o.1.last_activity
  unfolding touched
  touched_activity now (inl e, r) = refl
  touched_activity now (inr c, r) = register_activity now (update_last_active now c) r

  noted :
      (now : ℕ) (id : Text) (r : Registry S)
      → (should_update_activity now id r).0 ≡ true
      → lookup id (should_update_activity now id r).1.last_activity ≡ some now
  unfolding should_update_activity
  noted now id r h = elim (Bool-cases (is_due now (lookup id r.last_activity))) [
    | inl e ↦ rw e (lookup-insert id id now r.last_activity ∙ rw (text_eq_refl id) refl)
    | inr e ↦ ground arith
  ]

  throttled :
      (now now' : ℕ) (id : Text) (r : Registry S)
      → lookup id r.last_activity ≡ some now
      → now' < now + activity_update_interval
      → touch codec store now' id r ≡ (none, r)
  unfolding touch should_update_activity is_due
  throttled now now' id r h t = ground arith

  -- Once a call of UpdateLastActive was due, whether it then succeeded or not, a further call for the
  -- instance within one minute, with no other call between them, returns nil and leaves the registry
  -- and the store as they are.
  pub touch_throttled :
      (now now' : ℕ) (id : Text) (r : Registry S)
      → (should_update_activity now id r).0 ≡ true
      → now' < now + activity_update_interval
      → touch codec store now' id (touch codec store now id r).1
        ≡ (none, (touch codec store now id r).1)
  unfolding touch
  touch_throttled now now' id r h t =
      let s = (should_update_activity now id r).1 in
      let a : lookup id (touch codec store now id r).1.last_activity ≡ some now = rw h (
        ap (lookup id) (touched_activity now (get codec store now id s) ∙ get_activity now id s)
        ∙ noted now id r h) in
      throttled now now' id _ a t
