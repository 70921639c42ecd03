-- ===== src/Handlers/Batches.antt =====
-- What BatchGet returns.
use birb_nest.Prelude.{
  ◌≡◌, refl, ◌∙◌, ap, Bool, true, false, Option, none, some, inl, inr, List, [], ◌∷◌, Text,
  text_eq_iff, if◌then◌else◌, arith, Option-cases, Bool-cases,
}
use birb_nest.Prelude.Maps.{Dict, lookup, insert, lookup-insert}
use birb_nest.Instance.{Carried}
use birb_nest.Cache.{Bytes, ok, IsCache, elem}
use birb_nest.Cache.Contextual.{key_in, context_builder}
use birb_nest.Cache.ByContext
use birb_nest.Cache.Batches.{get_multiple_exact}
use birb_nest.Handlers.{
  Handlers, Outside, batch, instance_of, noted, start, split_found, still_missing, entries_of,
  from_others, batch_get, sent_batch, marshals, status,
}

abbrev pub is_none : {A : Type 0} → Option A → Bool
is_none none = true
is_none (some a) = false

elem-still_missing :
    (ks : List Text) (r : Dict Bytes) (j : Text)
    → elem j (still_missing ks r) ≡ (if elem j ks then is_none (lookup j r) else false)
unfolding still_missing elem
elem-still_missing [] r j = refl
elem-still_missing (k ∷ ks) r j = ground (arith, text_eq_iff k j, elem-still_missing ks r j)

lookup-split_found :
    (ks : List Text) (cached results : Dict Bytes) (j : Text)
    → lookup j (split_found ks cached results).0 ≡ (
        if elem j ks
        then (elim (lookup j cached) [ some v ↦ some v | none ↦ lookup j results ])
        else lookup j results)
unfolding split_found elem
lookup-split_found [] cached results j = refl
lookup-split_found (k ∷ ks) cached results j = elim (Option-cases (lookup k cached)) [
  | inl e ↦ ground (arith, text_eq_iff k j, lookup-split_found ks cached results j)
  | inr (v, e) ↦ ground (
    arith,
    text_eq_iff k j,
    lookup-split_found ks cached (insert k v results) j,
    lookup-insert k j v results,
  )
]

batch_parts :
    (ks : List Text) (a r : Dict Bytes) (m : List Text)
    → batch a (still_missing ks a) ≡ batch r m
    → (a ≡ r) × (m ≡ still_missing ks r)
batch_parts ks a r m e = (cc, cc)

module _ {S : Type 0} (out : Outside S) where
  from_others_primary :
      (b : Bool) (id : Text) (ctx : Carried) (o : Dict Bytes × List Text) (w : S)
      → b ≡ true
      → (from_others out b id ctx o w).0 ≡ o.0
  unfolding from_others
  from_others_primary b id ctx (r, m) w p = rw p refl

  noted_primary : (ctx : Carried) (h : Handlers S) → (noted ctx h).world ≡ h.world
  unfolding noted start
  noted_primary none h = refl
  noted_primary (some c) h = refl

  sent_batch_parts :
      (ks : List Text) (a r : Dict Bytes) (m : List Text)
      → sent_batch out ks a ≡ batch r m
      → (a ≡ r) × (m ≡ still_missing ks r)
  unfolding sent_batch
  sent_batch_parts ks a r m e = elim (Bool-cases (marshals out.is_json a)) [
    | inl v ↦ batch_parts ks a r m (ground arith)
    | inr v ↦ absurd (ground arith)
  ]

  -- BatchGet of at least one key, on a primary and on a replica, whatever the cache and the primary
  -- answer: a key is reported missing exactly if it was asked for and has no entry in the answer.
  pub batch_get_missing :
      (ks : List Text) (ctx : Carried) (h : Handlers S) (results : Dict Bytes) (missing : List Text)
      (j : Text)
      → (batch_get out ks ctx h).0 ≡ batch results missing
      → elem j missing ≡ (if elem j ks then is_none (lookup j results) else false)
  unfolding batch_get
  batch_get_missing [] ctx h results missing j e = ground arith
  batch_get_missing (k ∷ ks) ctx h results missing j e =
      ap (elem j) (sent_batch_parts (k ∷ ks) _ results missing e).1
      ∙ elem-still_missing (k ∷ ks) results j

filled :
    (b : Bool) (x y z : Option Bytes)
    → x ≡ (if b then y else none)
    → z ≡ (if b then (elim x [ some v ↦ some v | none ↦ none ]) else none)
    → z ≡ (if b then y else none)
filled b x y z e f = ground arith

module _ {S : Type 0} (out : Outside S) {stored : S → Text → Option Bytes}
    (law : IsCache out.cache stored) where
  -- BatchGet on a primary, where the cache answers and does what it says: there are entries that
  -- are exactly the tenant's entries that the cache holds of the keys that were asked for; where
  -- each of their values can be a raw JSON message, the answer is these entries with the keys asked
  -- for that have none, and else it is the error 500 without any entry.
  pub batch_get_exact :
      (k : Text) (ks : List Text) (ctx : Carried) (h : Handlers S) (r : Dict Bytes)
      → h.is_primary ≡ true
      → (ByContext.get_multiple out.cache ctx (k ∷ ks) h.world).0 ≡ ok r
      → (results : Dict Bytes) × ((j : Text)
          → lookup j results
            ≡ (if elem j (k ∷ ks) then stored h.world (key_in (context_builder ctx) j) else none))
        × (missing : List Text) × ((j : Text)
            → elem j missing ≡ (if elem j (k ∷ ks) then is_none (lookup j results) else false))
        × ((batch_get out (k ∷ ks) ctx h).0
            ≡ (if marshals out.is_json results then batch results missing else status 500))
  unfolding batch_get sent_batch entries_of lookup
  batch_get_exact k ks ctx h r p g =
      let keys = k ∷ ks in
      let w = noted_primary out ctx h in
      let got : (ByContext.get_multiple out.cache ctx keys (noted ctx h).world).0 ≡ ok r =
        ap (λ u. (ByContext.get_multiple out.cache ctx keys u).0) w ∙ g in
      let (o, u) = ByContext.get_multiple out.cache ctx keys (noted ctx h).world in
      let found : (from_others out h.is_primary (instance_of h.default_instance ctx) ctx
            (split_found keys (entries_of o) []) u).0
          ≡ (split_found keys r []).0 =
        from_others_primary out h.is_primary (instance_of h.default_instance ctx) ctx
          (split_found keys (entries_of o) []) u p
        ∙ ap (λ x. (split_found keys (entries_of x) []).0) got in
      let results = (split_found keys r []).0 in
      (
        results,
        λ j.
            filled (elem j keys) (lookup j r) (stored h.world (key_in (context_builder ctx) j))
              (lookup j results) (get_multiple_exact out.cache law ctx keys h.world r j g)
              (lookup-split_found keys r [] j),
        still_missing keys results,
        λ j. elem-still_missing keys results j,
        ap (sent_batch out keys) found,
      )
