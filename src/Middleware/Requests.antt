-- ===== src/Middleware/Requests.antt =====
-- Which requests pass the middleware, and how the others are answered.
use birb_nest.Prelude.{
  ℕ, ◌≡◌, ◌≢◌, refl, ◌∙◌, ap, Bool, true, false, not, ◌&&◌, inl, inr, Option, some, List, [], ◌∷◌,
  Text, lit, text_eq, not-text_eq, if◌then◌else◌, arith, Bool-cases,
}
use birb_nest.Prelude.Strings.{trim_space}
use birb_nest.Cache.{Bytes}
use birb_nest.Instance.{
  Context, can_accept_requests, status_active, status_migrating, status_deleting, status_inactive,
  status_paused, inject_context, Carried,
}
use birb_nest.Registry.{Registry, Store, Codec, Got, Saved, get_or_create, update}
use birb_nest.Registry.Laws.{IsStore, RoundTrips}
use birb_nest.Registry.Named.{StoreNames}
use birb_nest.Registry.Ids.{update-id}
use birb_nest.Registry.Steps.{System, started, Reach}
use birb_nest.Registry.Identity.{get_or_create-id}
use birb_nest.Middleware.{
  Middleware, Request, answer, Handled, answered, passed, unavailable, marked, mark_default,
  saved_by, admit, loaded, chosen, extract_instance_id, handle,
}

module _ {S : Type 0} (codec : Codec) (store : Store S) where
  admit_passed :
      (d e : Bool) (o : Context × Registry S) (ctx : Carried)
      → (admit codec store d o).0 ≡ passed ctx e
      → (ctx ≡ some (o.0)) × (can_accept_requests o.0 ≡ true)
  unfolding admit inject_context
  admit_passed d e (c, r) ctx h = elim (Bool-cases (can_accept_requests c)) [
    | inl a ↦ (ground arith, a)
    | inr a ↦ ground arith
  ]

  saved_by-id : (o : Saved S) → (saved_by o).0 ≡ o.1
  unfolding saved_by
  saved_by-id (e, c, r) = refl

  mark_default-id :
      (now : ℕ) (m : Middleware) (id : Text) (c : Context) (r : Registry S)
      → (mark_default codec store now m id c r).0.instance_id ≡ c.instance_id
  unfolding mark_default marked
  mark_default-id now m id c r =
      elim (Bool-cases (text_eq id m.default_instance_id && not c.is_permanent)) [
        | inl e ↦ rw e (
            ap (λ d. d.instance_id) (saved_by-id (update codec store now (marked c) r))
            ∙ update-id codec store now (marked c) r)
        | inr e ↦ rw e refl
      ]

  loaded_passed :
      (now : ℕ) (m : Middleware) (id : Text) (d e : Bool) (o : Got S) (ctx : Carried)
      → (loaded codec store now m id d o).0 ≡ passed ctx e
      → (c : Context) × (b : Context) × (o.0 ≡ inr b)
        × (ctx ≡ some c)
        × (can_accept_requests c ≡ true)
        × (c.instance_id ≡ b.instance_id)
  unfolding loaded
  loaded_passed now m id d e (inl x, r) ctx h = ground arith
  loaded_passed now m id d e (inr b, r) ctx h =
      let (q, a) = admit_passed d e (mark_default codec store now m id b r) ctx h in
      ((mark_default codec store now m id b r).0, b, refl, q, a, mark_default-id now m id b r)

  handle-loaded :
      (now : ℕ) (m : Middleware) (q : Request) (r : Registry S) (ctx : Carried) (d : Bool)
      → (handle codec store now m q r).0 ≡ passed ctx d
      → (loaded codec store now m
          (chosen m q).0
          (chosen m q).1
          (get_or_create codec store now (chosen m q).0 r)).0
        ≡ passed ctx d
  unfolding handle
  handle-loaded now m q r ctx d h = elim (Bool-cases (text_eq (chosen m q).0 [] && m.required)) [
    | inl e ↦ ground arith
    | inr e ↦ ground arith
  ]

-- The first text that is given, without the space around it.
abbrev first_given : List Text → Text
first_given [] = []
first_given (t ∷ ts) = if text_eq t [] then first_given ts else trim_space t

-- The ID that a request names in its header or its two query parameters, or else the default ID.
abbrev pub wanted : Middleware → Request → Text
wanted m q =
    let named = first_given (q.header ∷ q.query_instance_id ∷ q.query_instance_alt ∷ []) in
    if text_eq named [] then m.default_instance_id else named

chosen-wanted : (m : Middleware) (q : Request) → (chosen m q).0 ≡ wanted m q
unfolding chosen extract_instance_id
chosen-wanted m q = ground arith

module _ {S : Type 0} (codec : Codec) (store : Store S) {stored : S → Text → Option Bytes}
    (law : IsStore store stored) (trips : RoundTrips codec) where
  -- However calls of the registry interleave before it: a request that the middleware passes on
  -- carries a context whose status is active or migrating and whose ID is that of the header, or of
  -- the first query parameter where the header is empty, or of the second where that is empty too,
  -- without the space around it, or the default ID where that leaves nothing. The store must do what it says, hold under each
  -- registry key at the start only a context of that ID, and the byte form must read back.
  pub handle_passed :
      (w : S) {s : System S} (now : ℕ) (m : Middleware) (q : Request) (ctx : Carried) (d : Bool)
      → StoreNames codec store law trips w
      → Reach codec store (started w) s
      → (handle codec store now m q s.registry).0 ≡ passed ctx d
      → (c : Context) × (ctx ≡ some c)
        × (can_accept_requests c ≡ true)
        × (c.instance_id ≡ wanted m q)
  handle_passed w {s} now m q ctx d n r h =
      let (c, b, g, x, a, i) =
        loaded_passed codec store now m _ _ d _ ctx
          (handle-loaded codec store now m q s.registry ctx d h) in
      (
        c,
        x,
        a,
        i
            ∙ (get_or_create-id codec store law trips w n r).0 now (chosen m q).0 b g
            ∙ chosen-wanted m q,
      )

-- The statuses of the source, and what is due to each.
pub data Status : Type 0 where
  active inactive migrating deleting paused : Status

unfoldable pub status_text : Status → Text
status_text active = status_active
status_text inactive = status_inactive
status_text migrating = status_migrating
status_text deleting = status_deleting
status_text paused = status_paused

unfoldable pub expected : Status → Context → Bool → Handled
expected active c d = passed (some c) d
expected migrating c d = passed (some c) d
expected deleting c d = answered (answer 410 (lit "INSTANCE_DELETING"))
expected inactive c d = answered (answer 503 (lit "INSTANCE_INACTIVE"))
expected paused c d = answered (answer 503 (lit "INSTANCE_PAUSED"))

module _ {S : Type 0} (codec : Codec) (store : Store S) where
  handle_permanent :
      (now : ℕ) (m : Middleware) (q : Request) (r : Registry S) (c : Context)
      → (get_or_create codec store now (chosen m q).0 r).0 ≡ inr c
      → text_eq (chosen m q).0 [] ≡ false
      → c.is_permanent ≡ true
      → (handle codec store now m q r).0 ≡ (
          if can_accept_requests c
          then passed (some c) (chosen m q).1
          else answered (unavailable c.status))
  unfolding handle loaded mark_default admit inject_context
  handle_permanent now m q r c g e p = ground arith

  -- A request for a permanent instance that is loaded, with one of the five statuses: it passes
  -- with the context where the instance is active or migrating; it is answered 410 where it is being
  -- deleted, and 503 with a code of its own where it is inactive or paused.
  pub handle_by_status :
      (now : ℕ) (m : Middleware) (q : Request) (r : Registry S) (c : Context) (st : Status)
      → (get_or_create codec store now (chosen m q).0 r).0 ≡ inr c
      → text_eq (chosen m q).0 [] ≡ false
      → c.is_permanent ≡ true
      → c.status ≡ status_text st
      → (handle codec store now m q r).0 ≡ expected st c (chosen m q).1
  unfolding can_accept_requests unavailable text_eq status_text expected
  handle_by_status now m q r c active g e p s = handle_permanent now m q r c g e p ∙ rw s refl
  handle_by_status now m q r c inactive g e p s = handle_permanent now m q r c g e p ∙ rw s refl
  handle_by_status now m q r c migrating g e p s = handle_permanent now m q r c g e p ∙ rw s refl
  handle_by_status now m q r c deleting g e p s = handle_permanent now m q r c g e p ∙ rw s refl
  handle_by_status now m q r c paused g e p s = handle_permanent now m q r c g e p ∙ rw s refl

  -- Whether the instance is required makes no difference as long as there is a default instance.
  pub required_ignored :
      (now : ℕ) (m : Middleware) (q : Request) (r : Registry S)
      → m.default_instance_id ≢ []
      → handle codec store now (record m { required = true }) q r
        ≡ handle codec store now (record m { required = false }) q r
  unfolding handle chosen loaded mark_default
  required_ignored now m q r h =
      let n = not-text_eq m.default_instance_id [] h in
      elim (Bool-cases (text_eq (extract_instance_id q) [])) [
        | inl e ↦ rw (e, n) refl
        | inr e ↦ rw (e, e) refl
      ]
