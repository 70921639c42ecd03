-- ===== src/Sdk/Typed.antt =====
-- sdk/typed.go: the clients of one type. Set, SetWithOptions and Get of such a client, and the
-- functions SetTyped and GetTyped, are the calls of Sdk/Client with the type's own encoding and
-- decoding; GetMultiple also turns the values of an untyped answer into the type.
use birb_nest.Prelude.{
  ◌≡◌, refl, ◌∙◌, ◌⊎◌, inl, inr, Option, none, some, List, [], ◌∷◌, ◌++◌, Text, lit, text_eq_iff,
  All, arith,
}
use birb_nest.Prelude.Int.{ℤ}
use birb_nest.Prelude.Maps.{Dict, insert, lookup, lookup-insert}
use birb_nest.Cache.{Bytes}
use birb_nest.Errors.{GoError, wrapping}
use birb_nest.Sdk.{Wire}
use birb_nest.Sdk.Client.{
  Client, Plan, Strings, Value, Target, serialize, deserialize, get, set_with_options,
}

-- A type: how a value of it is encoded, and what decodes it.
pub record Typed (V : Type 0) : Type 0 where
  pub value_of : V → Value
  pub target : Target V

-- fmt.Errorf with %w
unfoldable pub labelled : {A : Type 0} → Text → GoError ⊎ A → GoError ⊎ A
labelled what (inl e) = inl (wrapping what e)
labelled what (inr a) = inr a

unfoldable pub and_then : {A B : Type 0} → GoError ⊎ A → (A → GoError ⊎ B) → GoError ⊎ B
and_then (inl e) next = inl e
and_then (inr a) next = next a

module _ {V : Type 0} (js : Strings) (ty : Typed V) where
  -- TypedClient.SetWithOptions; Set is the case with no options.
  unfoldable pub typed_set : Wire → Text → V → Option ℤ → Option Bytes → Client → Plan GoError
  typed_set wire key v ttl metadata c = set_with_options wire js key (ty.value_of v) ttl metadata c

  -- TypedClient.Get
  unfoldable pub typed_get : Text → Client → Plan (GoError ⊎ V)
  typed_get key c = get ty.target key c

  -- One value of the answer, serialized and then deserialized as the type.
  unfoldable pub typed_value : Text → Value → GoError ⊎ V
  unfolding and_then labelled serialize deserialize
  typed_value key x =
      and_then (labelled (lit "failed to serialize value for key " ++ key) (serialize js x)) (λ b.
        labelled (lit "failed to deserialize value for key " ++ key) (deserialize ty.target b))

  unfoldable pub convert : Dict Value → Dict V → GoError ⊎ Dict V
  unfolding and_then typed_value
  convert [] results = inr results
  convert ((key, x) ∷ raw) results =
      and_then (typed_value key x) (λ v. convert raw (insert key v results))

  -- TypedClient.GetMultiple, given what GetMultiple of the client answers.
  unfoldable pub typed_get_multiple : List Text → GoError ⊎ Dict Value → GoError ⊎ Dict V
  unfolding convert and_then labelled
  typed_get_multiple [] answer = inr []
  typed_get_multiple (k ∷ ks) answer =
      and_then (labelled (lit "failed to get multiple values") answer) (λ raw. convert raw [])

  -- The values `f` of the keys of an answer, over what was there before.
  unfoldable pub over : {A : Type 0} → Option A → V → Option V → Option V
  over (some _) v old = some v
  over none v old = old

  over_again : {A : Type 0} (o : Option A) (v : V) (old : Option V) → over o v (some v) ≡ some v
  unfolding over
  over_again (some _) v old = refl
  over_again none v old = refl

  over-insert :
      (f : Text → V) (key : Text) (x : Value) (k : Text) (raw : Dict Value) (results : Dict V)
      → over (lookup k raw) (f k) (lookup k (insert key (f key) results))
        ≡ over (lookup k ((key, x) ∷ raw)) (f k) (lookup k results)
  unfolding over lookup
  over-insert f key x k raw results = ground (
    arith,
    text_eq_iff key k,
    lookup-insert key k (f key) results,
    over_again (lookup k raw) (f k),
  )

  abbrev Converted : (Text → V) → Dict Value → Dict V → Type 0
  Converted f raw results =
      (r : Dict V) × (convert raw results ≡ inr r)
      × ((k : Text) → lookup k r ≡ over (lookup k raw) (f k) (lookup k results))

  convert-All :
      (f : Text → V) (raw : Dict Value) (results : Dict V)
      → All (λ e. typed_value e.0 e.1 ≡ inr (f e.0)) raw
      → Converted f raw results
  unfolding convert over and_then lookup
  convert-All f [] results a = (results, refl, λ k. refl)
  convert-All f ((key, x) ∷ raw) results a =
      let ih = convert-All f raw (insert key (f key) results) a.1 in
      (ih.0, rw a.0 ih.1, λ k. ih.2 k ∙ over-insert f key x k raw results)

  -- Where each value of the answer turns into `f` of its key, GetMultiple of the type returns `f` of
  -- each key in the answer, and no other key.
  pub typed_get_multiple_lem :
      (f : Text → V) (k : Text) (ks : List Text) (raw : Dict Value)
      → All (λ e. typed_value e.0 e.1 ≡ inr (f e.0)) raw
      → (r : Dict V) × (typed_get_multiple (k ∷ ks) (inr raw) ≡ inr r)
        × ((j : Text) → lookup j r ≡ over (lookup j raw) (f j) none)
  unfolding typed_get_multiple and_then labelled lookup
  typed_get_multiple_lem f k ks raw a = convert-All f raw [] a
