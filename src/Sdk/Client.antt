-- ===== src/Sdk/Client.antt =====
-- sdk/client.go and sdk/serializer.go. A call of the client ends at once or sends one request and
-- goes on with its answer; GetMultiple is given by the answers of its Gets.
use birb_nest.Prelude.{
  ℕ, zero, suc, ◌+◌, Bool, true, false, ◌⊎◌, inl, inr, Option, none, some, List, [], ◌∷◌, ◌++◌,
  Text, lit, text_eq, ◌/◌, not, if◌then◌else◌,
}
use birb_nest.Prelude.Int.{ℤ, pos, negsuc}
use birb_nest.Prelude.Maps.{Dict, insert}
use birb_nest.Cache.{Bytes}
use birb_nest.Errors.{GoError, nil, opaque, wrapping, is_nil, is_not_found}
use birb_nest.Sdk.{CacheRequest, entry, health, nothing, Wire, Request}
use birb_nest.Sdk.Transport.{Answer}

-- A value to store: a json.RawMessage, a string, or any other with what json.Marshal makes of it.
pub data Value : Type 0 where
  raw string : Text → Value
  other : Text ⊎ Bytes → Value

-- json.Unmarshal in an interface{} succeeds, and json.Marshal of a string.
pub record Strings : Type 0 where
  pub is_json : Text → Bool
  pub quote : Text → Bytes

-- serialize; that json.Marshal fails shows already in validateSerializable.
unfoldable pub serialize : Strings → Value → GoError ⊎ Bytes
serialize js (raw b) = inr b
serialize js (string s) = if js.is_json s then inr s else inr (js.quote s)
serialize js (other (inl e)) = inl (wrapping (lit "value is not serializable") (opaque e))
serialize js (other (inr b)) = inr b

-- deserialize: the target is a *json.RawMessage, or json.Unmarshal in it is given.
unfoldable pub unmarshalled : {V : Type 0} → Text ⊎ V → GoError ⊎ V
unmarshalled (inl e) = inl (wrapping (lit "failed to deserialize value") (opaque e))
unmarshalled (inr v) = inr v

pub data Target (V : Type 0) : Type 0 where
  to_raw : (Bytes → V) → Target V
  to : (Bytes → Text ⊎ V) → Target V

unfoldable pub deserialize : {V : Type 0} → Target V → Bytes → GoError ⊎ V
unfolding unmarshalled
deserialize target [] = inl (opaque (lit "empty data"))
deserialize (to_raw f) (b ∷ bs) = inr (f (b ∷ bs))
deserialize (to unmarshal) (b ∷ bs) = unmarshalled (unmarshal (b ∷ bs))

-- int(ttl.Seconds()) of nanoseconds, towards zero.
unfoldable pub seconds : ℤ → ℤ
seconds (pos n) = pos (n / 1_000_000_000)
seconds (negsuc n) = minus ((n + 1) / 1_000_000_000)
  where
    minus : ℕ → ℤ
    minus zero = pos zero
    minus (suc m) = negsuc m

-- buildCacheRequest, with the options of SetWithOptions.
unfoldable pub cache_request : Option ℤ → Option Bytes → GoError ⊎ Bytes → GoError ⊎ CacheRequest
unfolding seconds
cache_request ttl metadata (inl e) = inl e
cache_request none metadata (inr b) = inr (record { value = b; ttl = none; metadata = metadata })
cache_request (some t) metadata (inr b) =
    inr (record { value = b; ttl = some (seconds t); metadata = metadata })

unfoldable pub build_cache_request :
    Strings → Value → Option ℤ → Option Bytes → GoError ⊎ CacheRequest
unfolding serialize cache_request
build_cache_request js value ttl metadata = cache_request ttl metadata (serialize js value)

-- client
pub record Client : Type 0 where
  pub closed : Bool

-- What a call does: it ends, or sends a request.
pub data Plan (R : Type 0) : Type 0 where
  done : R → Plan R
  send : Request → (Answer → R) → Plan R

-- checkClosed and the test of the key.
unfoldable pub checked : {R : Type 0} → (GoError → R) → Client → Text → Plan R → Plan R
checked failing c key next =
    if c.closed
    then done (failing (opaque (lit "client is closed")))
    else if text_eq key []
    then done (failing (opaque (lit "key cannot be empty")))
    else next

unfoldable pub path_of : Text → Text
path_of key = lit "/v1/cache/" ++ key

unfoldable pub posted : Wire → Text → GoError ⊎ CacheRequest → Plan GoError
unfolding path_of
posted wire key (inl e) = done e
posted wire key (inr req) =
    send
      (record {
        method = lit "POST";
        path = path_of key;
        body = some (wire.marshal req);
        want = entry;
      })
      (λ a. a.0)

-- Set is the case with no options.
unfoldable pub set_with_options :
    Wire → Strings → Text → Value → Option ℤ → Option Bytes → Client → Plan GoError
unfolding checked posted build_cache_request
set_with_options wire js key value ttl metadata c =
    checked (λ e. e) c key (posted wire key (build_cache_request js value ttl metadata))

-- The value of the answer; an answer without a body has none.
unfoldable pub value_in : Option Text → Bytes
value_in none = []
value_in (some b) = b

unfoldable pub got : {V : Type 0} → Target V → Answer → GoError ⊎ V
unfolding value_in is_nil deserialize
got target (err, p) = if is_nil err then deserialize target (value_in p) else inl err

unfoldable pub get_request : Text → Request
unfolding path_of
get_request key = record { method = lit "GET"; path = path_of key; body = none; want = entry }

unfoldable pub get : {V : Type 0} → Target V → Text → Client → Plan (GoError ⊎ V)
unfolding checked got get_request
get target key c = checked inl c key (send (get_request key) (got target))

unfoldable pub delete : Text → Client → Plan GoError
unfolding checked path_of
delete key c =
    checked (λ e. e) c key
      (send (record { method = lit "DELETE"; path = path_of key; body = none; want = nothing })
        (λ a. a.0))

unfoldable pub pinged : Answer → GoError
unfolding is_nil value_in
pinged (err, p) =
    if not (is_nil err)
    then err
    else if text_eq (value_in p) (lit "healthy")
    then nil
    else opaque (lit "server is not healthy: " ++ value_in p)

unfoldable pub ping : Client → Plan GoError
unfolding pinged
ping c =
    if c.closed
    then done (opaque (lit "client is closed"))
    else send (record { method = lit "GET"; path = lit "/health"; body = none; want = health })
        pinged

unfoldable pub close : Client → Client
close c = record { closed = true }

unfoldable pub found : {V : Type 0} → GoError ⊎ V → GoError ⊎ Bool
unfolding is_not_found
found (inr v) = inr true
found (inl err) = if is_not_found err then inr false else inl err

unfoldable pub then_found : {V : Type 0} → Plan (GoError ⊎ V) → Plan (GoError ⊎ Bool)
unfolding found
then_found (done r) = done (found r)
then_found (send r next) = send r (λ a. found (next a))

unfoldable pub exists : {V : Type 0} → Target V → Text → Client → Plan (GoError ⊎ Bool)
unfolding checked get then_found
exists target key c = checked inl c key (then_found (get target key c))

-- The values found and the errors other than a miss, as the Gets end.
unfoldable pub gathered :
    {V : Type 0} → List (Text × (GoError ⊎ V)) → List GoError × Dict V → List GoError × Dict V
unfolding is_not_found
gathered [] r = r
gathered ((k, inr v) ∷ gets) (es, m) = gathered gets (es, insert k v m)
gathered ((k, inl e) ∷ gets) (es, m) =
    gathered gets (if is_not_found e then es else es ++ (e ∷ []), m)

unfoldable pub first_error : {V : Type 0} → List GoError × Dict V → GoError ⊎ Dict V
first_error ([], m) = inr m
first_error (e ∷ es, m) = inl e

-- GetMultiple: the Gets of its keys, one for each key given, in the order in which they end.
unfoldable pub get_multiple : {V : Type 0} → List (Text × (GoError ⊎ V)) → Client → GoError ⊎ Dict V
unfolding gathered first_error
get_multiple gets c =
    if c.closed then inl (opaque (lit "client is closed")) else first_error (gathered gets ([], []))
