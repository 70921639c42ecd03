-- ===== src/Sdk/Envelope.antt =====
-- What Set of the client sends, and what it makes of the server's answers. The server stores the
-- body of a Set as it is, sends it back for a Get, and answers a Set by the status 200 with the
-- text OK (internal/api/handlers_instance.go).
use birb_nest.Prelude.{
  ℕ, ◌≡◌, ◌≢◌, refl, ◌∙◌, ap, false, ◌⊎◌, inl, inr, Option, none, some, [], ◌∷◌, Text, lit, text_eq,
}
use birb_nest.Prelude.Int.{ℤ}
use birb_nest.Cache.{Bytes}
use birb_nest.Errors.{nil, opaque, wrapping, is_retryable}
use birb_nest.Sdk.{CacheRequest, entry, Wire, Request, response}
use birb_nest.Sdk.Transport.{decoded, success, replied, unmarshalled, perform_http_request}
use birb_nest.Sdk.Client.{
  Value, Strings, serialize, Target, deserialize, seconds, cache_request, build_cache_request, send,
  checked, path_of, posted, set_with_options, got, get_request,
}

-- A CacheRequest decodes as a CacheResponse with its value as json.Marshal writes a RawMessage in a
-- struct: compacted, with some characters escaped, and null for an empty one.
abbrev pub ReadsValue : Wire → (Bytes → Bytes) → Type 0
ReadsValue wire compact =
    (r : CacheRequest) (b : Bytes)
    → wire.marshal r ≡ inr b
    → (b ≢ []) × (wire.parse entry b ≡ inr (compact r.value))

parsed_value :
    (wire : Wire) (now : ℕ) (key id v : Text) (b : Bytes)
    → b ≢ []
    → wire.parse entry b ≡ inr v
    → perform_http_request wire now (get_request key) (response 200 b id) ≡ (nil, some v)
unfolding perform_http_request unmarshalled replied success decoded get_request
parsed_value wire now key id v [] n p = absurd (n refl)
parsed_value wire now key id v (c ∷ b) n p = rw p refl

unfoldable pub request_of : Bytes → Option ℤ → Option Bytes → CacheRequest
request_of v none metadata = record { value = v; ttl = none; metadata = metadata }
request_of v (some t) metadata = record { value = v; ttl = some (seconds t); metadata = metadata }

cache_request-request_of :
    (v : Bytes) (ttl : Option ℤ) (metadata : Option Bytes)
    → cache_request ttl metadata (inr v) ≡ inr (request_of v ttl metadata)
unfolding cache_request request_of
cache_request-request_of v none metadata = refl
cache_request-request_of v (some t) metadata = refl

request_of-value :
    (v : Bytes) (ttl : Option ℤ) (metadata : Option Bytes) → (request_of v ttl metadata).value ≡ v
unfolding request_of
request_of-value v none metadata = refl
request_of-value v (some t) metadata = refl

-- An open client's Set of a value that serializes, under a key that is not empty, sends one POST
-- for the key; and a Get that is answered with that POST's body returns what the value was
-- serialized to, compacted and then deserialized, whatever the TTL and the metadata are. A request
-- must decode as a response with its value compacted.
pub got-set_with_options :
    (wire : Wire) (js : Strings) (compact : Bytes → Bytes) (law : ReadsValue wire compact)
    {V : Type 0} (target : Target V) (now : ℕ) (key id : Text) (value : Value) (ttl : Option ℤ)
    (metadata : Option Bytes) (v : Bytes)
    → text_eq key [] ≡ false
    → serialize js value ≡ inr v
    → (body : Text ⊎ Bytes) × (set_with_options wire js key value ttl metadata
          (record { closed = false })
        ≡ send
            (record { method = lit "POST"; path = path_of key; body = some body; want = entry })
            (λ a. a.0))
      × ((b : Bytes)
          → body ≡ inr b
          → got target (perform_http_request wire now (get_request key) (response 200 b id))
            ≡ deserialize target (compact v))
unfolding set_with_options checked posted build_cache_request got
got-set_with_options wire js compact law target now key id value ttl metadata v named ser = (
  wire.marshal (request_of v ttl metadata),
  rw (named, ser, cache_request-request_of v ttl metadata) refl,
  λ b m.
      let (n, p) = law (request_of v ttl metadata) b m in
      rw
        (parsed_value wire now key id (compact v) b n
          (p ∙ ap (λ u. inr (compact u)) (request_of-value v ttl metadata)))
        refl,
)

-- A Set whose answer has the status 200 and a body that is no JSON, as the server's OK is, ends in
-- the error that the answer does not parse: the client's Set sends one POST, and for that request
-- and answer performHTTPRequest returns that error, which is not retried. The client is open, the
-- key is not empty, and the value and its request serialize.
pub set_misread :
    (wire : Wire) (js : Strings) (now : ℕ) (key id : Text) (value : Value) (ttl : Option ℤ)
    (metadata : Option Bytes) (v b : Bytes) (c : ℕ) (body : Bytes) (e : Text)
    → text_eq key [] ≡ false
    → serialize js value ≡ inr v
    → wire.marshal (request_of v ttl metadata) ≡ inr b
    → wire.parse entry (c ∷ body) ≡ inl e
    → (r : Request) × (set_with_options wire js key value ttl metadata (record { closed = false })
        ≡ send r (λ a. a.0))
      × ((perform_http_request wire now r (response 200 (c ∷ body) id)).0
          ≡ wrapping (lit "failed to parse response") (opaque e))
      × (is_retryable (wrapping (lit "failed to parse response") (opaque e)) ≡ false)
unfolding set_with_options checked posted build_cache_request perform_http_request unmarshalled
    replied success decoded is_retryable
set_misread wire js now key id value ttl metadata v b c body e named ser m p = (
  record { method = lit "POST"; path = path_of key; body = some (inr b); want = entry },
  rw (named, ser, cache_request-request_of v ttl metadata, m) refl,
  rw p refl,
  refl,
)
