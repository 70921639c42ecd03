-- ===== src/Sdk.antt =====
-- The client SDK: sdk/config.go, sdk/serializer.go, sdk/transport.go, sdk/native.go, sdk/client.go, sdk/typed.go.
-- What encoding/json, net/url and net/http do is a parameter (Wire, Reply).
pub mod Config
pub mod Transport
pub mod Client
pub mod Bounds
pub mod Setup
pub mod Ending
pub mod Misses
pub mod Envelope
pub mod Typed
pub mod Observer
pub mod Tests
use birb_nest.Prelude.{
  ℕ, Bool, true, false, ◌⊎◌, inl, inr, Option, none, some, List, [], ◌∷◌, ◌++◌, Text, lit,
}
use birb_nest.Prelude.Int.{ℤ}
use birb_nest.Cache.{Bytes}
use birb_nest.Errors.{ApiError}

-- CacheRequest, whose metadata is as it is encoded.
pub record CacheRequest : Type 0 where
  pub value : Bytes
  pub ttl : Option ℤ
  pub metadata : Option Bytes

-- What a call decodes a successful answer into: a CacheResponse, of which the client reads the
-- value only, a HealthResponse, of which it reads the status, or nothing.
pub data Want : Type 0 where
  entry health nothing : Want

-- The result of json.Unmarshal in a Go variable of that kind: bytes or a text.
abbrev pub Parsed : Type 0
Parsed = Text

-- json.Marshal of a request, json.Unmarshal of an answer and of an APIError, %d, and
-- baseURL.ResolveReference of a path as a text.
pub record Wire : Type 0 where
  pub marshal : CacheRequest → Text ⊎ Bytes
  pub parse : Want → Bytes → Text ⊎ Parsed
  pub api_error : Bytes → Option ApiError
  pub number : ℕ → Text
  pub resolve : Text → Text

-- A request: its method, path and body, a body being an error where it cannot be marshalled.
pub record Request : Type 0 where
  pub method : Text
  pub path : Text
  pub body : Option (Text ⊎ Bytes)
  pub want : Want

-- What http.NewRequest, client.Do and io.ReadAll give: an error of one of them, or the answer's
-- status, body and X-Request-ID.
pub data Reply : Type 0 where
  unmade broken unread : Text → Reply
  response : ℕ → Bytes → Text → Reply
