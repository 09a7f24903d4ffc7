-- ===== src/Ingest/World.antt =====
-- What `post_root` of ingest.py works on: a request, the application and its surroundings, and a
-- response.
use agent_wake.Prelude.{ℕ, String, Bool, Option, List}
use agent_wake.Json.{Json, Fields}
use agent_wake.Ingest.RateLimit.{SourceRateLimiter}
use agent_wake.Ingest.Window.{Window}
use agent_wake.Delivery.Health.{DeliveryHealth}
use agent_wake.Router.State.{Router}
use agent_wake.Router.Send.{Await}

-- What `json.loads` makes of a body: a value, its JSONDecodeError, or another exception, which nothing
-- catches, such as the UnicodeDecodeError of a body that is not UTF-8.
pub data Payload : Type 0 where
  parsed : Json → Payload
  malformed unreadable : Payload

-- A request: the body as bytes, what `json.loads` makes of it and the body as text, the peer, and the
-- headers.
pub record Request : Type 0 where
  pub raw_body : List ℕ
  pub payload : Payload
  pub content : String
  pub remote : Option String
  pub source : String
  pub signature : List ℕ
  pub event_id : Option String
  pub identity : Option String

-- The application: the configuration that it was made with, the limiter, the window for a daemon
-- without a store, the router with the store that `Dedupe` shares with it, the health record of its
-- HumanDelivery, and the events whose human delivery has been started.
pub record Endpoint : Type 0 where
  pub config : Fields
  pub limiter : SourceRateLimiter
  pub window : Window
  pub router : Router
  pub delivery_health : DeliveryHealth
  pub delivery_tasks : List Fields

-- What the resolver gives for a source, or the inline secret of a configuration without a resolver.
pub data Secrets : Type 0 where
  resolved : List (List ℕ) → Secrets
  unresolved : Secrets
  inline : List ℕ → Secrets

-- What a request reads from its surroundings: the clocks, what the other tasks do while the secrets
-- are resolved, the secrets, the new ULIDs, and what happens at the router's sends. `has_delivery`
-- tells whether the application was made with a HumanDelivery.
pub record World : Type 0 where
  pub hmac : List ℕ → List ℕ → List ℕ
  pub peer_now : ℕ
  pub source_now : ℕ
  pub secrets : Fields → Secrets
  pub meanwhile : Endpoint → Endpoint
  pub ulid : String
  pub check_now : ℕ
  pub sweep : ℕ
  pub at : ℕ
  pub letter_ids : ℕ → String
  pub has_delivery : Bool
  pub deliver_now : ℕ
  pub sends : String → Await
  pub ack_ids : String → String

-- The header `Retry-After` of a 429 is left out.
pub record Response : Type 0 where
  pub status : ℕ
  pub body : Fields
