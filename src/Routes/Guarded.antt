-- ===== src/Routes/Guarded.antt =====
-- Nothing of the database is shown to a request without a token, and nothing is changed
-- (crates/hub-api/src/auth.rs, crates/hub-api/src/routes/mod.rs).
use sync_stuff_opinionated.Base.{ℕ, ◌≡◌, refl, Bool, true, false, Option, none, some, arith}
use sync_stuff_opinionated.Base.Text.{Text}
use sync_stuff_opinionated.Base.Effect.{Eff}
use sync_stuff_opinionated.Protocol.{Metadata}
use sync_stuff_opinionated.Couch.{CouchError, Backend}
use sync_stuff_opinionated.Routes.Router.{
  Endpoint, Incoming, Reply, no_route, bad_request, unauthorized, Handled, route_of, handler,
  require_device_token, dispatch, hub,
}

module _ (B : Backend) (header_value : Text → Option Text)
    (get_metadata : Eff B.World CouchError Metadata) (device_tokens : Text → Bool) (fuel : ℕ) where
  -- Whether a request carries a token that the hub knows.
  abbrev pub authorized : Option Text → Bool
  authorized none = false
  authorized (some token) = device_tokens token

  -- Whether a reply carries nothing of the database.
  abbrev pub is_refusal : Reply → Bool
  is_refusal no_route = true
  is_refusal bad_request = true
  is_refusal unauthorized = true
  is_refusal _ = false

  -- A request without a known token, whatever it asks for, neither reads nor writes the database:
  -- the hub is left as it was, and the reply, which is the same in every state of the database, is a
  -- refusal.
  pub hub-unauthorized :
      (req : Incoming) (w v : B.World)
      → authorized req.token ≡ false
      → ((hub B header_value get_metadata device_tokens fuel req w).1 ≡ w)
        × ((hub B header_value get_metadata device_tokens fuel req w).0
            ≡ (hub B header_value get_metadata device_tokens fuel req v).0)
        × (is_refusal (hub B header_value get_metadata device_tokens fuel req w).0 ≡ true)
  unfolding hub require_device_token
  hub-unauthorized req w v unknown = onward (route_of req.method req.path) req.token unknown
    where
      guarded :
          Option Endpoint → Option Text → Handled B header_value get_metadata device_tokens fuel
      guarded route token =
          dispatch B header_value get_metadata device_tokens fuel route token
            (λ endpoint. handler B header_value get_metadata device_tokens fuel endpoint req)

      onward :
          (route : Option Endpoint) (token : Option Text)
          → authorized token ≡ false
          → ((guarded route token w).1 ≡ w)
            × ((guarded route token w).0 ≡ (guarded route token v).0)
            × (is_refusal (guarded route token w).0 ≡ true)
      onward none token h = (refl, refl, refl)
      onward (some endpoint) none h = (refl, refl, refl)
      onward (some endpoint) (some token) h = ground (arith, h)
