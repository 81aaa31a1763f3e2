-- ===== src/Notify.antt =====
-- The notifications of the hub (crates/hub-api/src/notify.rs): silent wakeups of the devices, and
-- messages for a Discord channel.
use sync_stuff_opinionated.Base.{ℕ, true, none, List, [], ◌∷◌, ◌++◌, map, if◌then◌else◌}
use sync_stuff_opinionated.Base.Text.{Text, codes, is_empty}
use sync_stuff_opinionated.Base.Effect.{
  Eff, Result, ok, err, panic, pure, of_result, ◌>>=◌, map_err, with_err,
}
use sync_stuff_opinionated.Http.{
  Method, Auth, Body, Request, RequestError, Response, Web, is_success,
}
use sync_stuff_opinionated.Couch.{Json}

pub data NotifyError : Type 0 where
  transport : Text → NotifyError
  api : ℕ → Text → NotifyError

abbrev pub fcm_legacy_endpoint : Text
fcm_legacy_endpoint = codes "https://fcm.googleapis.com/fcm/send"

pub record FcmClient : Type 0 where
  pub server_key : Text
  pub endpoint : Text

abbrev pub new_fcm : Text → FcmClient
new_fcm server_key = record { server_key = server_key; endpoint = fcm_legacy_endpoint }

abbrev pub with_endpoint : FcmClient → Text → FcmClient
with_endpoint client endpoint = record client { endpoint = endpoint }

pub record DiscordClient : Type 0 where
  pub webhook_url : Text

abbrev pub transport_error : RequestError → NotifyError
transport_error e = transport e.message

-- `unwrap_or_default` of a body that cannot be read.
abbrev pub refused_by : ℕ → Result RequestError Text → Result NotifyError (Unit {0})
refused_by status (ok body) = err (api status body)
refused_by status (err e) = err (api status [])
refused_by status panic = panic

module _ (web : Web) where
  abbrev pub Action : Type 0 → Type 0
  Action A = Eff web.World NotifyError A

  unfoldable pub accepted : Response web.World → Action (Unit {0})
  accepted resp w =
      if is_success resp.status
      then (ok tt, w)
      else (let (body, w') = resp.text w in (refused_by resp.status body, w'))

  abbrev pub post_request : Auth → Text → web.Url → Request web.Url
  post_request auth text url = record {
    method = Method.post;
    url = url;
    auth = auth;
    body = Body.json text;
    timeout = none;
  }

  -- A request to an address that may be no URL.
  unfoldable pub post_to : Text → Auth → Text → Action (Unit {0})
  post_to address auth text = do
    url ← of_result (map_err transport (web.parse address))
    resp ← with_err transport_error (web.send (post_request auth text url))
    accepted resp

  module _ (J : Json) where
    abbrev pub wake_message : List Text → J.Value
    wake_message tokens = J.object (
        (codes "registration_ids", J.array (map J.string tokens))
        ∷ (codes "priority", J.string (codes "high"))
        ∷ (codes "content_available", J.boolean true)
        ∷ (codes "data", J.object ((codes "kind", J.string (codes "wake")) ∷ []))
        ∷ [])

    unfoldable pub send_wakeup : FcmClient → List Text → Action (Unit {0})
    send_wakeup client tokens =
        if is_empty tokens
        then pure tt
        else post_to client.endpoint (Auth.authorization (codes "key=" ++ client.server_key))
            (J.to_string (wake_message tokens))

    unfoldable pub send : DiscordClient → Text → Action (Unit {0})
    send client content =
        post_to client.webhook_url Auth.no_auth
          (J.to_string (J.object ((codes "content", J.string content) ∷ [])))
