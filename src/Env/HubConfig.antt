-- ===== src/Env/HubConfig.antt =====
-- The configuration of the hub (crates/hub-api/src/config.rs).
use sync_stuff_opinionated.Base.{Bool, Option, List}
use sync_stuff_opinionated.Base.Text.{Text, codes}
use sync_stuff_opinionated.Base.Int.{ℤ, pos}
use sync_stuff_opinionated.Base.Effect.{Result, ok, then_ok}
use sync_stuff_opinionated.Env.{
  Var, text_env, i32_env, list_env, set_env, default_env, required_env, optional_env,
}

pub record Config : Type 0 where
  pub bind_addr : Text
  pub couch_url : Text
  pub couch_db : Text
  pub couch_user : Text
  pub couch_password : Text
  pub device_tokens : Text → Bool
  pub fcm_server_key : Option Text
  pub fcm_device_tokens : Option (List Text)
  pub discord_webhook_url : Option Text
  pub watcher_poll_secs : ℤ
  pub repl_staleness_secs : ℤ

module _ (var : Text → Var) (debug : Text → Text) where
  unfoldable pub from_env : Result Text Config
  from_env =
      then_ok (default_env var text_env (codes "HUB_BIND_ADDR") (codes "0.0.0.0:8080")) λ bind_addr.
        then_ok (default_env var text_env (codes "COUCH_URL") (codes "http://localhost:5984"))
          λ couch_url.
            then_ok (default_env var text_env (codes "COUCH_DB") (codes "filesync")) λ couch_db.
              then_ok (default_env var text_env (codes "COUCH_USER") (codes "hub")) λ couch_user.
                then_ok (default_env var text_env (codes "COUCH_PASSWORD") (codes "hub-password"))
                  λ couch_password.
                    then_ok (required_env var set_env (codes "HUB_DEVICE_TOKENS")) λ device_tokens.
                      then_ok (optional_env var text_env (codes "FCM_SERVER_KEY")) λ fcm_server_key.
                        then_ok (optional_env var list_env (codes "HUB_FCM_TOKENS"))
                          λ fcm_device_tokens.
                            then_ok (optional_env var text_env (codes "DISCORD_WEBHOOK_URL"))
                              λ discord_webhook_url.
                                then_ok
                                  (default_env var (i32_env debug) (codes "HUB_WATCHER_POLL_SECS")
                                    (pos 2))
                                  λ watcher_poll_secs.
                                    then_ok
                                      (default_env var (i32_env debug)
                                        (codes "HUB_REPL_STALENESS_SECS") (pos 300))
                                      λ repl_staleness_secs. ok (record {
                                        bind_addr = bind_addr;
                                        couch_url = couch_url;
                                        couch_db = couch_db;
                                        couch_user = couch_user;
                                        couch_password = couch_password;
                                        device_tokens = device_tokens;
                                        fcm_server_key = fcm_server_key;
                                        fcm_device_tokens = fcm_device_tokens;
                                        discord_webhook_url = discord_webhook_url;
                                        watcher_poll_secs = watcher_poll_secs;
                                        repl_staleness_secs = repl_staleness_secs;
                                      })
