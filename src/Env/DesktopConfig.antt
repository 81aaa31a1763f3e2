-- ===== src/Env/DesktopConfig.antt =====
-- The configuration of the desktop client (crates/client-desktop/src/config.rs).
use sync_stuff_opinionated.Base.{List, Option, some, none, ◌++◌, if◌then◌else◌}
use sync_stuff_opinionated.Base.Text.{Text, codes, is_empty}
use sync_stuff_opinionated.Base.Split.{ends_with}
use sync_stuff_opinionated.Base.Int.{ℤ, pos}
use sync_stuff_opinionated.Base.Effect.{Result, ok, then_ok}
use sync_stuff_opinionated.Env.{
  Var, text_env, i32_env, list_env, path_env, default_env, required_env,
}

-- The time that events must stay away for, in milliseconds.
pub record Config : Type 0 where
  pub hubs : List Text
  pub token : Text
  pub dir : Text
  pub metadata_dir : Text
  pub debounce : ℤ

-- `PathBuf::join` of a relative path.
abbrev pub joined : Text → Text → Text
joined dir name =
    if is_empty dir
    then name
    else if ends_with dir (codes "/")
    then dir ++ name
    else dir ++ (codes "/" ++ name)

-- `var_os`: a variable may have bytes that are no Unicode.
module _ (var_os : Text → Option Text) where
  abbrev pub below_home : Option Text → Text
  below_home none = codes "filesync"
  below_home (some home) = joined home (codes ".local/state/filesync")

  abbrev pub state_dir_at : Option Text → Text
  state_dir_at none = below_home (var_os (codes "HOME"))
  state_dir_at (some xdg) = joined xdg (codes "filesync")

  unfoldable pub default_state_dir : Text
  default_state_dir = state_dir_at (var_os (codes "XDG_STATE_HOME"))

  unfoldable pub from_env : (Text → Var) → (Text → Text) → Result Text Config
  from_env var debug = then_ok (required_env var list_env (codes "FILESYNC_HUBS")) λ hubs.
      then_ok (required_env var text_env (codes "FILESYNC_TOKEN")) λ token.
        then_ok (required_env var path_env (codes "FILESYNC_DIR")) λ dir.
          then_ok (default_env var path_env (codes "FILESYNC_STATE_DIR") default_state_dir)
            λ metadata_dir.
              then_ok (default_env var (i32_env debug) (codes "FILESYNC_DEBOUNCE_MS") (pos 1000))
                λ debounce. ok (record {
                  hubs = hubs;
                  token = token;
                  dir = dir;
                  metadata_dir = metadata_dir;
                  debounce = debounce;
                })
