-- ===== src/Routes/Changes.antt =====
-- `GET /changes` and `GET /changes/longpoll` (crates/hub-api/src/routes/changes.rs), and what the
-- watcher (crates/hub-api/src/watcher.rs) does with a batch of changes.
use sync_stuff_opinionated.Base.{
  ℕ, Bool, not, Option, none, some, List, [], ◌∷◌, ltb, if◌then◌else◌,
}
use sync_stuff_opinionated.Base.Text.{Text, starts_with}
use sync_stuff_opinionated.Base.Lists.{retain, filter_map}
use sync_stuff_opinionated.Base.Effect.{Eff, pure, ◌>>=◌, with_err}
use sync_stuff_opinionated.Protocol.{ChangeEntry, ChangesResponse}
use sync_stuff_opinionated.Engine.Queue.{unwrap_or}
use sync_stuff_opinionated.Couch.{RawRev, RawChangeRow, RawChangesResponse, Backend}
use sync_stuff_opinionated.Routes.{ApiError, api_error}

abbrev pub default_timeout : ℕ
default_timeout = 25

abbrev pub max_timeout : ℕ
max_timeout = 60

-- `timeout.clamp(1, MAX_TIMEOUT)`.
unfoldable pub clamp_timeout : ℕ → ℕ
clamp_timeout timeout =
    if ltb timeout 1 then 1 else if ltb max_timeout timeout then max_timeout else timeout

module _ (B : Backend) where
  abbrev pub Row : Type 0
  Row = RawChangeRow B.json.Value

  -- System and design documents have an id that starts with an underscore.
  abbrev pub is_user_row : Row → Bool
  is_user_row row = not (starts_with row.id (95 ∷ []))

  abbrev pub entry_of : Row → List RawRev → Option ChangeEntry
  entry_of row [] = none
  entry_of row (rev ∷ revs) = some (record { path = row.id; deleted = row.deleted; rev = rev.rev })

  abbrev pub seq_to_checkpoint : B.json.Value → Text
  seq_to_checkpoint v = unwrap_or (B.json.as_str v) (B.json.to_string v)

  unfoldable pub to_response : RawChangesResponse B.json.Value → ChangesResponse
  to_response raw = record {
    changes = filter_map (λ row. entry_of row row.changes) (retain is_user_row raw.results);
    checkpoint = seq_to_checkpoint raw.last_seq;
  }

  unfoldable pub get_changes : Option Text → Eff B.World ApiError ChangesResponse
  get_changes since = do raw ← with_err api_error (B.couch.changes since); pure (to_response raw)

  unfoldable pub get_changes_longpoll : Option Text → ℕ → Eff B.World ApiError ChangesResponse
  get_changes_longpoll since timeout = do
    raw ← with_err api_error (B.couch.changes_longpoll since (clamp_timeout timeout))
    pure (to_response raw)
