-- ===== src/Watcher.antt =====
-- The change watcher of the hub (crates/hub-api/src/watcher.rs): a round polls the changes since the
-- last sequence number, resolves the conflicts among them, and wakes the devices.
pub mod Health
pub mod Reported
use sync_stuff_opinionated.Base.{
  Bool, false, not, ◌&&◌, Option, none, some, List, [], ◌∷◌, map, ℕ, if◌then◌else◌,
}
use sync_stuff_opinionated.Base.Text.{Text, codes, is_empty}
use sync_stuff_opinionated.Base.Lists.{retain}
use sync_stuff_opinionated.Base.Effect.{Eff, Result, ok, err, panic, pure, with_log, ◌>>◌}
use sync_stuff_opinionated.Engine.Queue.{and_then}
use sync_stuff_opinionated.Couch.{CouchError, RawChangesResponse, Backend}
use sync_stuff_opinionated.Resolver.Resolve.{resolve}
use sync_stuff_opinionated.Routes.Changes.{Row, is_user_row, seq_to_checkpoint}

module _ (B : Backend) where
  -- A round reports no error.
  abbrev pub Round : Type 0 → Type 0
  Round A = Eff B.World ⊥ A

  abbrev pub listed_conflicts : Option (List B.json.Value) → Bool
  listed_conflicts none = false
  listed_conflicts (some revs) = not (is_empty revs)

  unfoldable pub has_conflict : Option B.json.Value → Bool
  has_conflict doc =
      listed_conflicts
        (and_then (and_then doc (λ d. B.json.get d (codes "_conflicts"))) B.json.as_array)

  unfoldable pub changed_paths : RawChangesResponse B.json.Value → List Text
  changed_paths resp = map (λ (row : Row B). row.id) (retain (is_user_row B) resp.results)

  unfoldable pub resolve_row : ℕ → Row B → Round (Unit {0})
  resolve_row fuel row =
      if is_user_row B row && has_conflict row.doc
      then with_log (resolve B fuel row.id)
      else pure tt

  unfoldable pub resolve_rows : ℕ → List (Row B) → Round (Unit {0})
  resolve_rows fuel [] = pure tt
  resolve_rows fuel (row ∷ rows) = do resolve_row fuel row; resolve_rows fuel rows

  -- The client of the wake-up service, if there is one.
  module _ (wakeup : Option (Eff B.World Text (Unit {0}))) where
    unfoldable pub wake : List Text → Round (Unit {0})
    wake [] = pure tt
    wake (path ∷ paths) = elim wakeup [ none ↦ pure tt | some send ↦ with_log send ]

    unfoldable pub handle_batch : ℕ → RawChangesResponse B.json.Value → Round Text
    handle_batch fuel resp = do
      resolve_rows fuel resp.results
      wake (changed_paths resp)
      pure (seq_to_checkpoint B resp.last_seq)

    -- The next `since`: it stays as it is if the poll fails.
    abbrev pub after_poll :
        ℕ → Text → Result CouchError (RawChangesResponse B.json.Value) → Round Text
    after_poll fuel since (ok resp) w = handle_batch fuel resp w
    after_poll fuel since (err e) w = (ok since, w)
    after_poll fuel since panic w = (panic, w)

    unfoldable pub watch_round : ℕ → Text → Round Text
    watch_round fuel since w =
        let (r, w') = B.couch.changes_with_docs (some since) w in after_poll fuel since r w'
