-- ===== src/Resolver/Apply.antt =====
-- The writes of a resolution (`apply_plan`, `conflict_copy_path`, crates/hub-api/src/resolver.rs).
use sync_stuff_opinionated.Base.{ℕ, zero, suc, ◌+◌, Option, none, some, List, [], ◌∷◌, ◌++◌}
use sync_stuff_opinionated.Base.Text.{Text, Bytes, codes}
use sync_stuff_opinionated.Base.Int.{ℤ}
use sync_stuff_opinionated.Base.Decimal.{decimal}
use sync_stuff_opinionated.Base.Effect.{pure, panics, ◌>>=◌, ◌>>◌}
use sync_stuff_opinionated.Couch.{Backend, day_month_year}
use sync_stuff_opinionated.Resolver.{Copy, Plan, Action, on_read, on_write}

-- The names of the conflict copies of a path, of one day.
abbrev pub candidate : Text → Text → ℕ → Text
candidate base_path today zero = base_path ++ codes ".conflict-" ++ today
candidate base_path today (suc k) =
    base_path ++ codes ".conflict-" ++ today ++ codes "." ++ decimal k

module _ (B : Backend) where
  -- The `json!` of a document of a file.
  abbrev pub file_doc : Text → ℤ → Text → B.json.Value
  file_doc path mtime content_type = B.json.object (
      (codes "path", B.json.string path)
      ∷ (codes "mtime", B.json.number mtime)
      ∷ (codes "content_type", B.json.string content_type)
      ∷ [])

  -- A name is taken if a document has it.
  abbrev pub unless_taken : Text → Action B Text → Option B.json.Value → Action B Text
  unless_taken path others none = pure path
  unless_taken path others (some doc) = others

  -- The loop tries the names in order; each try takes a unit of fuel.
  unfoldable pub free_path : ℕ → Text → Text → ℕ → Action B Text
  free_path zero base_path today n = panics
  free_path (suc fuel) base_path today n = do
    doc ← on_read B (B.couch.get_doc (candidate base_path today n))
    unless_taken (candidate base_path today n) (free_path fuel base_path today (n + 1)) doc

  unfoldable pub conflict_copy_path : ℕ → Text → Action B Text
  conflict_copy_path fuel base_path w = free_path fuel base_path (day_month_year (B.today w)) 0 w

  unfoldable pub write_copy : ℕ → Text → Copy → Action B Text
  write_copy fuel path copy = do
    copy_path ← conflict_copy_path fuel path
    doc ←
        on_write B
          (B.couch.put_doc copy_path none (file_doc copy_path copy.mtime copy.content_type))
    on_write B (B.couch.put_attachment copy_path doc.rev copy.content_type copy.content)
    pure copy_path

  unfoldable pub write_copies : ℕ → Text → List Copy → Action B (List Text)
  write_copies fuel path [] = pure []
  write_copies fuel path (copy ∷ copies) = do
    copy_path ← write_copy fuel path copy
    written ← write_copies fuel path copies
    pure (copy_path ∷ written)

  abbrev pub write_content : Text → Plan → Option Bytes → Action B (Unit {0})
  write_content path plan none = pure tt
  write_content path plan (some content) = do
    doc ← on_write B (
        B.couch.put_doc path (some plan.winner_rev)
          (file_doc path plan.final_mtime plan.final_content_type))
    on_write B (B.couch.put_attachment path doc.rev plan.final_content_type content)
    pure tt

  unfoldable pub write_final : Text → Plan → Action B (Unit {0})
  write_final path plan = write_content path plan plan.final_content

  unfoldable pub delete_leaves : Text → List Text → Action B (Unit {0})
  delete_leaves path [] = pure tt
  delete_leaves path (rev ∷ revs) = do
    on_write B (B.couch.delete_doc path rev)
    delete_leaves path revs

  unfoldable pub apply_plan : ℕ → Text → Plan → Action B (List Text)
  apply_plan fuel path plan = do
    written ← write_copies fuel path plan.copies
    write_final path plan
    delete_leaves path plan.loser_revs
    pure written
