-- ===== src/Engine/Checkpoint.antt =====
-- The checkpoint of a hub (`pull_from`, crates/client-core/src/engine.rs).
use mathlib.Core.Path.{subst}
use sync_stuff_opinionated.Base.{◌≡◌, ◌≢◌, Bool, [], ◌∷◌, refl, sym, ◌∙◌, Option, some, List, arith}
use sync_stuff_opinionated.Base.Text.{Text, Bytes}
use sync_stuff_opinionated.Base.Effect.{Result, ok, pure, ◌>>=◌, >>=-eq-ok, after_keeping, ◌>>◌}
use sync_stuff_opinionated.Protocol.{ChangeEntry}
use sync_stuff_opinionated.Engine.Types.{
  file_key, checkpoint_key, SyncError, PullReport, Platform, World, IsPlatform,
}
use sync_stuff_opinionated.Engine.Keys.{file_key-ne-checkpoint_key}
use sync_stuff_opinionated.Engine.Queue.{Action, on_meta, on_files, on_net}
use sync_stuff_opinionated.Engine.Frame.{MetaIs-get, MetaIs-on_net}
use sync_stuff_opinionated.Engine.Pull.{
  Hub, found_or_fail, apply_delete, apply_upsert, apply_checked, apply_remote, apply_all,
  report_for, pull_from,
}
use sync_stuff_opinionated.Engine.Pulled.{MetaIs-apply_all}

-- The checkpoint that a pull leaves: the reported one after a success, the old one otherwise.
abbrev pub checkpoint_left : Result SyncError PullReport → Option Bytes → Option Bytes
checkpoint_left (ok report) old = report.checkpoint
checkpoint_left _ old = old

module _ (P : Platform) (L : IsPlatform P) (h : Hub P) where
  abbrev ck : World P → Option Bytes
  ck w = L.meta_view w.meta (checkpoint_key h.id)

  abbrev put_report : Text → PullReport → Action P PullReport
  put_report cp report = on_meta P (P.meta.put (checkpoint_key h.id) cp) >> pure report

  abbrev Left : Option Bytes → Result SyncError PullReport × World P → Type 0
  Left old (r, w) = ck w ≡ checkpoint_left r old

  put_checkpoint :
      (report : PullReport) (cp : Text) (w : World P)
      → report.checkpoint ≡ some cp
      → Left (ck w) (put_report cp report w)
  unfolding on_meta ◌>>=◌
  put_checkpoint report cp w e =
      ground
        (arith, (L.meta_laws.puts (checkpoint_key h.id) cp).written w.meta (checkpoint_key h.id))

  checkpoint-apply_checked :
      (entry : ChangeEntry) (report : PullReport) (pending : Bool) (w : World P) {w' : World P}
      {r : PullReport}
      → apply_checked P h entry report pending w ≡ (ok r, w')
      → r.checkpoint ≡ report.checkpoint
  unfolding apply_checked apply_delete apply_upsert found_or_fail on_meta on_files on_net ◌>>=◌
  checkpoint-apply_checked entry report pending w e = ground arith

  checkpoint-apply_all :
      (changes : List ChangeEntry) (report : PullReport) (w : World P) {w' : World P}
      {r : PullReport}
      → apply_all P h changes report w ≡ (ok r, w')
      → r.checkpoint ≡ report.checkpoint
  unfolding apply_all apply_remote pure
  checkpoint-apply_all [] report w e = cc
  checkpoint-apply_all (entry ∷ changes) report w e =
      let (r₁, w₁, first, rest) = >>=-eq-ok _ _ e in
      let (pending, w₂, _, applied) = >>=-eq-ok _ _ first in
      checkpoint-apply_all changes r₁ w₁ rest
      ∙ checkpoint-apply_checked entry report pending w₂ applied

  -- After a pull from a hub its stored checkpoint is the reported one, if the pull succeeds, and the
  -- one before the pull, however it fails.
  pub checkpoint-pull_from :
      (w : World P) → ck (pull_from P h w).1 ≡ checkpoint_left (pull_from P h w).0 (ck w)
  unfolding pull_from
  checkpoint-pull_from w =
      after_keeping (Left old) (λ _ _ k. k.holds) (λ _ k. k.holds) _ _ w
        (MetaIs-get P L key old key) (record { holds = refl })
        λ stored w₁ _ k₁.
          after_keeping (Left old) (λ _ _ k. k.holds) (λ _ k. k.holds) _ _ w₁
            (MetaIs-on_net P L key old _) k₁
            λ resp w₂ _ k₂.
              after_keeping (Left old) (λ _ _ k. k.holds) (λ _ k. k.holds) _ _ w₂
                (MetaIs-apply_all P L key old other h resp.changes _) k₂
                λ report w₃ e k₃.
                  subst (λ v. Left v (put_report resp.checkpoint report w₃)) k₃.holds
                    (put_checkpoint report resp.checkpoint w₃
                      (checkpoint-apply_all resp.changes (report_for P h resp) w₂ e))
    where
      key : Text
      key = checkpoint_key h.id

      old : Option Bytes
      old = ck w

      other : (path : Text) → key ≢ file_key path
      other path e = file_key-ne-checkpoint_key path h.id (sym e)
