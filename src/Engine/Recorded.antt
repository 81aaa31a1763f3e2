-- ===== src/Engine/Recorded.antt =====
-- What the recording of a local change leaves in the stores and in the queue (`record_upsert`,
-- `record_delete`, `upsert_pending`, crates/client-core/src/engine.rs).
use mathlib.Core.Path.{subst}
use sync_stuff_opinionated.Base.{
  ◌≡◌, refl, sym, ap, ◌∙◌, Option, none, some, List, [], ◌∷◌, ◌++◌, arith, if◌then◌else◌,
}
use sync_stuff_opinionated.Base.Text.{Text, Bytes, ◌==◌}
use sync_stuff_opinionated.Base.Int.{ℤ}
use sync_stuff_opinionated.Base.Effect.{Eff, Result, ok, err, panic, >>=-eq-ok, Keeps}
use sync_stuff_opinionated.Protocol.{HubError}
use sync_stuff_opinionated.Store.{StoreError}
use sync_stuff_opinionated.Engine.Types.{
  key_pending, file_key, SyncError, PendingChange, Platform, World, SyncEngine, IsPlatform,
}
use sync_stuff_opinionated.Engine.Keys.{file_key-ne-key_pending, file_key_injective}
use sync_stuff_opinionated.Engine.Queue.{
  Action, on_meta, on_files, on_net, load_pending, upsert_pending, retain_others, decode_pending,
  unwrap_or,
}
use sync_stuff_opinionated.Engine.Queues.{queue, load_pending_ok}
use sync_stuff_opinionated.Engine.Frame.{
  MetaIs, FileIs, MetaIs-get, MetaIs-on_files, MetaIs-load_pending, FileIs-on_meta,
  FileIs-load_pending,
}
use sync_stuff_opinionated.Engine.Pull.{notify}
use sync_stuff_opinionated.Engine.Push.{report, reported}

module _ (P : Platform) where
  pub net-on_meta :
      {A : Type 0} (m : Eff P.meta.State StoreError A) (w : World P) {r : Result SyncError A}
      {w' : World P}
      → on_meta P m w ≡ (r, w')
      → w'.net ≡ w.net
  unfolding on_meta
  net-on_meta {A} m w e = ap (λ (out : Result SyncError A × World P). out.1.net) (sym e)

module _ (P : Platform) (L : IsPlatform P) where
  pub files-on_net :
      {A : Type 0} (m : Eff P.Net HubError A) (w : World P) {r : Result SyncError A} {w' : World P}
      → on_net P m w ≡ (r, w')
      → (j : Text) → L.files_view w'.files j ≡ L.files_view w.files j
  unfolding on_net
  files-on_net {A} m w e j =
      ap (λ (out : Result SyncError A × World P). L.files_view out.1.files j) (sym e)

  pub meta-on_net :
      {A : Type 0} (m : Eff P.Net HubError A) (w : World P) {r : Result SyncError A} {w' : World P}
      → on_net P m w ≡ (r, w')
      → (j : Text) → L.meta_view w'.meta j ≡ L.meta_view w.meta j
  unfolding on_net
  meta-on_net {A} m w e j =
      ap (λ (out : Result SyncError A × World P). L.meta_view out.1.meta j) (sym e)

  -- The stores after a write that succeeded.
  pub on_meta-put_ok :
      (k : Text) (b : Bytes) (w : World P) {w' : World P}
      → on_meta P (P.meta.put k b) w ≡ (ok tt, w')
      → (j : Text) → L.meta_view w'.meta j ≡ (if j == k then some b else L.meta_view w.meta j)
  unfolding on_meta
  on_meta-put_ok k b w e j = ground (arith, (L.meta_laws.puts k b).written w.meta j)

  pub on_meta-delete_ok :
      (k : Text) (w : World P) {w' : World P}
      → on_meta P (P.meta.delete k) w ≡ (ok tt, w')
      → (j : Text) → L.meta_view w'.meta j ≡ (if j == k then none else L.meta_view w.meta j)
  unfolding on_meta
  on_meta-delete_ok k w e j = ground (arith, (L.meta_laws.deletes k).written w.meta j)

  pub on_files-put_ok :
      (k : Text) (b : Bytes) (mtime : ℤ) (w : World P) {w' : World P}
      → on_files P (P.files.put k b mtime) w ≡ (ok tt, w')
      → (j : Text) → L.files_view w'.files j ≡ (if j == k then some b else L.files_view w.files j)
  unfolding on_files
  on_files-put_ok k b mtime w e j = ground (arith, (L.files_laws.puts k b mtime).written w.files j)

  pub on_files-delete_ok :
      (k : Text) (w : World P) {w' : World P}
      → on_files P (P.files.delete k) w ≡ (ok tt, w')
      → (j : Text) → L.files_view w'.files j ≡ (if j == k then none else L.files_view w.files j)
  unfolding on_files
  on_files-delete_ok k w e j = ground (arith, (L.files_laws.deletes k).written w.files j)

  -- The world after an action that only touches the metadata store, at the file store.
  pub same_files :
      {A : Type 0} (m : Action P A) (w : World P) {r : Result SyncError A} {w' : World P}
      → ((j : Text) → Keeps (FileIs P L j (L.files_view w.files j)) m)
      → m w ≡ (r, w')
      → (j : Text) → L.files_view w'.files j ≡ L.files_view w.files j
  same_files {A} m w keeps e j =
      subst
        (λ (out : Result SyncError A × World P).
          L.files_view out.1.files j ≡ L.files_view w.files j)
        e ((keeps j).at w (record { holds = refl })).holds

  pub same_meta :
      {A : Type 0} (m : Action P A) (w : World P) {r : Result SyncError A} {w' : World P}
      → ((j : Text) → Keeps (MetaIs P L j (L.meta_view w.meta j)) m)
      → m w ≡ (r, w')
      → (j : Text) → L.meta_view w'.meta j ≡ L.meta_view w.meta j
  same_meta {A} m w keeps e j =
      subst
        (λ (out : Result SyncError A × World P). L.meta_view out.1.meta j ≡ L.meta_view w.meta j) e
        ((keeps j).at w (record { holds = refl })).holds

  pub files-on_meta :
      {A : Type 0} (m : Eff P.meta.State StoreError A) (w : World P) {r : Result SyncError A}
      {w' : World P}
      → on_meta P m w ≡ (r, w')
      → (j : Text) → L.files_view w'.files j ≡ L.files_view w.files j
  files-on_meta m w e = same_files (on_meta P m) w (λ j. FileIs-on_meta P L j _ m) e

  pub meta-on_files :
      {A : Type 0} (m : Eff P.files.State StoreError A) (w : World P) {r : Result SyncError A}
      {w' : World P}
      → on_files P m w ≡ (r, w')
      → (j : Text) → L.meta_view w'.meta j ≡ L.meta_view w.meta j
  meta-on_files m w e = same_meta (on_files P m) w (λ j. MetaIs-on_files P L j _ m) e

  pub meta-get :
      (k : Text) (w : World P) {r : Result SyncError (Option Bytes)} {w' : World P}
      → on_meta P (P.meta.get k) w ≡ (r, w')
      → (j : Text) → L.meta_view w'.meta j ≡ L.meta_view w.meta j
  meta-get k w e = same_meta (on_meta P (P.meta.get k)) w (λ j. MetaIs-get P L j _ k) e

  -- A change that was queued has taken the place of every older change of its path.
  pub upsert_pending_ok :
      (change : PendingChange) (w : World P) {w' : World P}
      → upsert_pending P change w ≡ (ok tt, w')
      → (queue P L w' ≡ retain_others change.path (queue P L w) ++ change ∷ [])
        × ((j : Text) → L.files_view w'.files j ≡ L.files_view w.files j)
        × ((j : Text) → L.meta_view w'.meta (file_key j) ≡ L.meta_view w.meta (file_key j))
  unfolding upsert_pending
  upsert_pending_ok change w {w'} e =
      let (pending, w₁, loaded, stored) = >>=-eq-ok _ _ e in
      let new = retain_others change.path pending ++ change ∷ [] in
      let files = same_files (load_pending P) w (λ j. FileIs-load_pending P L j _) loaded in
      let meta = same_meta (load_pending P) w (λ j. MetaIs-load_pending P L j _) loaded in
      let put = on_meta-put_ok key_pending (P.pending.encode new) w₁ stored in
      let put_self : L.meta_view w'.meta key_pending ≡ some (P.pending.encode new) =
        ground (arith, put key_pending) in
      let q : pending ≡ queue P L w =
        load_pending_ok P L w
          (ap (λ (out : Result SyncError (List PendingChange) × World P). out.0) loaded) in
      (
        ap (decode_pending P) (put_self)
            ∙ ap (λ o. unwrap_or o []) (L.pending_back new)
            ∙ ap (λ l. retain_others change.path l ++ change ∷ []) q,
        λ j.
            same_files (on_meta P (P.meta.put key_pending _)) w₁ (λ i. FileIs-on_meta P L i _ _)
              stored j
            ∙ files j,
        λ j. ground (arith, put (file_key j), file_key-ne-key_pending j) ∙ meta (file_key j),
      )

  pub report-ok :
      {A : Type 0} (engine : SyncEngine P) (m : Action P A) (w : World P) {a : A} {w' : World P}
      → report P engine m w ≡ (ok a, w')
      → m w ≡ (ok a, w')
  unfolding report notify
  report-ok {A} engine m w {a} {w'} e = onward (m w).0 (m w).1 refl e
    where
      onward :
          (r : Result SyncError A) (v : World P)
          → m w ≡ (r, v)
          → reported P engine r v ≡ (ok a, w')
          → m w ≡ (ok a, w')
      onward (ok b) v f g = f ∙ g
      onward (err x) v f g = ground (arith, g)
      onward panic v f g = cc

  -- What a recorded change leaves: the queue has the change last, in the place of the older changes
  -- of its path; the path has the new content and metadata, and every other path has what it had.
  pub record Recorded (change : PendingChange) (content meta : Option Bytes) (w w' : World P)
      : Type 0 where
    pub queued : queue P L w' ≡ retain_others change.path (queue P L w) ++ change ∷ []
    pub files :
        (j : Text)
        → L.files_view w'.files j ≡ (if j == change.path then content else L.files_view w.files j)
    pub known :
        (j : Text)
        → L.meta_view w'.meta (file_key j)
          ≡ (if j == change.path then meta else L.meta_view w.meta (file_key j))

  pub Recorded-steps :
      (change : PendingChange) (content meta : Option Bytes) (w w₁ w₂ w₃ w' : World P)
      → ((j : Text) → L.meta_view w₁.meta j ≡ L.meta_view w.meta j)
      → ((j : Text) → L.files_view w₁.files j ≡ L.files_view w.files j)
      → ((j : Text) → L.meta_view w₂.meta j ≡ L.meta_view w₁.meta j)
      → ((j : Text)
          → L.files_view w₂.files j
            ≡ (if j == change.path then content else L.files_view w₁.files j))
      → ((j : Text)
          → L.meta_view w₃.meta j
            ≡ (if j == file_key change.path then meta else L.meta_view w₂.meta j))
      → ((j : Text) → L.files_view w₃.files j ≡ L.files_view w₂.files j)
      → upsert_pending P change w₃ ≡ (ok tt, w')
      → Recorded change content meta w w'
  Recorded-steps change content meta w w₁ w₂ w₃ w' m₁ f₁ m₂ f₂ m₃ f₃ e =
      let (queued, files, known) = upsert_pending_ok change w₃ e in
      record {
        queued =
            queued ∙ ap (λ o. retain_others change.path (decode_pending P o) ++ change ∷ []) same;
        files = λ j. ground (arith, files j, f₃ j, f₂ j, f₁ j);
        known = λ j. ground (
          arith,
          known j,
          m₃ (file_key j),
          m₂ (file_key j),
          m₁ (file_key j),
          ap file_key {x = j} {y = change.path},
          file_key_injective j change.path,
        );
      }
    where
      same : L.meta_view w₃.meta key_pending ≡ L.meta_view w.meta key_pending
      same = ground (
        arith,
        m₃ key_pending,
        m₂ key_pending,
        m₁ key_pending,
        λ (x : key_pending ≡ file_key change.path). file_key-ne-key_pending change.path (sym x),
      )
