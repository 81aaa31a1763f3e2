-- ===== src/Engine/Frame.antt =====
-- Which entries of the stores the actions of the engine leave alone, whatever their outcome.
use sync_stuff_opinionated.Base.{◌≡◌, ◌≢◌, Option, arith, Bool, true, false, if◌then◌else◌}
use sync_stuff_opinionated.Base.Text.{Text, Bytes}
use sync_stuff_opinionated.Base.Int.{ℤ}
use sync_stuff_opinionated.Base.Effect.{Eff, Keeps, keeps_rules}
use sync_stuff_opinionated.Protocol.{HubError}
use sync_stuff_opinionated.Store.{StoreError}
use sync_stuff_opinionated.Engine.Types.{Platform, World, IsPlatform}
use sync_stuff_opinionated.Engine.Queue.{on_meta, on_files, on_net, load_pending}

pub Keeps-if :
    {W E A : Type 0} {Q : W → Type 0} (b : Bool) (m n : Eff W E A)
    → Keeps Q m
    → Keeps Q n
    → Keeps Q (if b then m else n)
Keeps-if true m n km kn = km
Keeps-if false m n km kn = kn

module _ (P : Platform) (L : IsPlatform P) where
  -- The entry of a key in the metadata store.
  pub record MetaIs (k : Text) (v : Option Bytes) (w : World P) : Type 0 where
    pub holds : L.meta_view w.meta k ≡ v

  -- The content of a path in the file store.
  pub record FileIs (path : Text) (v : Option Bytes) (w : World P) : Type 0 where
    pub holds : L.files_view w.files path ≡ v

  module _ (k : Text) (v : Option Bytes) where
    pub MetaIs-get : (j : Text) → Keeps (MetaIs k v) (on_meta P (P.meta.get j))
    unfolding on_meta
    MetaIs-get j = record {
      at = λ w h. record { holds = rw (L.meta_laws.reads.same w.meta j k) h.holds };
    }

    pub MetaIs-list_keys :
        (prefix : Text) → Keeps (MetaIs k v) (on_meta P (P.meta.list_keys prefix))
    unfolding on_meta
    MetaIs-list_keys prefix = record {
      at = λ w h. record { holds = rw (L.meta_laws.lists prefix w.meta k) h.holds };
    }

    pub MetaIs-put :
        (j : Text) (b : Bytes) → k ≢ j → Keeps (MetaIs k v) (on_meta P (P.meta.put j b))
    unfolding on_meta
    MetaIs-put j b differs = record {
      at = λ w h. record {
        holds = ground (arith, (L.meta_laws.puts j b).written w.meta k, h.holds);
      };
    }

    pub MetaIs-delete : (j : Text) → k ≢ j → Keeps (MetaIs k v) (on_meta P (P.meta.delete j))
    unfolding on_meta
    MetaIs-delete j differs = record {
      at = λ w h. record {
        holds = ground (arith, (L.meta_laws.deletes j).written w.meta k, h.holds);
      };
    }

    pub MetaIs-on_files :
        {A : Type 0} (m : Eff P.files.State StoreError A) → Keeps (MetaIs k v) (on_files P m)
    unfolding on_files
    MetaIs-on_files m = record { at = λ w h. record { holds = h.holds } }

    pub MetaIs-on_net : {A : Type 0} (m : Eff P.Net HubError A) → Keeps (MetaIs k v) (on_net P m)
    unfolding on_net
    MetaIs-on_net m = record { at = λ w h. record { holds = h.holds } }

    pub MetaIs-load_pending : Keeps (MetaIs k v) (load_pending P)
    unfolding load_pending
    MetaIs-load_pending = search (keeps_rules, MetaIs-get)

  module _ (path : Text) (v : Option Bytes) where
    pub FileIs-get : (q : Text) → Keeps (FileIs path v) (on_files P (P.files.get q))
    unfolding on_files
    FileIs-get q = record {
      at = λ w h. record { holds = rw (L.files_laws.reads.same w.files q path) h.holds };
    }

    pub FileIs-put :
        (q : Text) (b : Bytes) (mtime : ℤ)
        → path ≢ q
        → Keeps (FileIs path v) (on_files P (P.files.put q b mtime))
    unfolding on_files
    FileIs-put q b mtime differs = record {
      at = λ w h. record {
        holds = ground (arith, (L.files_laws.puts q b mtime).written w.files path, h.holds);
      };
    }

    pub FileIs-delete :
        (q : Text) → path ≢ q → Keeps (FileIs path v) (on_files P (P.files.delete q))
    unfolding on_files
    FileIs-delete q differs = record {
      at = λ w h. record {
        holds = ground (arith, (L.files_laws.deletes q).written w.files path, h.holds);
      };
    }

    pub FileIs-on_meta :
        {A : Type 0} (m : Eff P.meta.State StoreError A) → Keeps (FileIs path v) (on_meta P m)
    unfolding on_meta
    FileIs-on_meta m = record { at = λ w h. record { holds = h.holds } }

    pub FileIs-on_net : {A : Type 0} (m : Eff P.Net HubError A) → Keeps (FileIs path v) (on_net P m)
    unfolding on_net
    FileIs-on_net m = record { at = λ w h. record { holds = h.holds } }

    pub FileIs-load_pending : Keeps (FileIs path v) (load_pending P)
    unfolding load_pending
    FileIs-load_pending = search (keeps_rules, FileIs-on_meta)
