-- ===== src/Routes/Listed.antt =====
-- What the changes routes answer (`to_response`, `get_changes_longpoll`,
-- crates/hub-api/src/routes/changes.rs).
use sync_stuff_opinionated.Base.{
  ℕ, ◌≤◌, ◌<◌, ◌≡◌, refl, ◌≢◌, ◌⊎◌, inl, inr, false, Option, none, some, List, [], ◌∷◌, Bool-cases,
  ap, nat_beq, arith,
}
use sync_stuff_opinionated.Base.Text.{Text, starts_with}
use sync_stuff_opinionated.Base.Lists.{retain, filter_map}
use sync_stuff_opinionated.Base.Effect.{Result, ok, err, panic, pure, ◌>>=◌}
use sync_stuff_opinionated.Protocol.{ChangeEntry, ChangesResponse}
use sync_stuff_opinionated.Couch.{CouchError, RawRev, RawChangesResponse, Backend}
use sync_stuff_opinionated.Engine.Queue.{unwrap_or}
use sync_stuff_opinionated.Routes.{ApiError, api_error}
use sync_stuff_opinionated.Routes.Changes.{
  clamp_timeout, Row, is_user_row, entry_of, seq_to_checkpoint, to_response, get_changes_longpoll,
}

-- The document has an id that does not start with an underscore.
abbrev pub IsUserId : Text → Type 0
IsUserId [] = Unit
IsUserId (c ∷ cs) = c ≢ 95

module _ (B : Backend) where
  -- The entries for the rows, in their order: none for a document whose id starts with an
  -- underscore or that has no revision, and else the path, the deletion and the first revision.
  pub data Lists : List (Row B) → List ChangeEntry → Type 0 where
    done : Lists [] []
    hidden :
        (row : Row B) (rest : Text) {rows : List (Row B)} {entries : List ChangeEntry}
        → row.id ≡ 95 ∷ rest
        → Lists rows entries
        → Lists (row ∷ rows) entries
    unrevised :
        (row : Row B) {rows : List (Row B)} {entries : List ChangeEntry}
        → row.changes ≡ []
        → Lists rows entries
        → Lists (row ∷ rows) entries
    listed :
        (row : Row B) (first : RawRev) (revs : List RawRev) (entry : ChangeEntry)
        {rows : List (Row B)} {entries : List ChangeEntry}
        → IsUserId row.id
        → row.changes ≡ first ∷ revs
        → entry.path ≡ row.id
        → entry.deleted ≡ row.deleted
        → entry.rev ≡ first.rev
        → Lists rows entries
        → Lists (row ∷ rows) (entry ∷ entries)

  -- The sequence as it stands if it is a string, and else its JSON text.
  abbrev pub IsCheckpoint : B.json.Value → Text → Type 0
  IsCheckpoint seq checkpoint =
      (B.json.as_str seq ≡ some checkpoint)
      ⊎ ((B.json.as_str seq ≡ none) × (checkpoint ≡ B.json.to_string seq))

  abbrev entries : List (Row B) → List ChangeEntry
  entries rows =
      filter_map (λ (row : Row B). entry_of B row row.changes) (retain (is_user_row B) rows)

  listed_row :
      (row : Row B) (rows : List (Row B))
      → Lists rows (entries rows)
      → Lists (row ∷ rows) (entries (row ∷ rows))
  listed_row row rows rest = onward row.id row.changes
    where
      Onward : Text → List RawRev → Type 0
      Onward id changes =
          let row' : Row B = record row { id = id; changes = changes } in
          Lists (row' ∷ rows) (entries (row' ∷ rows))

      visible :
          (id : Text) (changes : List RawRev)
          → IsUserId id
          → starts_with id (95 ∷ []) ≡ false
          → Onward id changes
      visible id [] u e = rw e (unrevised _ refl rest)
      visible id (first ∷ revs) u e = rw e (listed _ first revs _ u refl refl refl refl rest)

      onward : (id : Text) (changes : List RawRev) → Onward id changes
      onward [] changes = visible [] changes tt refl
      onward (c ∷ cs) changes = elim (Bool-cases (nat_beq c 95)) [
        | inl e ↦
            let under : c ∷ cs ≡ 95 ∷ cs = ap (λ n. n ∷ cs) (ground (arith, e)) in
            rw e (hidden _ cs under rest)
        | inr e ↦ visible (c ∷ cs) changes (λ same. cc) (rw e refl)
      ]

  listed_rows : (rows : List (Row B)) → Lists rows (entries rows)
  listed_rows [] = done
  listed_rows (row ∷ rows) = listed_row row rows (listed_rows rows)

  seq_to_checkpoint-IsCheckpoint : (seq : B.json.Value) → IsCheckpoint seq (seq_to_checkpoint B seq)
  seq_to_checkpoint-IsCheckpoint seq = onward (B.json.as_str seq) refl
    where
      onward :
          (s : Option Text)
          → B.json.as_str seq ≡ s
          → (B.json.as_str seq ≡ some (unwrap_or s (B.json.to_string seq)))
            ⊎ ((B.json.as_str seq ≡ none)
                × (unwrap_or s (B.json.to_string seq) ≡ B.json.to_string seq))
      onward none e = inr (e, refl)
      onward (some s) e = inl e

  -- The hub answers with one entry for each changed document whose id does not start with an
  -- underscore and that has a revision, in the order of the database, with the path, whether it was
  -- deleted and the first revision, and with the checkpoint up to which the changes go.
  pub to_response-Lists :
      (raw : RawChangesResponse B.json.Value)
      → Lists raw.results (to_response B raw).changes
        × IsCheckpoint raw.last_seq (to_response B raw).checkpoint
  unfolding to_response
  to_response-Lists raw = (listed_rows raw.results, seq_to_checkpoint-IsCheckpoint raw.last_seq)

  -- The reply to a long poll, from the answer of the database.
  abbrev pub longpoll_reply :
      Result CouchError (RawChangesResponse B.json.Value) → Result ApiError ChangesResponse
  longpoll_reply (ok raw) = ok (to_response B raw)
  longpoll_reply (err e) = err (api_error e)
  longpoll_reply panic = panic

  -- A long poll asks the database for the changes since the checkpoint, to wait for between one and
  -- sixty seconds: the time that was asked for, or the nearer bound if it is not in between. The
  -- reply is the answer of the database or its error.
  pub get_changes_longpoll-waits :
      (since : Option Text) (timeout : ℕ) (w : B.World)
      → (t : ℕ) × (1 ≤ t)
        × (t ≤ 60)
        × ((t ≡ timeout) ⊎ ((timeout < 1) × (t ≡ 1)) ⊎ ((60 < timeout) × (t ≡ 60)))
        × ((get_changes_longpoll B since timeout w).0
            ≡ longpoll_reply (B.couch.changes_longpoll since t w).0)
        × ((get_changes_longpoll B since timeout w).1 ≡ (B.couch.changes_longpoll since t w).1)
  unfolding get_changes_longpoll clamp_timeout pure ◌>>=◌
  get_changes_longpoll-waits since timeout w =
      let t = clamp_timeout timeout in
      (t, ground arith, ground arith, ground arith, ground arith, ground arith)
