-- ===== src/Tests/Codec.antt =====
-- A concrete encoding in the place of `serde_json`, which shows that what the engine relies on can
-- be met: texts with their length in front, lists with their length in front.
use sync_stuff_opinionated.Base.{
  ℕ, zero, suc, ◌≡◌, refl, Bool, true, false, Option, none, some, List, [], ◌∷◌, ◌++◌,
}
use sync_stuff_opinionated.Base.Text.{Text, Bytes}
use sync_stuff_opinionated.Base.Lists.{length}
use sync_stuff_opinionated.Base.Int.{ℤ, pos, negsuc}
use sync_stuff_opinionated.Engine.Types.{FileMeta, PendingChange}

infixl 5 ◌>>=◌
abbrev ◌>>=◌ : {A B : Type 0} → Option A → (A → Option B) → Option B
none >>= f = none
some a >>= f = f a

unfoldable pub split : ℕ → Bytes → Option (Text × Bytes)
split zero b = some ([], b)
split (suc n) [] = none
split (suc n) (c ∷ b) = do (t, rest) ← split n b; some (c ∷ t, rest)

split-append : (t rest : Bytes) → split (length t) (t ++ rest) ≡ some (t, rest)
unfolding split
split-append [] rest = refl
split-append (c ∷ t) rest = rw (split-append t rest)

unfoldable pub put_text : Text → Bytes → Bytes
put_text t rest = length t ∷ (t ++ rest)

unfoldable pub get_text : Bytes → Option (Text × Bytes)
unfolding split
get_text [] = none
get_text (n ∷ b) = split n b

get-put_text : (t rest : Bytes) → get_text (put_text t rest) ≡ some (t, rest)
unfolding put_text get_text
get-put_text t rest = split-append t rest

unfoldable pub put_option : Option Text → Bytes → Bytes
unfolding put_text
put_option none rest = 0 ∷ rest
put_option (some t) rest = 1 ∷ put_text t rest

unfoldable pub get_option : Bytes → Option (Option Text × Bytes)
unfolding get_text
get_option [] = none
get_option (zero ∷ b) = some (none, b)
get_option (suc _ ∷ b) = do (t, rest) ← get_text b; some (some t, rest)

get-put_option : (o : Option Text) (rest : Bytes) → get_option (put_option o rest) ≡ some (o, rest)
unfolding put_option get_option
get-put_option none rest = refl
get-put_option (some t) rest = rw (get-put_text t rest)

unfoldable pub put_int : ℤ → Bytes → Bytes
put_int (pos n) rest = 0 ∷ n ∷ rest
put_int (negsuc n) rest = 1 ∷ n ∷ rest

unfoldable pub get_int : Bytes → Option (ℤ × Bytes)
get_int (zero ∷ n ∷ b) = some (pos n, b)
get_int (suc _ ∷ n ∷ b) = some (negsuc n, b)
get_int _ = none

get-put_int : (z : ℤ) (rest : Bytes) → get_int (put_int z rest) ≡ some (z, rest)
unfolding put_int get_int
get-put_int (pos n) rest = refl
get-put_int (negsuc n) rest = refl

unfoldable pub put_meta : FileMeta → Bytes
unfolding put_text put_int
put_meta m = put_text m.rev (put_int m.mtime (put_text m.content_type []))

unfoldable pub get_meta : Bytes → Option FileMeta
unfolding get_text get_int
get_meta b = do
  (rev, b) ← get_text b
  (mtime, b) ← get_int b
  (content_type, b) ← get_text b
  some (record { rev = rev; mtime = mtime; content_type = content_type })

pub get-put_meta : (m : FileMeta) → get_meta (put_meta m) ≡ some m
unfolding put_meta get_meta
get-put_meta m = rw (get-put_text m.rev, get-put_int m.mtime, get-put_text m.content_type [])

unfoldable pub put_flag : Bool → Bytes → Bytes
put_flag true rest = 1 ∷ rest
put_flag false rest = 0 ∷ rest

unfoldable pub get_flag : Bytes → Option (Bool × Bytes)
get_flag [] = none
get_flag (zero ∷ b) = some (false, b)
get_flag (suc _ ∷ b) = some (true, b)

get-put_flag : (f : Bool) (rest : Bytes) → get_flag (put_flag f rest) ≡ some (f, rest)
unfolding put_flag get_flag
get-put_flag true rest = refl
get-put_flag false rest = refl

unfoldable pub put_change : PendingChange → Bytes → Bytes
unfolding put_text put_flag put_option put_int
put_change c rest =
    put_text c.path (
      put_flag c.deleted (put_option c.base_rev (put_int c.mtime (put_option c.content_type rest))))

unfoldable pub get_change : Bytes → Option (PendingChange × Bytes)
unfolding get_text get_flag get_option get_int
get_change b = do
  (path, b) ← get_text b
  (deleted, b) ← get_flag b
  (base_rev, b) ← get_option b
  (mtime, b) ← get_int b
  (content_type, b) ← get_option b
  some (
    record {
      path = path;
      deleted = deleted;
      base_rev = base_rev;
      mtime = mtime;
      content_type = content_type;
    },
    b,
  )

get-put_change :
    (c : PendingChange) (rest : Bytes) → get_change (put_change c rest) ≡ some (c, rest)
unfolding put_change get_change
get-put_change c rest = rw (
  get-put_text c.path,
  get-put_flag c.deleted,
  get-put_option c.base_rev,
  get-put_int c.mtime,
  get-put_option c.content_type rest,
)

unfoldable pub put_changes : List PendingChange → Bytes
unfolding put_change
put_changes [] = []
put_changes (c ∷ q) = put_change c (put_changes q)

unfoldable pub read_changes : ℕ → Bytes → Option (List PendingChange)
unfolding get_change
read_changes zero b = some []
read_changes (suc n) b = do (c, b) ← get_change b; q ← read_changes n b; some (c ∷ q)

read-put_changes : (q : List PendingChange) → read_changes (length q) (put_changes q) ≡ some q
unfolding put_changes read_changes
read-put_changes [] = refl
read-put_changes (c ∷ q) = rw (get-put_change c (put_changes q), read-put_changes q)

unfoldable pub put_queue : List PendingChange → Bytes
unfolding put_changes
put_queue q = length q ∷ put_changes q

unfoldable pub get_queue : Bytes → Option (List PendingChange)
unfolding read_changes
get_queue [] = none
get_queue (n ∷ b) = read_changes n b

pub get-put_queue : (q : List PendingChange) → get_queue (put_queue q) ≡ some q
unfolding put_queue get_queue
get-put_queue q = read-put_changes q
