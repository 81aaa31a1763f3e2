-- ===== src/Routes/File.antt =====
-- `GET /file/{path}` (crates/hub-api/src/routes/file.rs), with the headers as a record.
use sync_stuff_opinionated.Base.{Option, none, some, [], ◌++◌}
use sync_stuff_opinionated.Base.Text.{Text, Bytes, codes}
use sync_stuff_opinionated.Base.Int.{ℤ, pos}
use sync_stuff_opinionated.Base.Effect.{Eff, pure, fail, ◌>>=◌, with_err}
use sync_stuff_opinionated.Engine.Queue.{unwrap_or, and_then, octet_stream}
use sync_stuff_opinionated.Couch.{Backend}
use sync_stuff_opinionated.Resolver.Resolve.{text_field, doc_rev}
use sync_stuff_opinionated.Routes.{ApiError, api_error}

-- The body of the response, and the values of its headers: a value that is not allowed in a header
-- is replaced.
pub record FileResponse : Type 0 where
  pub content_type : Text
  pub rev : Text
  pub mtime : ℤ
  pub content : Bytes

abbrev pub no_such_file : Text → ApiError
no_such_file path = record { status = 404; message = codes "no such file: " ++ path }

-- `header_value` is `HeaderValue::from_str`, as far as it refuses texts.
module _ (B : Backend) (header_value : Text → Option Text) where
  abbrev pub found_doc : Text → Option B.json.Value → Eff B.World ApiError B.json.Value
  found_doc path none = fail (no_such_file path)
  found_doc path (some doc) = pure doc

  abbrev pub file_response : B.json.Value → Bytes → FileResponse
  file_response doc content = record {
    content_type =
        unwrap_or (header_value (unwrap_or (text_field B doc "content_type") octet_stream))
          octet_stream;
    rev = unwrap_or (header_value (doc_rev B doc)) [];
    mtime = unwrap_or (and_then (B.json.get doc (codes "mtime")) B.json.as_i64) (pos 0);
    content = content;
  }

  -- `get_attachment` reads the winning revision.
  unfoldable pub get_file : Text → Eff B.World ApiError FileResponse
  get_file path = do
    found ← with_err api_error (B.couch.get_doc path)
    doc ← found_doc path found
    content ← with_err api_error (B.couch.get_attachment_at_rev path (codes "content") none)
    pure (file_response doc content)
