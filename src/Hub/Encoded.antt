-- ===== src/Hub/Encoded.antt =====
-- The path in the URL of a file keeps its segments (`encode_path`, crates/client-core/src/hub.rs).
use sync_stuff_opinionated.Base.{◌≡◌, refl, ap, ◌∙◌, false, List, [], ◌∷◌, map}
use sync_stuff_opinionated.Base.Text.{Text}
use sync_stuff_opinionated.Base.Lists.{All}
use sync_stuff_opinionated.Base.Split.{split, join, join-split, split-join, split-more, more, has}
use sync_stuff_opinionated.Hub.{slash, encode_path}

module _ (encode decode : Text → Text) (back : (text : Text) → decode (encode text) ≡ text)
    (free : (text : Text) → has slash (encode text) ≡ false) where
  more-map : (f : Text → Text) (parts : List Text) → more (map f parts) ≡ more parts
  more-map f [] = refl
  more-map f (part ∷ parts) = refl

  encoded_free : (parts : List Text) → All (λ part. has slash part ≡ false) (map encode parts)
  encoded_free [] = tt
  encoded_free (part ∷ parts) = (free part, encoded_free parts)

  map-back : (parts : List Text) → map decode (map encode parts) ≡ parts
  map-back [] = refl
  map-back (part ∷ parts) = cc (back part, map-back parts)

  -- If the encoding of a segment can be decoded and has no slash, the segments of an encoded path
  -- are the encoded segments of the path, and decoding them gives the path back.
  pub decode-encode_path :
      (path : Text)
      → (split slash (encode_path encode path) ≡ map encode (split slash path))
        × (join slash (map decode (split slash (encode_path encode path))) ≡ path)
  decode-encode_path path =
      let segments : split slash (encode_path encode path) ≡ map encode (split slash path) =
        split-join slash (map encode (split slash path))
          (more-map encode (split slash path) ∙ split-more slash path)
          (encoded_free (split slash path)) in
      (
        segments,
        ap (λ parts. join slash (map decode parts)) segments
            ∙ ap (join slash) (map-back (split slash path))
            ∙ join-split slash path,
      )
