-- ===== src/Tools/Indexer/Texts.antt =====
-- utils/libruseq/local-indexer.cpp, the work of its threads on one archive and on one text.
use palmira.Prelude.{ℕ, List, [], ◌∷◌, Option, none, some, Result, ok, err}
use palmira.Values.{Bytes, Wide, bytes_of, Zmap}
use palmira.Document.{Paragraph}
use palmira.Tools.Indexer.{Packed, read_zipped, load_string, book_metadata}

-- The texts of DeliriX, `X`, with the search for a tag within one.
module _ {X : Type 0} (find_first : X → Bytes → Option X) (get_blocks : X → List Paragraph)
    (from_wide : Wide → Bytes) (from_coded : ℕ → Bytes → Bytes) where
  -- The loop over `tags`: each within the one before.
  unfoldable pub find_tags : X → List Bytes → Option X
  find_tags tag [] = some tag
  find_tags tag (t ∷ ts) = elim (find_first tag t) [ none ↦ none | some found ↦ find_tags found ts ]

  -- LoadString
  unfoldable pub load_tags : X → List Bytes → Bytes
  unfolding find_tags load_string
  load_tags text tags = elim (find_tags text tags) [
    | none ↦ load_string from_wide from_coded none
    | some tag ↦ load_string from_wide from_coded (some (get_blocks tag))
  ]

  -- The round of IndexTexts: what is inserted of a text.
  unfoldable pub index_text : Bytes × X → Bytes × X × Zmap
  unfolding load_tags book_metadata
  index_text (id, text) = (
    id,
    text,
    book_metadata (load_tags text (bytes_of "book-title" ∷ []))
        (load_tags text (bytes_of "author" ∷ bytes_of "first-name" ∷ []))
        (load_tags text (bytes_of "author" ∷ bytes_of "last-name" ∷ []))
        (load_tags text (bytes_of "author" ∷ bytes_of "nickname" ∷ [])),
  )

-- The round of ParseTexts: what is put into the queue of texts of a file, nothing if it cannot be loaded. `open_zip` stands for
-- what DeliriX makes of its bytes.
unfoldable pub parse_texts :
    {X : Type 0} (load_file : Bytes → Result Bytes) (open_zip : Bytes → Packed)
    (parse_fb2 : Bytes → Option X)
    → Bytes
    → List (Bytes × X)
unfolding read_zipped
parse_texts load_file open_zip parse_fb2 source_id = elim (load_file source_id) [
  | err e ↦ []
  | ok buf ↦ read_zipped parse_fb2 (open_zip buf) source_id
]
