-- ===== src/Grpc/Texts.antt =====
-- src/network/grpc/messages.cpp: documents to messages of the protocol, and back. A document is the
-- tree of the calls that DeliriX makes to write it: paragraphs, and tags with what is in them.
pub mod Trip
use palmira.Prelude.{
  ℕ, Bool, true, false, List, [], ◌∷◌, Option, none, some, ◌==◌, if◌then◌else◌, Result, ok, err,
  Exception, ◌>>=◌,
}
use palmira.Values.{Bytes, Wide, Zmap, Metadata}
use palmira.Document.{Paragraph, wide, coded}
use palmira.Grpc.Requests.{check_id, read_metadata, write_metadata}
use palmira.Prelude.Int.{ℤ}

pub data Nodes : Type 0 where
  no_node : Nodes
  paragraph : Paragraph → Nodes → Nodes
  tagged : Bytes → Nodes → Nodes → Nodes

-- grpcttp::Document: elements with a text, with a mark and its items, or without either.
pub data Document : Type 0 where
  no_element : Document
  text_element : Bytes → Document → Document
  mkup_element : Bytes → Document → Document → Document
  mkup_without_items : Bytes → Document → Document
  other_element : Document → Document

-- moonycode's encodings: the number of UTF-8, those that the code names, and the conversions to UTF-8.
pub record Codepages : Type 0 where
  pub utf8 : ℕ
  pub is_named : ℕ → Bool
  pub from_wide : Wide → Bytes
  pub from_coded : ℕ → Bytes → Bytes

module _ (c : Codepages) where
  -- TextOnDocument::AddParagraph: the text of the new element.
  unfoldable pub add_paragraph : Paragraph → Result Bytes
  add_paragraph (wide w) = ok (c.from_wide w)
  add_paragraph (coded encoding s) =
      if c.is_named encoding
      then ok (c.from_coded encoding s)
      else (if encoding == c.utf8
          then ok s
          else err (Exception.invalid_argument "Unknown encoding"))

  -- Convert( grpcttp::Document&, const ITextView& ), by AddParagraph and AddMarkupTag.
  unfoldable pub write_document : Nodes → Result Document
  unfolding add_paragraph
  write_document no_node = ok no_element
  write_document (paragraph p rest) =
      add_paragraph p >>= λ s. write_document rest >>= λ d. ok (text_element s d)
  write_document (tagged tag inside rest) =
      write_document inside >>= λ i. write_document rest >>= λ d. ok (mkup_element tag i d)

  -- Convert( IText&, const grpcttp::Document& )
  unfoldable pub read_document : Document → Nodes
  read_document no_element = no_node
  read_document (text_element s d) = paragraph (coded c.utf8 s) (read_document d)
  read_document (mkup_element tag i d) = tagged tag (read_document i) (read_document d)
  read_document (mkup_without_items tag d) = read_document d
  read_document (other_element d) = read_document d

-- palmira::InsertArgs and grpcttp::InsertArgs.
pub record InsertArgs : Type 0 where
  pub object_id : Bytes
  pub metadata : Zmap
  pub text : Nodes

pub record InsertMessage : Type 0 where
  pub objectid : Bytes
  pub metadata : Option Metadata
  pub document : Option Document

module _ (c : Codepages) (to_utf8 : Wide → Bytes) (float_to_int double_to_int : ℕ → ℤ) where
  -- `if ( src.textview.GetLength() != 0 ) Convert( *out.mutable_document(), src.textview );`
  unfoldable pub write_text : (Nodes → ℕ) → Nodes → Result (Option Document)
  unfolding write_document
  write_text get_length text =
      if get_length text == 0 then ok none else (write_document c text >>= λ d. ok (some d))

  -- Convert( grpcttp::InsertArgs&, const palmira::InsertArgs& )
  unfoldable pub to_insert : (Nodes → ℕ) → InsertArgs → Result InsertMessage
  unfolding write_text check_id write_metadata
  to_insert get_length src = check_id src.object_id (
      write_metadata to_utf8 float_to_int double_to_int src.metadata >>= λ m.
      write_text get_length src.text >>= λ d.
      ok (record { objectid = src.object_id; metadata = m; document = d }))

-- Convert( palmira::InsertArgs&, const grpcttp::InsertArgs& )
unfoldable pub from_insert : Codepages → InsertMessage → Result InsertArgs
unfolding read_document check_id read_metadata
from_insert c src =
    let text : Nodes = elim src.document [ none ↦ no_node | some d ↦ read_document c d ] in
    read_metadata src.metadata >>= λ m.
    check_id src.objectid (ok (record { object_id = src.objectid; metadata = m; text = text }))
