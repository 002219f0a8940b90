-- ===== src/Tests/Tools.antt =====
-- The tools, run on little data.
use palmira.Prelude.{
  ℕ, ◌≡◌, refl, true, false, List, [], ◌∷◌, Option, none, some, ok, if◌then◌else◌, arith,
}
use palmira.Values.{Bytes, bytes_of, entry, key_charstr, z_charstr, no_entry}
use palmira.Document.{Paragraph, wide, same_bytes}
use palmira.Tools.Indexer.{
  no_archive, archive, no_entries, entry_of, read_zipped, real_id, folder_of, load_string,
  join_blocks, book_metadata, author_of, with_surname, with_nick,
}
use palmira.Tools.Indexer.Texts.{find_tags, load_tags, index_text, parse_texts}
use palmira.Tools.Queue.{Log, put, get, Reach, start, later, put_one, get_one}
use palmira.Tools.Queue.Order.{Ordered, Reach-Ordered}
use palmira.Tools.Sender.{Requests, code_ok, answered, allow, insert, count, answer}
use palmira.Tools.Sender.Throttle.{Bounded, Reach-Bounded}

-- 7 and 8 are put, and 7 is got.
abbrev passed : (s : Log ℕ) × Reach 2 s
unfolding put get
passed = (_, later (later (later start (put_one 7 _ refl)) (put_one 8 _ refl)) (get_one 7 _ refl))

Reach-Ordered_example : Ordered 2 passed.0
Reach-Ordered_example = Reach-Ordered 2 passed.0 passed.1

-- The answer comes before its request is counted.
abbrev hasty :
    (s : Requests) × palmira.Tools.Sender.Reach {E = ℕ} (λ e. true) (λ e. false) (λ e. true) s
unfolding answered
hasty = (
  _,
  palmira.Tools.Sender.later
      (palmira.Tools.Sender.later
        (palmira.Tools.Sender.later
          (palmira.Tools.Sender.later palmira.Tools.Sender.start (allow refl (omega arith)))
          (insert refl))
        (answer code_ok 1 (omega arith)))
      (count refl),
)

Reach-Bounded_example : Bounded hasty.0
Reach-Bounded_example = Reach-Bounded (λ e. true) (λ e. false) (λ e. true) hasty.0 hasty.1

-- A book in an archive, with a title and a surname.
abbrev Book : Type 0
Book = List (Bytes × Bytes)

abbrev tag_of : Book → Bytes → Option Book
unfolding same_bytes
tag_of [] tag = none
tag_of ((k, v) ∷ more) tag =
    let rest = tag_of more tag in
    if same_bytes k tag
    then some (if same_bytes tag (bytes_of "author") then more else (tag, v) ∷ [])
    else rest

abbrev blocks_of : Book → List Paragraph
blocks_of [] = []
blocks_of ((k, v) ∷ more) = wide v ∷ []

abbrev book : Book
book =
    (bytes_of "book-title", bytes_of "Dom")
    ∷ (bytes_of "author", [])
    ∷ (bytes_of "last-name", bytes_of "Astafiev")
    ∷ []

book_indexed : index_text tag_of blocks_of (λ w. w) (λ e s. s) (bytes_of "a.fb2", book) ≡ (
  bytes_of "a.fb2",
  book,
  entry
      (key_charstr (bytes_of "title"))
      (z_charstr (bytes_of "Dom"))
      (entry (key_charstr (bytes_of "author")) (z_charstr (bytes_of "Astafiev")) no_entry),
)
unfolding index_text load_tags find_tags load_string join_blocks book_metadata author_of
    with_surname with_nick same_bytes
book_indexed = refl

archive_parsed :
    parse_texts {X = Bytes}
      (λ path. ok path)
      (λ buf. archive (entry_of (bytes_of "b.fb2") (no_archive buf) no_entries))
      (λ buf. some buf)
      (bytes_of "d/a.zip")
    ≡ (bytes_of "d/b.fb2", bytes_of "d/a.zip") ∷ []
unfolding parse_texts read_zipped real_id folder_of
archive_parsed = refl
