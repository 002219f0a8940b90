-- ===== src/Document/Trip.antt =====
-- A document that is written to a map and read back.
use palmira.Prelude.{◌≡◌, refl, ap, List, [], ◌∷◌, ok}
use palmira.Document.{
  Paragraph, wide, coded, MarkupTag, Text, same_bytes, same_key, get, write_lines, write_spans,
  serialize, read_lines, read_spans, fetch_from,
}

read-write_lines : (ps : List Paragraph) → read_lines (write_lines ps) ≡ ok ps
unfolding read_lines write_lines get same_key
read-write_lines [] = refl
read-write_lines (wide w ∷ ps) = rw (read-write_lines ps, read_lines)
read-write_lines (coded encoding s ∷ ps) = rw (read-write_lines ps, read_lines)

read-write_spans : (ts : List MarkupTag) → read_spans (write_spans ts) ≡ ts
unfolding read_spans write_spans get same_key same_bytes
read-write_spans [] = refl
read-write_spans (t ∷ ts) = ap (◌∷◌ t) (read-write_spans ts)

-- A document that is written to an empty map and read from it into an empty text is the same document,
-- with every line in its encoding and every mark.
pub fetch_from-serialize : (doc : Text) → fetch_from (serialize doc) ≡ ok doc
unfolding fetch_from serialize get same_key same_bytes
fetch_from-serialize doc = go doc.blocks doc.markup
  where
    go :
        (ps : List Paragraph) (ts : List MarkupTag)
        → fetch_from (serialize (record { blocks = ps; markup = ts }))
          ≡ ok (record { blocks = ps; markup = ts })
    go [] [] = refl
    go [] (t ∷ ts) = rw (read-write_spans (t ∷ ts))
    go (p ∷ ps) [] = rw (read-write_lines (p ∷ ps))
    go (p ∷ ps) (t ∷ ts) = rw (read-write_lines (p ∷ ps), read-write_spans (t ∷ ts))
