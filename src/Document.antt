-- ===== src/Document.antt =====
-- src/objects/doc-zmap.cpp: documents as maps, and the output of quotations.
pub mod Trip
pub mod Tags
pub mod Same
use palmira.Prelude.{
  ℕ, Bool, true, false, List, [], ◌∷◌, Option, none, some, ◌==◌, ◌&&◌, if◌then◌else◌, Result, ok,
  err, Exception, ◌>>=◌,
}
use palmira.Values.{
  Bytes, Wide, Key, key_charstr, key_other, Zval, Zmap, Zmaps, Zvals, no_entry, entry, no_zmap,
  next_zmap, no_zval, next_zval, z_untyped, z_charstr, z_widestr, z_word32, z_zmap, z_array_zval,
  z_array_zmap,
}

-- DeliriX's Paragraph: a wide string, or a string in an encoding; MarkupTag; and Text.
pub data Paragraph : Type 0 where
  wide : Wide → Paragraph
  coded : (encoding : ℕ) → Bytes → Paragraph

pub record MarkupTag : Type 0 where
  pub tag_key : Bytes
  pub u_lower : ℕ
  pub u_upper : ℕ

pub record Text : Type 0 where
  pub blocks : List Paragraph
  pub markup : List MarkupTag

-- Keys are compared by their bytes.
unfoldable pub same_bytes : Bytes → Bytes → Bool
same_bytes [] [] = true
same_bytes [] (b ∷ bs) = false
same_bytes (a ∷ s) [] = false
same_bytes (a ∷ s) (b ∷ bs) = (a == b) && same_bytes s bs

unfoldable pub same_key : Key → Key → Bool
unfolding same_bytes
same_key (key_charstr a) (key_charstr b) = same_bytes a b
same_key (key_other a) (key_other b) = a == b
same_key _ _ = false

-- `get( key )` of a map, and its forms with a type and a default.
unfoldable pub get : Key → Zmap → Option Zval
unfolding same_key
get k no_entry = none
get k (entry k' v m) = let rest = get k m in if same_key k' k then some v else rest

abbrev pub charstr_or : Option Zval → Bytes → Bytes
charstr_or (some (z_charstr s)) other = s
charstr_or _ other = other

abbrev pub word32_or : Option Zval → ℕ → ℕ
word32_or (some (z_word32 n)) other = n
word32_or _ other = other

-- "lines", "spans", "f", "l" and "h".
abbrev pub lines : Key
lines = key_charstr (108 ∷ 105 ∷ 110 ∷ 101 ∷ 115 ∷ [])

abbrev pub spans : Key
spans = key_charstr (115 ∷ 112 ∷ 97 ∷ 110 ∷ 115 ∷ [])

abbrev pub key_f : Key
key_f = key_charstr (102 ∷ [])

abbrev pub key_l : Key
key_l = key_charstr (108 ∷ [])

abbrev pub key_h : Key
key_h = key_charstr (104 ∷ [])

-- The lines of Serialize.
unfoldable pub write_lines : List Paragraph → Zvals
write_lines [] = no_zval
write_lines (wide w ∷ ps) = next_zval (z_widestr w) (write_lines ps)
write_lines (coded encoding s ∷ ps) =
    next_zval
      (z_zmap
        (entry (key_other 0) (z_charstr s) (entry (key_other 1) (z_word32 encoding) no_entry)))
      (write_lines ps)

unfoldable pub write_spans : List MarkupTag → Zmaps
write_spans [] = no_zmap
write_spans (t ∷ ts) =
    next_zmap
      (entry key_f (z_charstr t.tag_key)
        (entry key_l (z_word32 t.u_lower) (entry key_h (z_word32 t.u_upper) no_entry)))
      (write_spans ts)

-- Serialize( mtc::zmap&, const ITextView& ), to an empty map.
unfoldable pub serialize : Text → Zmap
unfolding write_lines write_spans
serialize doc =
    let with_spans : Zmap = elim doc.markup [
      | [] ↦ no_entry
      | (t ∷ ts) ↦ entry spans (z_array_zmap (write_spans (t ∷ ts))) no_entry
    ] in
    elim doc.blocks [
      | [] ↦ with_spans
      | (p ∷ ps) ↦ entry lines (z_array_zval (write_lines (p ∷ ps))) with_spans
    ]

-- The lines of FetchFrom.
unfoldable pub read_lines : Zvals → Result (List Paragraph)
read_lines no_zval = ok []
read_lines (next_zval (z_widestr w) vs) = read_lines vs >>= λ ps. ok (wide w ∷ ps)
read_lines (next_zval (z_zmap m) vs) = read_lines vs >>= λ ps.
    ok (coded (word32_or (get (key_other 1) m) 0) (charstr_or (get (key_other 0) m) []) ∷ ps)
read_lines (next_zval _ vs) = err (Exception.invalid_argument "invalid line struct passed")

unfoldable pub read_spans : Zmaps → List MarkupTag
read_spans no_zmap = []
read_spans (next_zmap m ms) =
    record {
      tag_key = charstr_or (get key_f m) [];
      u_lower = word32_or (get key_l m) 0;
      u_upper = word32_or (get key_h m) 0;
    }
    ∷ read_spans ms

-- FetchFrom( const mtc::zmap&, Text& ), to an empty text.
unfoldable pub fetch_from : Zmap → Result Text
unfolding read_lines read_spans
fetch_from m = found_lines (get lines m) >>= λ ps.
    ok (record { blocks = ps; markup = found_spans (get spans m) })
  where
    found_lines : Option Zval → Result (List Paragraph)
    found_lines (some (z_array_zval vs)) = read_lines vs
    found_lines _ = ok []

    found_spans : Option Zval → List MarkupTag
    found_spans (some (z_array_zmap ms)) = read_spans ms
    found_spans _ = []

-- UtfStr: the string in UTF-8. `utf8` is the number of that encoding.
unfoldable pub utf_str : (Wide → Bytes) → (ℕ → Bytes → Bytes) → ℕ → Paragraph → Bytes
utf_str to_utf8 recode utf8 (wide w) = to_utf8 w
utf_str to_utf8 recode utf8 (coded encoding s) = if encoding == utf8 then s else recode encoding s

-- A value at the end of an array.
unfoldable pub push_back : Zvals → Zval → Zvals
push_back no_zval v = next_zval v no_zval
push_back (next_zval u vs) v = next_zval u (push_back vs v)

-- What ZmapTag::AddParagraph and AddMarkupTag do to `val` with the new element.
unfoldable pub add_element : Zval → Zval → Zval
unfolding push_back
add_element (z_array_zval vs) new = z_array_zval (push_back vs new)
add_element (z_charstr s) new = z_array_zval (next_zval (z_charstr s) (next_zval new no_zval))
add_element (z_widestr w) new = z_array_zval (next_zval (z_widestr w) (next_zval new no_zval))
add_element (z_zmap m) new = z_array_zval (next_zval (z_zmap m) (next_zval new no_zval))
add_element _ new = new

-- ZmapTag::AddParagraph
unfoldable pub add_paragraph : Zval → Bytes → Zval
unfolding add_element
add_paragraph val s = add_element val (z_charstr s)

-- ZmapTag::AddMarkupTag, with what is then written through the returned tag.
unfoldable pub add_markup_tag : Zval → Bytes → (Zval → Zval) → Zval
unfolding add_element
add_markup_tag val tag inside =
    add_element val (z_zmap (entry (key_charstr tag) (inside z_untyped) no_entry))

-- ZmapArr::AddParagraph and AddMarkupTag
unfoldable pub arr_paragraph : Zvals → Bytes → Zvals
unfolding push_back
arr_paragraph output s = push_back output (z_charstr s)

unfoldable pub arr_markup_tag : Zvals → Bytes → (Zval → Zval) → Zvals
unfolding push_back
arr_markup_tag output tag inside =
    push_back output (z_zmap (entry (key_charstr tag) (inside z_untyped) no_entry))
