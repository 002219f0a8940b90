-- ===== src/Document/Tags.antt =====
-- The output of a quotation grows element by element, in whatever form it is kept.
use palmira.Prelude.{◌≡◌, refl, ap, List, [], ◌∷◌, ◌++◌, Option, none, some}
use palmira.Values.{
  Bytes, Zval, Zvals, no_entry, entry, key_charstr, no_zval, next_zval, z_untyped, z_charstr,
  z_widestr, z_zmap, z_array_zval,
}
use palmira.Document.{push_back, add_element, add_paragraph, add_markup_tag}

-- The elements of an array, and those of a tag: none yet, one, or an array of them.
abbrev pub elements : Zvals → List Zval
elements no_zval = []
elements (next_zval v vs) = v ∷ elements vs

abbrev pub contents : Zval → Option (List Zval)
contents z_untyped = some []
contents (z_array_zval vs) = some (elements vs)
contents (z_charstr s) = some (z_charstr s ∷ [])
contents (z_widestr w) = some (z_widestr w ∷ [])
contents (z_zmap m) = some (z_zmap m ∷ [])
contents _ = none

elements-push_back : (vs : Zvals) (v : Zval) → elements (push_back vs v) ≡ elements vs ++ v ∷ []
unfolding push_back
elements-push_back no_zval v = refl
elements-push_back (next_zval u vs) v = ap (◌∷◌ u) (elements-push_back vs v)

add_element-contents :
    (val new : Zval) (xs : List Zval)
    → contents val ≡ some xs
    → contents new ≡ some (new ∷ [])
    → contents (add_element val new) ≡ some (xs ++ new ∷ [])
unfolding add_element
add_element-contents z_untyped new xs h k = cc (h, k)
add_element-contents (z_array_zval vs) new xs h k = cc (h, elements-push_back vs new)
add_element-contents (z_charstr s) new xs h k = cc h
add_element-contents (z_widestr w) new xs h k = cc h
add_element-contents (z_zmap m) new xs h k = cc h
add_element-contents _ new xs h k = absurd (cc h)

-- A tag that holds the elements `xs` holds after a paragraph or a tag within it the same elements and
-- the new one at the end, in each of the forms in which it keeps them.
pub add_element_lem :
    (val : Zval) (xs : List Zval) (s tag : Bytes) (inside : Zval → Zval)
    → contents val ≡ some xs
    → (contents (add_paragraph val s) ≡ some (xs ++ z_charstr s ∷ []))
      × (contents (add_markup_tag val tag inside)
          ≡ some (xs ++ z_zmap (entry (key_charstr tag) (inside z_untyped) no_entry) ∷ []))
unfolding add_paragraph add_markup_tag
add_element_lem val xs s tag inside h = (
  add_element-contents val (z_charstr s) xs h refl,
  add_element-contents val (z_zmap (entry (key_charstr tag) (inside z_untyped) no_entry)) xs h refl,
)
