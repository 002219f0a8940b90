-- ===== src/Tests/Document.antt =====
-- A small document.
use palmira.Prelude.{◌≡◌, refl, [], ◌∷◌, some, ok}
use palmira.Values.{no_entry, entry, key_charstr, z_untyped, z_charstr, z_zmap}
use palmira.Document.{Text, wide, coded, serialize, fetch_from, add_paragraph, add_markup_tag}
use palmira.Document.Trip.{fetch_from-serialize}
use palmira.Document.Tags.{contents, add_element_lem}

abbrev page : Text
page = record {
  blocks = wide (1049 ∷ []) ∷ coded 1251 (200 ∷ 201 ∷ []) ∷ [];
  markup = record { tag_key = 98 ∷ []; u_lower = 0; u_upper = 1 } ∷ [];
}

fetch_from-serialize_example : fetch_from (serialize page) ≡ ok page
fetch_from-serialize_example = fetch_from-serialize page

add_element_example :
    (contents (add_paragraph (z_charstr (65 ∷ [])) (66 ∷ []))
      ≡ some (z_charstr (65 ∷ []) ∷ z_charstr (66 ∷ []) ∷ []))
    × (contents (add_markup_tag (z_charstr (65 ∷ [])) (98 ∷ []) (λ v. v))
        ≡ some
            (z_charstr (65 ∷ []) ∷ z_zmap (entry (key_charstr (98 ∷ [])) z_untyped no_entry) ∷ []))
add_element_example =
    add_element_lem (z_charstr (65 ∷ [])) (z_charstr (65 ∷ []) ∷ []) (66 ∷ []) (98 ∷ []) (λ v. v)
      refl
