-- ===== src/Tests/Requests.antt =====
-- Requests of concrete bodies.
use palmira.Prelude.{ℕ, ◌≡◌, true, false, [], ◌∷◌, Option, none, some, ok}
use palmira.Values.{Bytes, Zval, no_entry, z_charstr, z_word64, z_zmap, z_bool}
use palmira.Arguments.{Name, access_args, remove_args}
use palmira.Arguments.Body.{succeeds, remove_args-succeeds}
use palmira.Http.Load.{Request, Body, js_access, js_update}
use palmira.Http.Load.Choice.{js_update-named}

abbrev to_word64 : Zval → Option ℕ
to_word64 (z_word64 n) = some n
to_word64 _ = none

abbrev claims : palmira.Arguments.Args
claims Name.id = some (z_charstr (7 ∷ []))
claims Name.claim = some (z_bool true)
claims _ = none

remove_args-succeeds_example : succeeds (remove_args to_word64 claims) ≡ false
remove_args-succeeds_example = remove_args-succeeds to_word64 claims

abbrev plain : Bytes → Bytes
plain bs = bs

abbrev request : Bytes → Request
request header = record { header_id = header; uri_id = none }

abbrev body : Bytes → Body
body s palmira.Http.Load.Name.id = some (z_charstr s)
body s palmira.Http.Load.Name.metadata = some (z_zmap no_entry)
body s _ = none

abbrev blank : palmira.Http.Load.Args ℕ
blank = record { object_id = []; metadata = none; text = none }

js_update-named_example :
    js_update plain (request (4 ∷ [])) (body (5 ∷ [])) blank
    ≡ ok (record { object_id = 4 ∷ []; metadata = some no_entry; text = none })
js_update-named_example = js_update-named plain (request (4 ∷ [])) (body (5 ∷ [])) blank
