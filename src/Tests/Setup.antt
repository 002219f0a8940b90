-- ===== src/Tests/Setup.antt =====
-- Configurations of a few keys.
use palmira.Prelude.{ℕ, ◌≡◌, refl, Bool, true, false, [], Option, none, some, ok, err, Exception}
use palmira.Prelude.Int.{ℤ, pos}
use palmira.Values.{
  Bytes, bytes_of, Zval, Zmap, no_entry, entry, key_charstr, z_charstr, z_int32, z_zmap,
  z_array_zmap, no_zmap, next_zmap,
}
use palmira.Document.{get, same_bytes}
use palmira.Setup.{ConfigLib, http_server, create_inet_server}
use palmira.Setup.Served.{Serves, create_inet_server-Serves}
use palmira.Setup.Structo.{
  init_languages, get_make_contents, rich, create_service, set_index, set_contents,
}

-- A configuration is a map.
abbrev text_or : Option Zval → Bytes
text_or (some (z_charstr s)) = s
text_or _ = []

abbrev int_or : Option Zval → ℤ → ℤ
int_or (some (z_int32 n)) other = n
int_or _ other = other

abbrev map_or : Option Zval → Zmap
map_or (some (z_zmap m)) = m
map_or _ = no_entry

abbrev is_blank : Zmap → Bool
is_blank no_entry = true
is_blank (entry k v m) = false

abbrev pub maps : ConfigLib Zmap
unfolding get same_bytes
maps = record {
  get = λ c key. get (key_charstr key) c;
  get_section = λ c key. map_or (get (key_charstr key) c);
  section_of = λ c m. m;
  is_empty = is_blank;
  get_charstr = λ c key. text_or (get (key_charstr key) c);
  get_path = λ c key. text_or (get (key_charstr key) c);
  get_int32 = λ c key other. int_or (get (key_charstr key) c) other;
}

abbrev pub net : Zmap
net = entry (key_charstr (bytes_of "api")) (z_charstr (bytes_of "net")) (
    entry (key_charstr (bytes_of "net"))
      (z_zmap (
        entry (key_charstr (bytes_of "type")) (z_charstr (bytes_of "http"))
          (entry (key_charstr (bytes_of "port")) (z_int32 (pos 8080)) no_entry)))
      no_entry)

create_inet_server-Serves_example : Serves maps false no_entry net (http_server 8080)
unfolding create_inet_server get
create_inet_server-Serves_example =
    create_inet_server-Serves maps false no_entry net (http_server 8080) refl

-- A language without a module is refused.
init_languages_nameless :
    init_languages {L = ℕ} maps
      (λ m c. ok 7)
      (entry
        (key_charstr (bytes_of "languages"))
        (z_array_zmap
          (next_zmap (entry (key_charstr (bytes_of "id")) (z_int32 (pos 1)) no_entry) no_zmap))
        no_entry)
    ≡ err (Exception.invalid_argument "language 'module' must point to existing shared library")
unfolding init_languages get
init_languages_nameless = refl

get_make_contents_rich :
    get_make_contents maps
      (entry (key_charstr (bytes_of "contents")) (z_charstr (bytes_of "Rich")) no_entry)
    ≡ ok rich
unfolding get_make_contents get
get_make_contents_rich = refl

create_service_null :
    create_service {I = ℕ} {P = ℕ} {F = ℕ} 1 2 (set_contents 1 2 none (set_index 1 2 (some 5) none))
    ≡ err (Exception.invalid_argument "invalid (null) contents creation callback")
unfolding create_service set_contents set_index
create_service_null = refl
