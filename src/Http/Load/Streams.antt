-- ===== src/Http/Load/Streams.antt =====
-- The loading of arguments out of the stream of a request, in both forms.
use palmira.Prelude.{Option, none, some, Result, ok, err, Exception, ◌>>=◌}
use palmira.Values.{Bytes}
use palmira.Http.Load.{Body, Request, Args, Place, js_remove, js_update, zm_insert}

-- ZmLoad: the map at the head of the stream, and what follows it.
unfoldable pub zm_load :
    (fetch_map : Option Bytes → Option (Body × Bytes)) → Option Bytes → Result (Body × Bytes)
zm_load fetch_map src = elim (fetch_map src) [
  | none ↦ err (Exception.invalid_argument "invalid binary serialization format, zmap expected")
  | some p ↦ ok p
]

module _ {X : Type 0} (uri_decode : Bytes → Bytes)
    (fetch_map : Option Bytes → Option (Body × Bytes)) where
  -- Load of a removal and of an update in the binary form.
  unfoldable pub zm_load_remove : Request → Option Bytes → Args X → Result (Args X)
  unfolding zm_load js_remove
  zm_load_remove req src args = zm_load fetch_map src >>= λ p. js_remove uri_decode req p.0 args

  unfoldable pub zm_load_update : Request → Option Bytes → Args X → Result (Args X)
  unfolding zm_load js_update
  zm_load_update req src args = zm_load fetch_map src >>= λ p. js_update uri_decode req p.0 args

  module _ (place_of : Bytes → Place) (empty_text : X)
      (fetch_text load_tags load_json : Bytes → Result X) where
    -- Load( InsertArgs& ) of the binary form, from the stream.
    unfoldable pub zm_load_insert : Request → Option Bytes → Args X → Result (Args X)
    unfolding zm_insert
    zm_load_insert req src args = elim (fetch_map src) [
      | none ↦ err (Exception.runtime_error "Failed to load zmap from the stream")
      | some p ↦
          zm_insert uri_decode place_of empty_text fetch_text load_tags load_json req p.0 p.1 args
    ]
