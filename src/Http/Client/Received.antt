-- ===== src/Http/Client/Received.antt =====
-- What the server reads of the requests that the client makes.
use palmira.Prelude.{
  ℕ, ◌≡◌, refl, ap, ◌∙◌, inl, inr, ◌++◌, Bool, true, false, [], Option, none, some, ◌==◌,
  Bool-cases, if◌then◌else◌, Result, ok,
}
use palmira.Values.{Bytes, bytes_of, Zval, z_charstr, z_zmap}
use palmira.Arguments.{as_zmap}
use palmira.Http.Load.{
  Name, Body, Request, Args, Place, after_dump, js_update, zm_insert, zm_document,
}
use palmira.Http.Load.Choice.{js_update-named, merged}
use palmira.Http.Client.{
  ClientArgs, rank, put, is_empty_map, no_body, timing_contents, access_contents, remove_contents,
  update_contents, insert_contents,
}

-- What the serialisation of mtc and of DeliriX promises of a map and a text: what was written is fetched,
-- and what is behind the map is left.
pub record IsWire {X : Type 0} (serialize_map : Body → Bytes)
    (fetch_map : Option Bytes → Option (Body × Bytes)) (serialize_text : X → Bytes)
    (fetch_text : Bytes → Result X) (m : Body) (x : X) : Type 0 where
  pub map_back : (rest : Bytes) → fetch_map (some (serialize_map m ++ rest)) ≡ some (m, rest)
  pub text_back : fetch_text (serialize_text x) ≡ ok x

-- Arguments that nothing was loaded into.
abbrev pub blank_args : {X : Type 0} → Args X
blank_args = record { object_id = []; metadata = none; text = none }

-- A value that is put under one key under a condition is not seen under another.
unless_put :
    (c : Bool) (k : Name) (v : Zval) (z : Body) (n : Name)
    → (rank k == rank n) ≡ false
    → (if c then z else put k v z) n ≡ z n
unless_put true k v z n h = refl
unless_put false k v z n h = rw h refl

when_put :
    (c : Bool) (k : Name) (v : Zval) (z : Body) (n : Name)
    → (rank k == rank n) ≡ false
    → (if c then put k v z else z) n ≡ z n
when_put true k v z n h = rw h refl
when_put false k v z n h = refl

if_apply : (c : Bool) (y z : Body) (n : Name) → (if c then y else z) n ≡ (if c then y n else z n)
if_apply true y z n = refl
if_apply false y z n = refl

module _ {X : Type 0} (is_nonnegative : ℕ → Bool) (is_empty : Zval → Bool)
    (text_length : X → ℕ) where
  abbrev pub contents : ClientArgs X → Body
  contents args = insert_contents is_nonnegative is_empty text_length no_body args

  contents-id : (args : ClientArgs X) → contents args Name.id ≡ some (z_charstr args.object_id)
  unfolding insert_contents update_contents remove_contents access_contents timing_contents
  contents-id args = when_put (is_nonnegative args.f_timeout) Name.timeout _ _ Name.id refl

  contents-document :
      (args : ClientArgs X)
      → contents args Name.document ≡ (
          if text_length args.textview == 0 then none else some (z_charstr (bytes_of "after:dump")))
  unfolding insert_contents update_contents remove_contents access_contents timing_contents
  contents-document args =
      when_put (is_nonnegative args.f_timeout) Name.timeout _ _ Name.document refl
      ∙ unless_put (is_empty args.if_clause) Name.if_clause _ _ Name.document refl
      ∙ unless_put (is_empty_map args.metadata) Name.metadata _ _ Name.document refl
      ∙ if_apply (text_length args.textview == 0) _ _ Name.document

  contents-metadata :
      (args : ClientArgs X)
      → contents args Name.metadata
        ≡ (if is_empty_map args.metadata then none else some args.if_clause)
  unfolding insert_contents update_contents remove_contents access_contents timing_contents
  contents-metadata args =
      when_put (is_nonnegative args.f_timeout) Name.timeout _ _ Name.metadata refl
      ∙ unless_put (is_empty args.if_clause) Name.if_clause _ _ Name.metadata refl
      ∙ if_apply (is_empty_map args.metadata) _ _ Name.metadata
      ∙ ap (λ o. if is_empty_map args.metadata then o else some args.if_clause)
          (unless_put (text_length args.textview == 0) Name.document _ no_body Name.metadata refl)

  -- What the service gets of an insertion: the client's identifier and its text, if this is not empty.
  -- What stands for the metadata is the condition, if it is a map.
  abbrev pub as_received : ClientArgs X → Args X
  as_received args = record {
    object_id = args.object_id;
    metadata = if is_empty_map args.metadata then none else as_zmap (some args.if_clause);
    text = if text_length args.textview == 0 then none else some args.textview;
  }

  merged_blank :
      (uri_decode : Bytes → Bytes) (c : Bool) (v : Zval)
      → merged uri_decode (as_zmap (if c then none else some v)) (blank_args {X = X})
        ≡ (if c then none else as_zmap (some v))
  merged_blank uri_decode true v = refl
  merged_blank uri_decode false (z_zmap m) = refl
  merged_blank uri_decode false _ = refl

  module _ (uri_decode : Bytes → Bytes) (req : Request) (named_in_body : req.header_id ≡ []) where
    js_update-contents :
        (args : ClientArgs X)
        → js_update uri_decode req (contents args) blank_args
          ≡ ok (record (as_received args) { text = none })
    js_update-contents args =
        js_update-named uri_decode req (contents args) blank_args
        ∙ rw (named_in_body, contents-id args, contents-metadata args)
            (ap (λ m. ok (record { object_id = args.object_id; metadata = m; text = none }))
              (merged_blank uri_decode (is_empty_map args.metadata) args.if_clause))

    module _ (place_of : Bytes → Place) (empty_text : X)
        (fetch_text load_tags load_json : Bytes → Result X)
        (place : place_of (bytes_of "after:dump") ≡ after_dump) where
      pub zm_insert-contents :
          (args : ClientArgs X) (rest : Bytes)
          → fetch_text rest ≡ ok args.textview
          → zm_insert uri_decode place_of empty_text fetch_text load_tags load_json req
              (contents args)
              rest
              blank_args
            ≡ ok (as_received args)
      unfolding zm_insert zm_document
      zm_insert-contents args rest t = elim (Bool-cases (text_length args.textview == 0)) [
        | inl e ↦ rw (contents-document args, e, zm_insert) (js_update-contents args)
        | inr e ↦ rw (contents-document args, e, place, t, js_update-contents args, zm_insert) refl
      ]
