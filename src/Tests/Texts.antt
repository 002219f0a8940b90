-- ===== src/Tests/Texts.antt =====
-- An insertion with a small document.
use palmira.Prelude.{◌≡◌, refl, [], ◌∷◌, ◌==◌, false, none, some, Result, ok, err, Exception}
use palmira.Prelude.Int.{pos}
use palmira.Values.{no_entry}
use palmira.Document.{wide, coded}
use palmira.Grpc.Texts.{Nodes, no_node, paragraph, tagged, Codepages, InsertArgs}
use palmira.Grpc.Requests.{UpdateReport, UpdateArgs}
use palmira.Grpc.Calls.{serve_insert, client_insert, unknown_exception}
use palmira.Grpc.Calls.Over.{client_insert-serve_insert}
use palmira.Grpc.Calls.Changes.{over_update, over_remove, client_update-serve_update}
use palmira.Values.{Bytes}

abbrev pages : Codepages
pages = record {
  utf8 = 8;
  is_named = λ n. n == 1251;
  from_wide = λ w. w;
  from_coded = λ n s. n ∷ s;
}

abbrev text : Nodes
text =
    tagged (98 ∷ []) (paragraph (coded 1251 (200 ∷ [])) no_node)
      (paragraph (wide (65 ∷ [])) no_node)

abbrev answer_to : InsertArgs → Result UpdateReport
answer_to args = ok (record { status = none; metadata = some args.metadata })

client_insert-serve_insert_example :
    client_insert
      (λ w. w)
      (λ n. pos n)
      (λ n. pos n)
      (pos 0)
      (λ r. none)
      pages
      (λ t. 2)
      (serve_insert
        (λ w. w)
        (λ n. pos n)
        (λ n. pos n)
        (pos 0)
        (λ r. none)
        pages
        answer_to
        (λ a. err Exception.undefined)
        (λ i. err Exception.undefined)
        false)
      (record { object_id = 5 ∷ []; metadata = no_entry; text = text })
    ≡ ok (record { status = some (pos 0, []); metadata = some no_entry })
client_insert-serve_insert_example =
    client_insert-serve_insert (λ w. w) (λ n. pos n) (λ n. pos n) (pos 0) (λ r. none) pages (λ t. 2)
      answer_to (λ a. err Exception.undefined) (λ i. err Exception.undefined) 5 [] no_entry text
      refl refl refl refl

abbrev no_insert : InsertArgs → Result UpdateReport
no_insert args = err Exception.undefined

abbrev answer_to_update : UpdateArgs → Result UpdateReport
answer_to_update args = ok (record { status = none; metadata = some args.metadata })

abbrev answer_to_remove : Bytes → Result UpdateReport
answer_to_remove i = err Exception.undefined

client_update-serve_update_example :
    (over_update
        (λ w. w)
        (λ n. pos n)
        (λ n. pos n)
        (pos 0)
        (λ r. none)
        pages
        (λ t. 2)
        no_insert
        answer_to_update
        answer_to_remove
        (record { object_id = 5 ∷ []; metadata = no_entry })
      ≡ ok (record { status = some (pos 0, []); metadata = some no_entry }))
    × (over_remove
          (λ w. w)
          (λ n. pos n)
          (λ n. pos n)
          (pos 0)
          (λ r. none)
          pages
          (λ t. 2)
          no_insert
          answer_to_update
          answer_to_remove
          (5 ∷ [])
        ≡ ok (record { status = some unknown_exception; metadata = none }))
client_update-serve_update_example =
    client_update-serve_update (λ w. w) (λ n. pos n) (λ n. pos n) (pos 0) (λ r. none) pages (λ t. 2)
      no_insert answer_to_update answer_to_remove 5 [] no_entry refl refl tt
