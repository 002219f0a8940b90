-- ===== src/Tests/History.antt =====
-- The service over a small index, against the map.
use palmira.Prelude.{ℕ, ◌≡◌, List, [], ◌∷◌, none}
use palmira.Service.Store.{Bytes}
use palmira.Service.Store.Laws.{insert_request, remove_request}
use palmira.Service.Store.History.{
  Event, request, commit_all, run, successes, after_all, metadata_of, IsKeyed,
}
use palmira.Service.Search.{IdValue, search_by_id}
use palmira.Service.Search.Answers.{answer, search_by_id-run}
use palmira.Tests.Service.{shelf, plain, shelf-IsStore, start, document}

abbrev events : List (Event Bytes Bytes)
events =
    request (insert_request document)
    ∷ commit_all
    ∷ request (remove_request (record { object_id = 9 ∷ [] }))
    ∷ []

start-IsKeyed : IsKeyed shelf plain start
start-IsKeyed j d g = absurd (cc g)

search_by_id-run_example :
    (metadata_of shelf plain (run shelf plain events start)
      ≡ after_all shelf plain 7 events (successes shelf plain events start) (λ j. none))
    × (search_by_id {R = ℕ} shelf (λ w. w) (IdValue.charstr (5 ∷ [])) (run shelf plain events start)
        ≡ answer (5 ∷ []) (
            after_all shelf plain 7 events
              (successes shelf plain events start)
              (λ j. none)
              (5 ∷ [])))
search_by_id-run_example =
    search_by_id-run ℕ shelf plain shelf-IsStore (λ w. w) events start 5 [] start-IsKeyed
