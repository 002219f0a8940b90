-- ===== src/Tests/Opened.antt =====
-- A service is opened again over a small index.
use palmira.Prelude.{ℕ, ◌+◌, ◌≡◌, refl, true, [], ◌∷◌, Option, none, some, ok, ◌>>=◌}
use palmira.Service.Store.{Bytes, State, commit}
use palmira.Service.Store.Opened.{open_service, opened_with, open_service-commit}
use palmira.Tests.Service.{Shelf, shelf, plain, shelf-IsStore, start}

abbrev load_fields : Bytes → Option ℕ
load_fields [] = none
load_fields (f ∷ bs) = some f

abbrev changed : State Shelf ℕ
changed = record start { modified = true }

committed : (commit shelf plain changed).1 ≡ ok tt
unfolding commit
committed = refl

open_service-commit_example :
    open_service shelf load_fields (λ f g. f + g) (commit shelf plain changed).0.index 2
    ≡ (ok 9 >>= λ f. ok (opened_with (commit shelf plain changed).0.index f))
open_service-commit_example =
    open_service-commit shelf load_fields (λ f g. f + g) plain shelf-IsStore (λ f. refl) changed 2
      committed
