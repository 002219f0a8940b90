-- ===== src/Tests/Settings.antt =====
-- Settings made by calls, and the default ranker, on concrete numbers.
use palmira.Prelude.{ℕ, ◌-◌, ◌*◌, ◌/◌, ◌≡◌, refl, List, [], ◌∷◌, none, some, ltb}
use palmira.Prelude.Int.{pos}
use palmira.Collect.Documents.{Data, Impl}
use palmira.Collect.Documents.Builder.{Real, Call, configure, create_collector}
use palmira.Collect.Documents.Builder.Settings.{IsReady, create_collector-IsReady}

abbrev calls : List (Call ℕ ℕ ℕ)
calls =
    Call.set_first 3
    ∷ Call.set_order (some (λ a f b g. pos 0))
    ∷ Call.set_count 5
    ∷ Call.set_first 0
    ∷ Call.set_count 7
    ∷ []

create_collector-IsReady_example :
    let (d, s) : Data ℕ ℕ ℕ × Impl ℕ ℕ =
      create_collector ltb (λ i t. t) (configure ltb (λ i t. t) calls none).0 in
    IsReady d × (s.buffer ≡ []) × (s.n_found ≡ 0)
create_collector-IsReady_example = create_collector-IsReady ltb (λ i t. t) calls

-- The call that threw has ended the chain.
kept : (create_collector ltb (λ i t. t) (configure ltb (λ i t. t) calls none).0).0.ncount ≡ 5
unfolding create_collector configure
kept = refl

abbrev numbers : Real ℕ
numbers = record { lt = ltb; zero = 0; one = 1; sub = ◌-◌; mul = ◌*◌; div = ◌/◌; log_of = λ n. n }
