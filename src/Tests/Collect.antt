-- ===== src/Tests/Collect.antt =====
-- A query that finds two documents, in two sections of a large index.
use native.Mathlib.Bridge.{le_prop}
use mathlib.Core.List.{Perm, append-nil, reverse, reverse_perm}
use palmira.Prelude.{
  ℕ, ◌+◌, ◌*◌, ◌^◌, ◌<◌, ◌≤◌, ◌≡◌, ◌≢◌, refl, sym, ap, ◌∙◌, subst, Bool, true, false, List, [], ◌∷◌,
  ◌++◌, err, Exception, Option, none, some, ltb, leb, length, ◌==◌, ◌&&◌, if◌then◌else◌, Bool-cases,
  inl, inr, arith, Result, ok, ◌>>=◌,
}
use palmira.Sorting.{sort}
use palmira.Sorting.Laws.{All, All-nil, All-cons, IsStrictWeak, IsSeparating}
use palmira.Prelude.Int.{is_neg}
use palmira.Collect.Parallel.Whole.{IsWait, Outcome, Finds, search-Finds}
use palmira.Collect.Order.{compare_by_range}
use palmira.Collect.Order.Total.{IsLinear}
use palmira.Collect.Quotes.{no_id, create, set_abstract, get_abstract}
use palmira.Collect.Documents.{
  less, Entity, Data, Tuples, Query, n_limit, init, search_linear, search_loop, visit,
}
use palmira.Collect.Documents.Search.{IsAscending, documents, relevant, found}
use palmira.Collect.Parallel.{after_wait, search, sub_queries, run_tasks, task, insert}
use palmira.Collect.Parallel.Sections.{IsSplit, in_range}
use palmira.Collect.ByRange.{
  IsSmall, by_range, by_range-IsStrictWeak, by_range-IsSeparating, by_range-IsOrder,
}
use palmira.Collect.Report.{Index, Item, Report, finish, page_of}
use palmira.Collect.Report.Page.{search-finish, page, Quoted}

pub ltb-IsLinear : IsLinear ltb
ltb-IsLinear = record {
  asym = λ a b h. ground arith;
  not_lt_trans = λ a b c h k. ground arith;
  separates = λ a b h k. ground arith;
}

-- The wait comes back when all tasks have merged, the last section first.
abbrev all_merged : {T : Type 0} → List (Query T) → Option (List (Query T) × List (Query T))
all_merged qs = some (reverse qs, [])

all_merged-IsWait : {T : Type 0} → IsWait (all_merged {T = T})
all_merged-IsWait = record {
  parts = λ qs merged running e.
      subst (λ w. Perm (w.0 ++ w.1) qs) (some_eq e) (rw append-nil (reverse_perm qs));
}
  where
    some_eq : {A : Type 0} {x y : A} → some x ≡ some y → x ≡ y
    some_eq e = cc

abbrev settings : Data ℕ ℕ ℕ
settings = by_range ltb (record {
  nfirst = 1;
  ncount = 10;
  differ = λ _ _ _ _. palmira.Prelude.Int.pos 0;
  ranker = λ i t. t;
  quoter = some (λ i t. i + t);
  async = true;
})

abbrev tuples : Tuples ℕ
tuples = record { is_none = λ t. t == 0; copy = λ t. t }

abbrev near : Entity ℕ
near = record { id = 5; weight = 2 }

abbrev far : Entity ℕ
far = record { id = 70000; weight = 9 }

abbrev weight_of : ℕ → ℕ
weight_of i = if i == 5 then 2 else 9

abbrev both : Query ℕ
both = record {
  last_index = 70001;
  search_doc = λ u. if leb u 5 then 5 else if leb u 70000 then 70000 else no_id;
  get_tuples = weight_of;
}

abbrev only : ℕ → Query ℕ
only i = record {
  last_index = 70001;
  search_doc = λ u. if leb u i then i else no_id;
  get_tuples = weight_of;
}

abbrev cut : ℕ → ℕ → Option (Query ℕ)
cut lo hi =
    if leb lo 5 && ltb 5 hi
    then some (if leb lo 70000 && ltb 70000 hi then both else only 5)
    else if leb lo 70000 && ltb 70000 hi
    then some (only 70000)
    else none

found_both : found settings tuples both ≡ near ∷ far ∷ []
unfolding found relevant documents
found_both = refl

found_near : found settings tuples (only 5) ≡ near ∷ []
unfolding found relevant documents
found_near = refl

found_far : found settings tuples (only 70000) ≡ far ∷ []
unfolding found relevant documents
found_far = refl

abbrev library : Index ℕ
library = record { get_entity = λ i. some ("doc", none); fetch = λ bytes. 1; no_extra = 0 }

abbrev expected : Report ℕ ℕ ℕ
expected = record {
  first = 1;
  found = 2;
  count = some 2;
  items = some (
      record { id = "doc"; index = 70000; extra = 0; range = 9; quote = some 70009 }
      ∷ record { id = "doc"; index = 5; extra = 0; range = 2; quote = some 7 }
      ∷ []);
}

runs :
    (search settings tuples cut all_merged both (init settings) >>= finish settings library)
    ≡ ok expected
unfolding search finish init create set_abstract get_abstract search_linear sort n_limit search_loop
    visit sub_queries after_wait run_tasks task insert compare_by_range
runs = refl

is_small : (xs : List (Entity ℕ)) → xs ≡ near ∷ far ∷ [] → All IsSmall xs
is_small xs e = rw e (
    All-cons near (far ∷ []) (λ _. le_prop) (omega arith)
      (All-cons far [] (λ _. le_prop) (omega arith) (All-nil _)))

both-IsAscending : IsAscending both
both-IsAscending = record { advances = λ u h. ground arith; in_range = λ u. ground arith }

only-IsAscending : (i : ℕ) → i ≤ no_id → IsAscending (only i)
only-IsAscending i le = record { advances = λ u h. ground arith; in_range = λ u. ground arith }

-- What the sections of the two documents hold.
in_range_both :
    (lo hi : ℕ)
    → in_range lo hi (near ∷ far ∷ []) ≡ (
        if leb lo 5 && ltb 5 hi
        then near ∷ (if leb lo 70000 && ltb 70000 hi then far ∷ [] else [])
        else (if leb lo 70000 && ltb 70000 hi then far ∷ [] else []))
unfolding in_range
in_range_both lo hi = refl

abbrev PartOf : ℕ → ℕ → Query ℕ → Type 0
PartOf lo hi sub = IsAscending sub × (found settings tuples sub ≡ in_range lo hi (near ∷ far ∷ []))

abbrev part_of : Bool → Bool → List (Entity ℕ)
part_of a b = if a then near ∷ (if b then far ∷ [] else []) else (if b then far ∷ [] else [])

part_is :
    (lo hi : ℕ) (sub x : Query ℕ) (xs : List (Entity ℕ))
    → cut lo hi ≡ some sub
    → cut lo hi ≡ some x
    → IsAscending x
    → found settings tuples x ≡ xs
    → part_of (leb lo 5 && ltb 5 hi) (leb lo 70000 && ltb 70000 hi) ≡ xs
    → PartOf lo hi sub
part_is lo hi sub x xs h e asc f g =
    subst (PartOf lo hi) (some_eq (sym e ∙ h)) (asc, f ∙ sym (in_range_both lo hi ∙ g))
  where
    some_eq : {y z : Query ℕ} → some y ≡ some z → y ≡ z
    some_eq k = cc

both-part : (lo hi : ℕ) (sub : Query ℕ) → cut lo hi ≡ some sub → PartOf lo hi sub
both-part lo hi sub h = elim (Bool-cases (leb lo 5 && ltb 5 hi)) [
  | inl a ↦ elim (Bool-cases (leb lo 70000 && ltb 70000 hi)) [
    | inl b ↦
        part_is lo hi sub both (near ∷ far ∷ []) h (rw (a, b)) both-IsAscending found_both
          (rw (a, b))
    | inr b ↦
        part_is lo hi sub (only 5) (near ∷ []) h (rw (a, b)) (only-IsAscending 5 (omega arith))
          found_near (rw (a, b))
  ]
  | inr a ↦ elim (Bool-cases (leb lo 70000 && ltb 70000 hi)) [
    | inl b ↦
        part_is lo hi sub (only 70000) (far ∷ []) h (rw (a, b))
          (only-IsAscending 70000 (omega arith)) found_far (rw (a, b))
    | inr b ↦ absurd (nothing (rw (a, b)))
  ]
]
  where
    nothing : cut lo hi ≡ none → ⊥
    nothing e = cc (e, h)

both-IsSplit : IsSplit settings tuples both cut
both-IsSplit = record {
  ascending = both-IsAscending;
  below_last = rw found_both (
      All-cons near (far ∷ []) (λ _. le_prop) (omega arith)
        (All-cons far [] (λ _. le_prop) (omega arith) (All-nil _)));
  no_part = λ lo hi h. rw found_both (in_range_both lo hi ∙ ground arith);
  part = λ lo hi sub h. let (asc, same) = both-part lo hi sub h in (asc, rw found_both same);
}

search-finish_example :
    Outcome settings tuples both cut all_merged
      ((search settings tuples cut all_merged both (init settings) >>= finish settings library)
        ≡ err Exception.out_of_fuel)
      (λ seen.
        (report : Report ℕ ℕ ℕ) × ((search settings tuples cut all_merged both (init settings)
            >>= finish settings library)
          ≡ ok report)
        × (page_of settings library report ≡ page settings library seen)
        × (report.found ≡ length seen)
        × ((items : List (Item ℕ ℕ ℕ)) → report.items ≡ some items → Quoted settings library items))
search-finish_example =
    search-finish settings tuples library (by_range-IsStrictWeak ltb ltb-IsLinear settings)
      (by_range-IsSeparating ltb ltb-IsLinear settings) (λ e h. omega arith) (omega arith)
      (omega arith) (omega arith) both cut both-IsSplit (is_small _ found_both) (λ e m h. cc h)
      all_merged all_merged-IsWait (omega arith)

has_room : 0 < n_limit settings
unfolding n_limit
has_room = omega arith

search-Finds_example :
    Outcome settings tuples both cut all_merged
      (search settings tuples cut all_merged both (init settings) ≡ err Exception.out_of_fuel)
      (Finds settings tuples both cut (search settings tuples cut all_merged both (init settings)))
search-Finds_example =
    search-Finds settings tuples (by_range-IsStrictWeak ltb ltb-IsLinear settings)
      (λ e h. omega arith) has_room both cut both-IsSplit (is_small _ found_both) all_merged
      all_merged-IsWait (omega arith)

by_range-IsOrder_example :
    IsStrictWeak (less settings) IsSmall × IsSeparating (less settings) IsSmall
by_range-IsOrder_example = by_range-IsOrder ltb ltb-IsLinear settings
