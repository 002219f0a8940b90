-- ===== src/Collect/Report/Page.antt =====
-- What the report of a search says: the page asked for, of all that the query finds, best first.
use Prim.Native.String.{String}
use mathlib.Core.List.{Mem, mem-map_of_mem, mem-cons_of_mem, mem-append_left}
use mathlib.Core.List.Perm
use palmira.Prelude.{
  ℕ, zero, suc, ◌+◌, ◌-◌, ◌%◌, ◌^◌, ◌<◌, ◌≤◌, ◌≡◌, ◌≢◌, refl, sym, ap, ◌∙◌, subst, inl, inr, false,
  List, [], ◌∷◌, Option, none, some, leb, err, Exception, length, length-append, take, drop,
  length-drop, nil_of_length, leb_false→lt, map, Bool-cases, Option-cases, arith, Result, ok, ◌>>=◌,
}
use palmira.Sorting.{sort}
use palmira.Sorting.Laws.{All, All-perm, All-head, All-tail, IsStrictWeak, IsSeparating, sort-perm}
use palmira.Sorting.Top.{length-perm, sort-IsTop}
use palmira.Collect.Quotes.{Storage, get_abstract, ids, no_id}
use palmira.Collect.Quotes.Ids.{get_abstract-some}
use palmira.Collect.Documents.{Entity, Data, Tuples, Query, Impl, less, n_limit, init}
use palmira.Collect.Documents.Search.{found, length-found}
use palmira.Collect.Parallel.{max_thread_section, search}
use palmira.Collect.Parallel.Sections.{IsSplit}
use palmira.Collect.Parallel.Whole.{Collected, IsWait, Outcome, Outcome-map, Finds, search-Finds}
use palmira.Collect.Report.{
  Index, Item, Report, load_extra, make_quote, make_item, make_items, finish, page_of,
}

module _ {A : Type 0} where
  drop-take : (m n : ℕ) (xs : List A) → drop m (take (m + n) xs) ≡ take n (drop m xs)
  drop-take zero n xs = ap (λ k. take k xs) (omega arith)
  drop-take (suc m) n [] = ap (λ k. drop (suc m) (take {A = A} k [])) (shift m n) ∙ sym (take_nil n)
    where
      shift : (a b : ℕ) → suc a + b ≡ suc (a + b)
      shift a b = omega arith

      take_nil : (k : ℕ) → take {A = A} k [] ≡ []
      take_nil zero = refl
      take_nil (suc k) = refl
  drop-take (suc m) n (x ∷ xs) =
      ap (λ k. drop (suc m) (take k (x ∷ xs))) (shift m n) ∙ drop-take m n xs
    where
      shift : (a b : ℕ) → suc a + b ≡ suc (a + b)
      shift a b = omega arith

  pub Mem_of_drop : (m : ℕ) (x : A) (xs : List A) → Mem x (drop m xs) → Mem x xs
  Mem_of_drop zero x xs h = h
  Mem_of_drop (suc m) x [] h = h
  Mem_of_drop (suc m) x (y ∷ ys) h = mem-cons_of_mem y (Mem_of_drop m x ys h)

module _ {W T Q Z : Type 0} (d : Data W T Q) (index : Index Z) where
  -- Every item of a list has its quote, where quotes are asked for.
  abbrev pub Quoted : List (Item W Z Q) → Type 0
  Quoted [] = Unit
  Quoted (i ∷ items) = (d.quoter ≢ none → i.quote ≢ none) × Quoted items

  abbrev pub Shows : Impl W T → List (Entity W) → Result (List (Item W Z Q)) → Type 0
  Shows s es r =
      (items : List (Item W Z Q)) × (r ≡ ok items)
      × (map (λ i. record { id = i.index; weight = i.range }) items ≡ es)
      × Quoted items

  -- The index knows the documents of a list.
  abbrev pub Knows : List (Entity W) → Type 0
  Knows = All (λ e. index.get_entity e.id ≢ none)

  make_quote-some :
      (s : Impl W T) (i : ℕ) (t : T)
      → get_abstract i s.quo_box ≡ some t
      → d.quoter ≢ none
      → make_quote d index s i ≢ none
  unfolding make_quote
  make_quote-some s i t h asked = elim (Option-cases d.quoter) [
    | inl e ↦ absurd (asked e)
    | inr (f, e) ↦ rw (e, h, make_quote) (λ q. cc q)
  ]

  make_items-Shows :
      (s : Impl W T) (store : Storage T) (es : List (Entity W))
      → s.quo_box ≡ some store
      → All (λ e. Mem e.id (ids store.items)) es
      → Knows es
      → Shows s es (make_items d index s es)
  unfolding make_items
  make_items-Shows s store [] stored slots known = ([], refl, refl, tt)
  make_items-Shows s store (e ∷ es) stored slots known =
      elim (Option-cases (index.get_entity e.id)) [
        | inl h ↦ absurd (All-head known h)
        | inr ((name, extra), h) ↦
            let (items, run, same, quoted) =
              make_items-Shows s store es stored (All-tail slots) (All-tail known) in
            let (t, got) = get_abstract-some e.id store (All-head slots) in
            (
              item name extra ∷ items,
              rw (h, run, make_item),
              ap (◌∷◌ e) same,
              (
                make_quote-some s e.id t
                    (subst (λ box. get_abstract e.id box ≡ some t) (sym stored) got),
                quoted,
              ),
            )
      ]
    where
      item : String → Option (List ℕ) → Item W Z Q
      item name extra = record {
        id = name;
        index = e.id;
        extra = load_extra d index extra;
        range = e.weight;
        quote = make_quote d index s e.id;
      }

  -- The first `nfirst - 1` results are skipped, and at most `ncount` shown.
  abbrev pub page : List (Entity W) → List (Entity W)
  page seen = take d.ncount (drop (d.nfirst - 1) (sort (less d) seen))

  n_limit_lem : 0 < d.nfirst → d.nfirst + d.ncount ≤ 2 ^ 32 → n_limit d ≡ d.nfirst - 1 + d.ncount
  unfolding n_limit
  n_limit_lem h k = omega arith

  abbrev pub Reports : List (Entity W) → Result (Report W Z Q) → Type 0
  Reports seen r =
      (report : Report W Z Q) × (r ≡ ok report)
      × (page_of d index report ≡ page seen)
      × (report.found ≡ length seen % 2 ^ 32)
      × ((items : List (Item W Z Q)) → report.items ≡ some items → Quoted items)

  module _ {P : Entity W → Type 0} (o : IsStrictWeak (less d) P) (sep : IsSeparating (less d) P)
      (first : 0 < d.nfirst) (fits : d.nfirst + d.ncount ≤ 2 ^ 32) (seen : List (Entity W))
      (ps : All P seen) (known : Knows seen) (s : Impl W T) (c : Collected d seen s) where
    shown : drop (d.nfirst - 1) (sort (less d) s.buffer) ≡ page seen
    shown =
        ap (drop (d.nfirst - 1)) (
          sort-IsTop (less d) o sep c.top ps
          ∙ ap (λ k. take k (sort (less d) seen)) (n_limit_lem first fits))
        ∙ drop-take (d.nfirst - 1) d.ncount (sort (less d) seen)

    length-sort : length (sort (less d) s.buffer) ≡ length s.buffer
    length-sort = length-perm _ _ (sort-perm (less d) P s.buffer)

    kept : (e : Entity W) → Mem e (drop (d.nfirst - 1) (sort (less d) s.buffer)) → Mem e s.buffer
    kept e m =
        (Perm.mem_iff (sort-perm (less d) P s.buffer)).0
          (Mem_of_drop (d.nfirst - 1) e (sort (less d) s.buffer) m)

    -- The report of a collector that holds the best of `seen` shows the page asked for.
    pub finish-Reports : Reports seen (finish d index s)
    unfolding finish
    finish-Reports = elim (Bool-cases (leb d.nfirst (length s.buffer))) [
      | inl enough ↦
          let (items, run, same, quoted) =
            make_items-Shows s c.store (drop (d.nfirst - 1) (sort (less d) s.buffer)) c.stored
              (λ e m. (Perm.mem_iff c.slots).1 (mem-map_of_mem (λ x. x.id) (kept e m)))
              (λ e m.
                known e ((Perm.mem_iff c.top.parts).0 (mem-append_left c.top.rest (kept e m)))) in
          (
            report items,
            rw (enough, run),
            same ∙ shown,
            c.counted,
            λ items' e. subst Quoted (some_eq e) quoted,
          )
      | inr few ↦ (
        record { first = d.nfirst; found = s.n_found; count = none; items = none },
        rw few,
        sym (nil_of_length _ (none_left few)) ∙ shown,
        c.counted,
        λ items' e. absurd (cc e),
      )
    ]
      where
        report : List (Item W Z Q) → Report W Z Q
        report items = record {
          first = d.nfirst;
          found = s.n_found;
          count = some (length s.buffer + 1 - d.nfirst);
          items = some items;
        }

        some_eq : {x y : List (Item W Z Q)} → some x ≡ some y → x ≡ y
        some_eq e = cc

        none_left :
            leb d.nfirst (length s.buffer) ≡ false
            → length (drop (d.nfirst - 1) (sort (less d) s.buffer)) ≡ 0
        none_left few = omega (
          arith,
          leb_false→lt d.nfirst (length s.buffer) few,
          length-sort,
          length-drop (d.nfirst - 1) (sort (less d) s.buffer),
        )

-- Search and Finish together.
module _ {W T Q Z : Type 0} (d : Data W T Q) (tp : Tuples T) (index : Index Z)
    {P : Entity W → Type 0} (o : IsStrictWeak (less d) P) (sep : IsSeparating (less d) P)
    (valid : (e : Entity W) → P e → e.id < no_id) (first : 0 < d.nfirst)
    (asked : 2 ≤ d.nfirst + d.ncount) (fits : d.nfirst + d.ncount ≤ 2 ^ 32) (q : Query T)
    (duplicate : ℕ → ℕ → Option (Query T)) (split : IsSplit d tp q duplicate)
    (ps : All P (found d tp q)) (known : Knows d index (found d tp q)) where
  -- The report of exactly the page asked for of `seen`.
  abbrev pub Pages : Result (Report W Z Q) → List (Entity W) → Type 0
  Pages r seen =
      (report : Report W Z Q) × (r ≡ ok report)
      × (page_of d index report ≡ page d index seen)
      × (report.found ≡ length seen)
      × ((items : List (Item W Z Q)) → report.items ≡ some items → Quoted d index items)

  finish-Pages :
      (r : Result (Impl W T)) (seen : List (Entity W))
      → Finds d tp q duplicate r seen
      → Pages (r >>= finish d index) seen
  finish-Pages r seen (s, run, c, p) =
      let (rest, part) = p in
      let (report, done, shown, counted, quoted) =
        finish-Reports d index o sep first fits seen
          (λ e m. All-perm part ps e (mem-append_left rest m))
          (λ e m. All-perm part known e (mem-append_left rest m)) s c in
      (
        report,
        rw run done,
        shown,
        omega (
          arith,
          counted,
          length-append seen rest,
          length-perm _ _ part,
          length-found d tp q split.ascending,
        ),
        quoted,
      )

  -- A search and then Finish report exactly the page asked for: of all that the query finds, sorted
  -- best first, the `ncount` entries from position `nfirst` on, with the number of all found, and a
  -- quote for each entry if there is a quoter. It does so on one thread, and on many if the wait for the
  -- tasks comes back when all have merged, in any order; if the wait comes back while some tasks still
  -- run, the report is the one of what the sections that have merged find, as long as no other
  -- merges; and if the wait never comes back, there is none. The comparator is a total order on what
  -- is found, the page is not empty, it and the query are within 32 bits, the query is ascending and
  -- split as asked, and the index knows the documents.
  pub search-finish :
      (wait : List (Query T) → Option (List (Query T) × List (Query T)))
      → IsWait wait
      → q.last_index + max_thread_section ≤ 2 ^ 32
      → Outcome d tp q duplicate wait
          ((search d tp duplicate wait q (init d) >>= finish d index) ≡ err Exception.out_of_fuel)
          (Pages (search d tp duplicate wait q (init d) >>= finish d index))
  search-finish wait w in_range =
      Outcome-map d tp q duplicate (λ e. ap (λ r. r >>= finish d index) e)
        (λ seen h. finish-Pages (search d tp duplicate wait q (init d)) seen h) wait
        (search-Finds d tp o valid positive q duplicate split ps wait w in_range)
    where
      positive : 0 < n_limit d
      positive = omega (arith, n_limit_lem d index first fits)
