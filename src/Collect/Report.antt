-- ===== src/Collect/Report.antt =====
-- src/service/collect-docs.cpp, impl::Finish: the page of results asked for.
pub mod Page
use Prim.Native.String.{String}
use palmira.Prelude.{
  ℕ, ◌+◌, ◌-◌, Bool, List, [], ◌∷◌, Option, none, some, leb, if◌then◌else◌, length, drop, map,
  Result, ok, err, Exception, ◌>>=◌,
}
use palmira.Sorting.{sort}
use palmira.Collect.Quotes.{get_abstract}
use palmira.Collect.Documents.{Entity, Data, Impl, less}

-- What `Finish` reads of structo's index, which is not part of the repository: for a document number
-- the entity's identifier and its extra data, if there is one. `fetch` decodes such data.
pub record Index (Z : Type 0) : Type 0 where
  pub get_entity : ℕ → Option (String × Option (List ℕ))
  pub fetch : List ℕ → Z
  pub no_extra : Z

-- An element of "items".
pub record Item (W Z Q : Type 0) : Type 0 where
  pub id : String
  pub index : ℕ
  pub extra : Z
  pub range : W
  pub quote : Option Q

-- The report: "count" and "items" are set only if the page holds anything.
pub record Report (W Z Q : Type 0) : Type 0 where
  pub first : ℕ
  pub found : ℕ
  pub count : Option ℕ
  pub items : Option (List (Item W Z Q))

module _ {W T Q Z : Type 0} (d : Data W T Q) (index : Index Z) where
  -- `pExtra != nullptr && pExtra->GetLen() != 0`
  unfoldable pub load_extra : Option (List ℕ) → Z
  load_extra none = index.no_extra
  load_extra (some []) = index.no_extra
  load_extra (some (b ∷ bytes)) = index.fetch (b ∷ bytes)

  -- `quoter != nullptr && quoBox.Get( beg->id ) != nullptr`
  unfoldable pub make_quote : Impl W T → ℕ → Option Q
  make_quote s i = elim d.quoter [
    | none ↦ none
    | some quoter ↦ elim (get_abstract i s.quo_box) [ none ↦ none | some t ↦ some (quoter i t) ]
  ]

  unfoldable pub make_item : Impl W T → Entity W → Result (Item W Z Q)
  unfolding load_extra make_quote
  make_item s e = elim (index.get_entity e.id) [
    | none ↦ err (Exception.logic_error "index has no entity found by index")
    | some (name, extra) ↦ ok (record {
      id = name;
      index = e.id;
      extra = load_extra extra;
      range = e.weight;
      quote = make_quote s e.id;
    })
  ]

  unfoldable pub make_items : Impl W T → List (Entity W) → Result (List (Item W Z Q))
  unfolding make_item
  make_items s [] = ok []
  make_items s (e ∷ es) = make_item s e >>= λ item. make_items s es >>= λ items. ok (item ∷ items)

  -- impl::Finish. `nFirst` is never 0: see `SetFirst`.
  unfoldable pub finish : Impl W T → Result (Report W Z Q)
  unfolding make_items
  finish s =
      if leb d.nfirst (length s.buffer)
      then (make_items s (drop (d.nfirst - 1) (sort (less d) s.buffer)) >>= λ items. ok (record {
        first = d.nfirst;
        found = s.n_found;
        count = some (length s.buffer + 1 - d.nfirst);
        items = some items;
      }))
      else ok (record { first = d.nfirst; found = s.n_found; count = none; items = none })

  -- The documents on the page.
  abbrev pub page_of : Report W Z Q → List (Entity W)
  page_of r = elim r.items [
    | none ↦ []
    | some items ↦ map (λ i. record { id = i.index; weight = i.range }) items
  ]
