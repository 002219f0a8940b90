-- ===== src/Collect/Quotes/Copy.antt =====
-- src/service/collect-quotes.cpp, CopyAbstract: a copy of an abstract with bounded parts. The entries
-- lie in an array of four, here the list `kept`; `pworst` is the index of one of them.
pub mod Best
pub mod Spread
use palmira.Prelude.{
  ℕ, zero, suc, ◌+◌, ◌-◌, Bool, true, false, List, [], ◌∷◌, ◌++◌, Option, none, some, ltb, ◌==◌,
  if◌then◌else◌, length, get_elem?, set, take,
}
use palmira.Sorting.{sort}

abbrev pub max_bm25_term_count : ℕ
max_bm25_term_count = 0x20

abbrev pub max_entry_set_count : ℕ
max_entry_set_count = 4

abbrev pub max_entry_pos_count : ℕ
max_entry_pos_count = 0x80

-- structo's Abstract::EntryPos and EntrySet. What is only copied is `other`.
pub record EntryPos (X : Type 0) : Type 0 where
  pub offset : ℕ
  pub other : X

pub record EntrySet (W X : Type 0) : Type 0 where
  pub weight : W
  pub u_min : ℕ
  pub u_max : ℕ
  pub spread : List (EntryPos X)

-- structo's Abstract, by `dwMode`: `B` stands for a BM25Term.
pub data Content (W X B : Type 0) : Type 0 where
  no_content : Content W X B
  bm25 : List B → Content W X B
  rich : List (EntrySet W X) → Content W X B

pub record Abstract (W X B : Type 0) : Type 0 where
  pub words : ℕ
  pub content : Content W X B

module _ {W X : Type 0} (lt : W → W → Bool) where
  -- `(*entptr++ = *srcbeg++).weight < pworst->weight`
  unfoldable pub pick : ℕ → List (EntrySet W X) → EntrySet W X → ℕ
  pick worst kept e = elim (get_elem? (kept ++ e ∷ []) worst) [
    | none ↦ worst
    | some w ↦ elim (lt e.weight w.weight) [ true ↦ length kept | false ↦ worst ]
  ]

  -- The first entries: those kept, the worst of them, and those left.
  unfoldable pub fill :
      ℕ → List (EntrySet W X) → List (EntrySet W X) → List (EntrySet W X) × ℕ × List (EntrySet W X)
  unfolding pick
  fill worst kept [] = (kept, worst, [])
  fill worst kept (e ∷ src) = elim (ltb (length kept) max_entry_set_count) [
    | true ↦ fill (pick worst kept e) (kept ++ e ∷ []) src
    | false ↦ (kept, worst, e ∷ src)
  ]

  -- The scan for `pworst`, where `w` is the entry there.
  unfoldable pub lightest : ℕ → ℕ → EntrySet W X → List (EntrySet W X) → ℕ
  lightest i worst w [] = worst
  lightest i worst w (e ∷ es) = elim (lt e.weight w.weight) [
    | true ↦ lightest (suc i) i e es
    | false ↦ lightest (suc i) worst w es
  ]

  -- The other entries: each that is better than the worst takes its place.
  unfoldable pub improve : ℕ → List (EntrySet W X) → List (EntrySet W X) → List (EntrySet W X)
  unfolding lightest
  improve worst kept [] = kept
  improve worst kept (e ∷ src) = elim (get_elem? kept worst) [
    | none ↦ kept
    | some w ↦ elim (lt w.weight e.weight) [
      | true ↦ improve (lightest 0 worst e (set kept worst e)) (set kept worst e) src
      | false ↦ improve worst kept src
    ]
  ]

  unfoldable pub select : List (EntrySet W X) → List (EntrySet W X)
  unfolding fill improve
  select src = let (kept, worst, rest) = fill 0 [] src in improve worst kept rest

  -- `sort elements found by order`, if the array is full.
  unfoldable pub arrange : List (EntrySet W X) → List (EntrySet W X)
  arrange kept =
      if length kept == max_entry_set_count then sort (λ l r. ltb l.u_min r.u_min) kept else kept

  -- `copy word references`, with room for `room` positions.
  unfoldable pub copy_spreads : ℕ → List (EntrySet W X) → List (EntrySet W X)
  copy_spreads room [] = []
  copy_spreads room (e ∷ es) =
      record e { spread = sort (λ p q. ltb p.offset q.offset) (take room e.spread) }
      ∷ copy_spreads (room - length (take room e.spread)) es

  -- CopyAbstract
  unfoldable pub copy_abstract : {B : Type 0} → Abstract W X B → Abstract W X B
  unfolding select arrange copy_spreads
  copy_abstract source = record source {
    content = elim source.content [
      | no_content ↦ no_content
      | bm25 terms ↦ bm25 (take max_bm25_term_count terms)
      | rich entries ↦ rich (copy_spreads max_entry_pos_count (arrange (select entries)))
    ];
  }
