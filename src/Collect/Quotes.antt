-- ===== src/Collect/Quotes.antt =====
-- src/service/collect-quotes.cpp, the store of abstracts `Abstracts`: one slot for each document that
-- the collector holds. `copy` stands for `CopyAbstract`, with which every stored abstract is made.
pub mod Ids
pub mod Copy
use palmira.Prelude.{
  ℕ, suc, ◌-◌, ◌^◌, Bool, List, [], ◌∷◌, ◌++◌, Option, none, some, ltb, ◌==◌, if◌then◌else◌, length,
  Result, ok, err, Exception,
}

-- `Abstracts::abstracts`: `count` is the length of `items`.
pub record Storage (T : Type 0) : Type 0 where
  pub limit : ℕ
  pub items : List (ℕ × T)

-- `Abstracts`: the pointer `storage`.
abbrev pub Abstracts : Type 0 → Type 0
Abstracts T = Option (Storage T)

-- `uint32_t(-1)`, the default for `oldid` and the end of a search.
abbrev pub no_id : ℕ
no_id = 2 ^ 32 - 1

module _ {T : Type 0} where
  -- Abstracts::Abstracts: an empty store.
  unfoldable pub create : ℕ → Abstracts T
  create maxcount = some (record { limit = maxcount; items = [] })

  -- The first slot with `oldid`, overwritten.
  unfoldable pub replace : ℕ → ℕ → T → List (ℕ × T) → Option (List (ℕ × T))
  replace oldid newid stored [] = none
  replace oldid newid stored ((i, t) ∷ items) =
      let rest = replace oldid newid stored items in
      if i == oldid
      then some ((newid, stored) ∷ items)
      else elim rest [ none ↦ none | some items' ↦ some ((i, t) ∷ items') ]

  -- Append, if there is room.
  unfoldable pub append : ℕ → T → Storage T → Result (Abstracts T)
  append newid stored s =
      if ltb (length s.items) s.limit
      then ok (some (record s { items = s.items ++ (newid, stored) ∷ [] }))
      else err (Exception.logic_error "Abstracts storage overflow")

  -- Abstracts::Set
  unfoldable pub set_abstract : (T → T) → ℕ → T → ℕ → Abstracts T → Result (Abstracts T)
  unfolding replace append
  set_abstract copy newid abstr oldid none =
      err (Exception.logic_error "Abstracts has no data storage")
  set_abstract copy newid abstr oldid (some s) = elim (replace oldid newid (copy abstr) s.items) [
    | none ↦ append newid (copy abstr) s
    | some items' ↦ ok (some (record s { items = items' }))
  ]

  unfoldable pub find : ℕ → List (ℕ × T) → Option T
  find getid [] = none
  find getid ((i, t) ∷ items) = if i == getid then some t else find getid items

  -- Abstracts::Get
  unfoldable pub get_abstract : ℕ → Abstracts T → Option T
  unfolding find
  get_abstract getid none = none
  get_abstract getid (some s) = find getid s.items

  -- The documents that have a slot.
  abbrev pub ids : List (ℕ × T) → List ℕ
  ids [] = []
  ids ((i, t) ∷ items) = i ∷ ids items
