-- ===== src/Collect/Parallel/Sections.antt =====
-- The sections into which a search is cut, and impl::Search as a whole, on one thread or many.
use mathlib.Core.List.{Perm, perm_middle}
use mathlib.Core.List.Perm
use palmira.Prelude.{
  ℕ, zero, suc, ◌+◌, ◌*◌, ◌%◌, ◌^◌, ◌<◌, ◌≤◌, ◌≡◌, refl, ◌⊎◌, subst, inl, inr, List, [], ◌∷◌, ◌++◌,
  Option, none, some, ltb, leb, ◌&&◌, if◌then◌else◌, Bool-cases, Option-cases, arith, Result, ok,
  ◌>>=◌, lt→ltb, le→ltb_false, ltb→lt, ltb_false→le,
}
use palmira.Sorting.Laws.{All, All-nil, All-head, All-tail, All-cons}
use palmira.Collect.Documents.{Entity, Data, Tuples, Query}
use palmira.Collect.Documents.Search.{IsAscending, IsAscending-prop, found}
use palmira.Collect.Parallel.{max_thread_section, sub_queries}
use palmira.Collect.Parallel.Tasks.{all_found}

module _ {W : Type 0} where
  -- The entities numbered from `lo` on, and those of them below `hi`.
  pub from_id : ℕ → List (Entity W) → List (Entity W)
  from_id lo [] = []
  from_id lo (e ∷ es) = if ltb e.id lo then from_id lo es else e ∷ from_id lo es

  unfoldable pub in_range : ℕ → ℕ → List (Entity W) → List (Entity W)
  in_range lo hi [] = []
  in_range lo hi (e ∷ es) =
      if leb lo e.id && ltb e.id hi then e ∷ in_range lo hi es else in_range lo hi es

  pub from_id_all : (es : List (Entity W)) → from_id 0 es ≡ es
  unfolding from_id
  from_id_all [] = refl
  from_id_all (e ∷ es) = ground (arith, from_id_all es)

  from_id_past :
      (lo bound : ℕ) (es : List (Entity W))
      → All (λ e. e.id < bound) es
      → bound ≤ lo
      → from_id lo es ≡ []
  unfolding from_id
  from_id_past lo bound [] h le = refl
  from_id_past lo bound (e ∷ es) h le =
      let here : e.id < bound = All-head h in
      rw (lt→ltb e.id lo (omega arith)) (from_id_past lo bound es (All-tail h) le)

  from_id_below :
      (lo : ℕ) (e : Entity W) (es : List (Entity W))
      → e.id < lo
      → from_id lo (e ∷ es) ≡ from_id lo es
  unfolding from_id
  from_id_below lo e es h = rw (lt→ltb e.id lo h)

  from_id_above :
      (lo : ℕ) (e : Entity W) (es : List (Entity W))
      → lo ≤ e.id
      → from_id lo (e ∷ es) ≡ e ∷ from_id lo es
  unfolding from_id
  from_id_above lo e es h = rw (le→ltb_false e.id lo h)

  in_range_inside :
      (lo hi : ℕ) (e : Entity W) (es : List (Entity W))
      → lo ≤ e.id
      → e.id < hi
      → in_range lo hi (e ∷ es) ≡ e ∷ in_range lo hi es
  unfolding in_range
  in_range_inside lo hi e es h k = ground arith

  in_range_outside :
      (lo hi : ℕ) (e : Entity W) (es : List (Entity W))
      → (e.id < lo) ⊎ (hi ≤ e.id)
      → in_range lo hi (e ∷ es) ≡ in_range lo hi es
  unfolding in_range
  in_range_outside lo hi e es h = ground arith

  -- A section and what comes after it.
  in_range-from_id :
      (lo hi : ℕ) (es : List (Entity W))
      → lo ≤ hi
      → Perm (in_range lo hi es ++ from_id hi es) (from_id lo es)
  in_range-from_id lo hi [] le = unfold in_range from_id in Perm.nil
  in_range-from_id lo hi (e ∷ es) le = elim (Bool-cases (ltb e.id lo)) [
    | inl below ↦
        let h = ltb→lt e.id lo below in
        rw
          (
            in_range_outside lo hi e es (inl h),
            from_id_below hi e es (omega arith),
            from_id_below lo e es h,
          )
          (in_range-from_id lo hi es le)
    | inr above ↦
        let h = ltb_false→le e.id lo above in
        elim (Bool-cases (ltb e.id hi)) [
          | inl inside ↦
              let k = ltb→lt e.id hi inside in
              rw (in_range_inside lo hi e es h k, from_id_below hi e es k, from_id_above lo e es h)
                (Perm.cons e (in_range-from_id lo hi es le))
          | inr beyond ↦
              let k = ltb_false→le e.id hi beyond in
              rw
                (
                  in_range_outside lo hi e es (inr k),
                  from_id_above hi e es k,
                  from_id_above lo e es h,
                )
                (Perm.trans (perm_middle (in_range lo hi es) (from_id hi es))
                  (Perm.cons e (in_range-from_id lo hi es le)))
        ]
  ]

-- What structo documents of `Duplicate` and `LastIndex`: the sub-query of a range finds what the
-- query finds there, there is none only if that is nothing, and all that is found is numbered below
-- the last index.
pub record IsSplit {W T Q : Type 0} (d : Data W T Q) (tp : Tuples T) (q : Query T)
    (duplicate : ℕ → ℕ → Option (Query T)) : Type 0 where
  pub ascending : IsAscending q
  pub below_last : All (λ e. e.id < q.last_index) (found d tp q)
  pub no_part : (lo hi : ℕ) → duplicate lo hi ≡ none → in_range lo hi (found d tp q) ≡ []
  pub part :
      (lo hi : ℕ) (sub : Query T)
      → duplicate lo hi ≡ some sub
      → IsAscending sub × (found d tp sub ≡ in_range lo hi (found d tp q))

module _ {W T Q : Type 0} (d : Data W T Q) (tp : Tuples T) (q : Query T)
    (duplicate : ℕ → ℕ → Option (Query T)) (split : IsSplit d tp q duplicate) where
  abbrev pub Covers : ℕ → Result (List (Query T)) → Type 0
  Covers lower r =
      (qs : List (Query T)) × (r ≡ ok qs)
      × All IsAscending qs
      × Perm (all_found d tp qs) (from_id lower (found d tp q))

  one_more :
      (lower upper : ℕ) (r : Result (List (Query T)))
      → lower ≤ upper
      → Covers upper r
      → Covers lower (
          r >>= λ rest. elim (duplicate lower upper) [
            | none ↦ ok rest
            | some sub ↦ ok (sub ∷ rest)
          ])
  unfolding all_found
  one_more lower upper r le (qs, e, asc, p) = elim (Option-cases (duplicate lower upper)) [
    | inl h ↦ (
      qs,
      rw (e, h),
      asc,
      Perm.trans p (
          subst (λ l. Perm (l ++ from_id upper (found d tp q)) (from_id lower (found d tp q)))
            (split.no_part lower upper h) (in_range-from_id lower upper (found d tp q) le)),
    )
    | inr (sub, h) ↦
        let (asc', same) = split.part lower upper sub h in
        (
          sub ∷ qs,
          rw (e, h),
          All-cons sub qs (λ _. IsAscending-prop) asc' asc,
          Perm.trans (rw same (Perm.append_left _ p))
              (in_range-from_id lower upper (found d tp q) le),
        )
  ]

  -- The sections cover the query, and there are as many rounds as the loop needs, where the last
  -- section ends within 32 bits.
  pub sub_queries-Covers :
      (fuel lower : ℕ)
      → q.last_index + max_thread_section ≤ 2 ^ 32
      → lower < q.last_index + max_thread_section
      → q.last_index + max_thread_section ≤ lower + fuel * max_thread_section
      → Covers lower (sub_queries d tp duplicate fuel lower q.last_index)
  unfolding sub_queries all_found
  sub_queries-Covers zero lower fits near enough = absurd (omega arith)
  sub_queries-Covers (suc fuel) lower fits near enough =
      elim (Bool-cases (ltb lower q.last_index)) [
        | inl more ↦
            let h = ltb→lt lower q.last_index more in
            rw more (
              one_more lower ((lower + max_thread_section) % 2 ^ 32) _ (omega arith) (
                sub_queries-Covers fuel ((lower + max_thread_section) % 2 ^ 32) fits (omega arith)
                  (omega arith)))
        | inr done ↦ (
          [],
          rw done,
          All-nil _,
          rw
              (from_id_past lower q.last_index (found d tp q) split.below_last
                (ltb_false→le _ _ done))
              Perm.nil,
        )
      ]
