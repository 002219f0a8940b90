-- ===== src/Collect/Quotes/Ids.antt =====
-- Which documents have a slot in the store of abstracts, before and after each operation.
use mathlib.Core.List.{Mem, Perm, mem-cons, mem-cons_self, mem-cons_of_mem, not-mem-nil, Mem-prop}
use mathlib.Core.List.Perm
use mathlib.Core.Logic.Or
use palmira.Prelude.{
  ℕ, suc, ◌<◌, ◌≡◌, refl, sym, ap, false, List, [], ◌∷◌, ◌++◌, none, some, ◌==◌, length, inl, inr,
  Bool-cases, ==_iff, ok, err, Exception, lt→ltb, le→ltb_false, ◌≤◌,
}
use palmira.Collect.Quotes.{Storage, replace, set_abstract, find, get_abstract, ids}

module _ {T : Type 0} where
  pub ids-append : (xs : List (ℕ × T)) (i : ℕ) (t : T) → ids (xs ++ (i, t) ∷ []) ≡ ids xs ++ i ∷ []
  ids-append [] i t = refl
  ids-append ((j, u) ∷ xs) i t = ap (◌∷◌ j) (ids-append xs i t)

  pub length-ids : (xs : List (ℕ × T)) → length (ids xs) ≡ length xs
  length-ids [] = refl
  length-ids ((j, u) ∷ xs) = ap suc (length-ids xs)

  replace-none :
      (old new : ℕ) (t : T) (xs : List (ℕ × T)) → ¬ Mem old (ids xs) → replace old new t xs ≡ none
  unfolding replace
  replace-none old new t [] h = refl
  replace-none old new t ((i, u) ∷ xs) h = elim (Bool-cases (i == old)) [
    | inl e ↦ absurd (h (rw ((==_iff i old).0 e) mem-cons_self))
    | inr e ↦ rw (e, replace-none old new t xs (λ m. h (mem-cons_of_mem i m)))
  ]

  replace-some :
      (old new : ℕ) (t : T) (xs : List (ℕ × T))
      → Mem old (ids xs)
      → (ys : List (ℕ × T)) × (replace old new t xs ≡ some ys) × Perm (old ∷ ids ys) (new ∷ ids xs)
  unfolding replace
  replace-some old new t [] h = absurd (not-mem-nil h)
  replace-some old new t ((i, u) ∷ xs) h = elim (Bool-cases (i == old)) [
    | inl e ↦ ((new, t) ∷ xs, rw e, rw ((==_iff i old).0 e) (Perm.swap new old (ids xs)))
    | inr e ↦
        let (ys, step, p) = replace-some old new t xs (mem_of_tail e) in
        (
          (i, u) ∷ ys,
          rw (e, step),
          Perm.trans (Perm.swap i old (ids ys))
              (Perm.trans (Perm.cons i p) (Perm.swap new i (ids xs))),
        )
  ]
    where
      mem_of_tail : (i == old) ≡ false → Mem old (ids xs)
      mem_of_tail e =
          Or.elim Mem-prop (mem-cons.0 h) (λ same. absurd (cc (e, (==_iff i old).1 (sym same))))
            (λ m. m)

  module _ (copy : T → T) where
    -- With `oldid` in the store, `Set` gives its slot to `newid`.
    pub set_abstract-replace :
        (new old : ℕ) (t : T) (s : Storage T)
        → Mem old (ids s.items)
        → (s' : Storage T) × (set_abstract copy new t old (some s) ≡ ok (some s'))
          × (s'.limit ≡ s.limit)
          × Perm (old ∷ ids s'.items) (new ∷ ids s.items)
    unfolding set_abstract
    set_abstract-replace new old t s m =
        let (ys, step, p) = replace-some old new (copy t) s.items m in
        (record s { items = ys }, rw (step, set_abstract), refl, p)

    -- With `oldid` not in the store and room left, `Set` appends a slot for `newid`.
    pub set_abstract-append :
        (new old : ℕ) (t : T) (s : Storage T)
        → ¬ Mem old (ids s.items)
        → length s.items < s.limit
        → set_abstract copy new t old (some s)
          ≡ ok (some (record s { items = s.items ++ (new, copy t) ∷ [] }))
    unfolding set_abstract
    set_abstract-append new old t s h room =
        rw (replace-none old new (copy t) s.items h, lt→ltb _ _ room, set_abstract)

    -- With neither, it throws.
    pub set_abstract_overflow :
        (new old : ℕ) (t : T) (s : Storage T)
        → ¬ Mem old (ids s.items)
        → s.limit ≤ length s.items
        → set_abstract copy new t old (some s)
          ≡ err (Exception.logic_error "Abstracts storage overflow")
    unfolding set_abstract
    set_abstract_overflow new old t s h full =
        rw (replace-none old new (copy t) s.items h, le→ltb_false _ _ full, set_abstract)

  -- `Get` finds every document that has a slot.
  pub find-some : (i : ℕ) (xs : List (ℕ × T)) → Mem i (ids xs) → (t : T) × (find i xs ≡ some t)
  unfolding find
  find-some i [] m = absurd (not-mem-nil m)
  find-some i ((j, t) ∷ xs) m = elim (Bool-cases (j == i)) [
    | inl e ↦ (t, rw e)
    | inr e ↦ let (u, f) = find-some i xs (mem_of_tail e) in (u, rw e f)
  ]
    where
      mem_of_tail : (j == i) ≡ false → Mem i (ids xs)
      mem_of_tail e =
          Or.elim Mem-prop (mem-cons.0 m) (λ same. absurd (cc (e, (==_iff j i).1 (sym same))))
            (λ k. k)

  pub get_abstract-some :
      (i : ℕ) (s : Storage T) → Mem i (ids s.items) → (t : T) × (get_abstract i (some s) ≡ some t)
  unfolding get_abstract
  get_abstract-some i s m = find-some i s.items m
