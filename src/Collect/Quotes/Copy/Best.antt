-- ===== src/Collect/Quotes/Copy/Best.antt =====
-- Which entries CopyAbstract keeps.
use mathlib.Core.List.{Perm, perm_append_singleton}
use mathlib.Core.List.Perm
use mathlib.Core.List.{append-nil, append_assoc, perm_middle}
use palmira.Prelude.{
  ℕ, suc, ◌≤◌, ◌≡◌, refl, sym, ap, ◌∙◌, subst, inl, inr, Bool, List, [], ◌∷◌, ◌++◌, some, ltb,
  length, length-append, get_elem?, set, length-set, get_elem?-append_left, get_elem?-middle,
  get_elem?-set, Bool-cases, ltb→lt, ltb_false→le, arith,
}
use palmira.Sorting.Laws.{
  All, All-nil, All-cons, All-snoc, NotAfter, NotAfter-prop, IsStrictWeak, mem_of_get_elem?,
  set-perm,
}
use palmira.Sorting.Top.{length-perm, IsTop, IsTop-nil, IsTop-append, IsTop-reject, IsTop-replace}
use palmira.Collect.Order.Total.{IsLinear}
use palmira.Collect.Quotes.Copy.{
  EntrySet, max_entry_set_count, pick, fill, lightest, improve, select,
}

module _ {W X : Type 0} (lt : W → W → Bool) where
  -- `a` is kept rather than `b`.
  abbrev pub heavier : EntrySet W X → EntrySet W X → Bool
  heavier a b = lt b.weight a.weight

  abbrev Any : EntrySet W X → Type 0
  Any e = Unit

  any : (es : List (EntrySet W X)) → All Any es
  any es e m = tt

  module _ (l : IsLinear lt) where
    heavier-IsStrictWeak : IsStrictWeak heavier Any
    heavier-IsStrictWeak = record {
      asym = λ a b pa pb h. l.asym b.weight a.weight h;
      not_after_trans = λ a b c pa pb pc p q. l.not_lt_trans c.weight b.weight a.weight q p;
    }

    -- The entry at index `k` is there, and none of `es` is lighter.
    abbrev IsWorst : ℕ → List (EntrySet W X) → Type 0
    IsWorst k es =
        (w : EntrySet W X) × (get_elem? es k ≡ some w) × All (λ e. NotAfter heavier e w) es

    self : (w : EntrySet W X) → NotAfter heavier w w
    self w = elim (Bool-cases (lt w.weight w.weight)) [ inl e ↦ l.asym _ _ e | inr e ↦ e ]

    get_elem?-snoc :
        (es : List (EntrySet W X)) (x : EntrySet W X)
        → get_elem? (es ++ x ∷ []) (length es) ≡ some x
    get_elem?-snoc [] x = refl
    get_elem?-snoc (e ∷ es) x = get_elem?-snoc es x

    pick-IsWorst :
        (k : ℕ) (kept : List (EntrySet W X)) (e : EntrySet W X)
        → IsWorst k kept
        → IsWorst (pick lt k kept e) (kept ++ e ∷ [])
    unfolding pick
    pick-IsWorst k kept e (w, at, worst) = elim (Bool-cases (lt e.weight w.weight)) [
      | inl h ↦
          rw (get_elem?-append_left kept (e ∷ []) k w at, h, pick)
            (
              e,
              get_elem?-snoc kept e,
              All-snoc e kept (λ x. NotAfter-prop heavier x e)
                  (λ x m.
                    heavier-IsStrictWeak.not_after_trans x w e tt tt tt (worst x m) (l.asym _ _ h))
                  (self e),
            )
      | inr h ↦
          rw (get_elem?-append_left kept (e ∷ []) k w at, h, pick)
            (
              w,
              get_elem?-append_left kept (e ∷ []) k w at,
              All-snoc e kept (λ x. NotAfter-prop heavier x w) worst h,
            )
    ]

    lightest-IsWorst :
        (pre es : List (EntrySet W X)) (k : ℕ) (w : EntrySet W X)
        → get_elem? (pre ++ es) k ≡ some w
        → All (λ e. NotAfter heavier e w) pre
        → IsWorst (lightest lt (length pre) k w es) (pre ++ es)
    unfolding lightest
    lightest-IsWorst pre [] k w at worst =
        (w, at, subst (All (λ e. NotAfter heavier e w)) (sym (append-nil pre)) worst)
    lightest-IsWorst pre (e ∷ es) k w at worst = elim (Bool-cases (lt e.weight w.weight)) [
      | inl h ↦
          rw (h, lightest)
            (moved (length pre) e (
              lightest-IsWorst (pre ++ e ∷ []) es (length pre) e
                (ap (λ xs. get_elem? xs (length pre)) (append_assoc pre (e ∷ []) es)
                  ∙ get_elem?-middle pre e es)
                (All-snoc e pre (λ x. NotAfter-prop heavier x e)
                  (λ x m.
                    heavier-IsStrictWeak.not_after_trans x w e tt tt tt (worst x m) (l.asym _ _ h))
                  (self e))))
      | inr h ↦
          rw (h, lightest)
            (moved k w (
              lightest-IsWorst (pre ++ e ∷ []) es k w
                (ap (λ xs. get_elem? xs k) (append_assoc pre (e ∷ []) es) ∙ at)
                (All-snoc e pre (λ x. NotAfter-prop heavier x w) worst h)))
    ]
      where
        moved :
            (j : ℕ) (v : EntrySet W X)
            → IsWorst (lightest lt (length (pre ++ e ∷ [])) j v es) (pre ++ e ∷ [] ++ es)
            → IsWorst (lightest lt (suc (length pre)) j v es) (pre ++ e ∷ es)
        moved j v =
            subst
              (λ xs.
                IsWorst (lightest lt (length (pre ++ e ∷ [])) j v es) xs
                → IsWorst (lightest lt (suc (length pre)) j v es) (pre ++ e ∷ es))
              (sym (append_assoc pre (e ∷ []) es))
              (subst (λ n. IsWorst (lightest lt n j v es) (pre ++ e ∷ es))
                (omega (arith, length-append pre (e ∷ []))))

    IsTop-seen_perm :
        {limit : ℕ} {seen seen' kept : List (EntrySet W X)}
        → Perm seen seen'
        → IsTop heavier limit seen kept
        → IsTop heavier limit seen' kept
    IsTop-seen_perm p t = record {
      count = omega (arith, t.count, length-perm _ _ p);
      rest = t.rest;
      parts = Perm.trans t.parts p;
      best = t.best;
    }

    improve-IsTop :
        (k : ℕ) (kept src seen : List (EntrySet W X))
        → IsTop heavier max_entry_set_count seen kept
        → max_entry_set_count ≤ length kept
        → IsWorst k kept
        → IsTop heavier max_entry_set_count (src ++ seen) (improve lt k kept src)
    unfolding improve
    improve-IsTop k kept [] seen t full worst = t
    improve-IsTop k kept (e ∷ src) seen t full (w, at, worst) =
        elim (Bool-cases (lt w.weight e.weight)) [
          | inl h ↦
              rw (at, h, improve)
                (IsTop-seen_perm (perm_middle src seen) (
                  improve-IsTop (lightest lt 0 k e (set kept k e)) (set kept k e) src (e ∷ seen)
                    (IsTop-replace heavier heavier-IsStrictWeak t full (any seen) e w (set kept k e)
                      tt (mem_of_get_elem? kept k w at) worst (l.asym _ _ h)
                      (set-perm kept k w e at))
                    (omega (arith, length-set kept k e))
                    (lightest-IsWorst [] (set kept k e) k e (get_elem?-set kept k w e at)
                      (All-nil _))))
          | inr h ↦
              rw (at, h, improve)
                (IsTop-seen_perm (perm_middle src seen) (
                  improve-IsTop k kept src (e ∷ seen)
                    (IsTop-reject heavier heavier-IsStrictWeak t full (any seen) e w tt
                      (mem_of_get_elem? kept k w at) worst h)
                    full (w, at, worst)))
        ]

    fill-IsTop :
        (k : ℕ) (kept src seen : List (EntrySet W X))
        → IsTop heavier max_entry_set_count seen kept
        → IsWorst k kept
        → let (kept', k', rest) = fill lt k kept src in
          IsTop heavier max_entry_set_count (src ++ seen) (improve lt k' kept' rest)
    unfolding fill improve
    fill-IsTop k kept [] seen t worst = t
    fill-IsTop k kept (e ∷ src) seen t worst =
        elim (Bool-cases (ltb (length kept) max_entry_set_count)) [
          | inl room ↦
              rw (room, fill)
                (IsTop-seen_perm (perm_middle src seen) (
                  fill-IsTop (pick lt k kept e) (kept ++ e ∷ []) src (e ∷ seen)
                    (IsTop-append heavier t e (ltb→lt _ _ room)) (pick-IsWorst k kept e worst)))
          | inr full ↦
              rw (full, fill) (improve-IsTop k kept (e ∷ src) seen t (ltb_false→le _ _ full) worst)
        ]

    -- CopyAbstract keeps four of the entries, or all if there are no more, such that none left out is
    -- heavier than any of those kept.
    pub select-IsTop :
        (src : List (EntrySet W X)) → IsTop heavier max_entry_set_count src (select lt src)
    unfolding select fill improve pick
    select-IsTop [] = IsTop-nil heavier max_entry_set_count
    select-IsTop (e ∷ src) = rw first (
        IsTop-seen_perm (perm_append_singleton e src) (
          fill-IsTop 0 (e ∷ []) src (e ∷ [])
            (IsTop-append heavier (IsTop-nil heavier max_entry_set_count) e (omega arith))
            (e, refl, All-cons e [] (λ x. NotAfter-prop heavier x e) (self e) (All-nil _))))
      where
        first : fill lt 0 [] (e ∷ src) ≡ fill lt 0 (e ∷ []) src
        first = ap (λ k. fill lt k (e ∷ []) src) alone
          where
            alone : pick lt 0 [] e ≡ 0
            alone = rw (self e)
