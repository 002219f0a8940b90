-- ===== src/Sorting/Top.antt =====
-- The best `limit` of the values seen so far, in any order: what a bounded collector keeps.
use mathlib.Core.List.{
  Mem, Perm, Permᴰ, mem-cons, mem-cons_of_mem, mem-append_left, mem-append_right, append-nil,
  perm_middle, perm_append_singleton,
}
use mathlib.Core.List.Perm
use mathlib.Core.Logic.Or
use mathlib.Core.Logic.{∥∥₁_elim}
use native.Mathlib.Nat.{ℕ_set}
use palmira.Prelude.{
  ℕ, zero, suc, ◌+◌, ◌<◌, ◌≤◌, min, ◌≡◌, refl, sym, ap, ◌∙◌, subst, Bool, false, List, [], ◌∷◌,
  ◌++◌, length, length-append, take, arith,
}
use palmira.Sorting.{sort}
use palmira.Sorting.Laws.{
  All, All-nil, All-perm, NotAfter, NotAfter-prop, All-NotAfter_cons, IsStrictWeak, IsSeparating,
  sort-perm, sort-IsSorted, IsSorted-append, IsSorted-eq_of_perm,
}

module _ {ℓ} {A : Type ℓ} where
  length-permᴰ : {xs ys : List A} → Permᴰ xs ys → length xs ≡ length ys
  length-permᴰ Permᴰ.nil = refl
  length-permᴰ (Permᴰ.cons e p) = ap suc (length-permᴰ p)
  length-permᴰ (Permᴰ.swap e f) = refl
  length-permᴰ (Permᴰ.trans p q) = length-permᴰ p ∙ length-permᴰ q

  pub length-perm : (xs ys : List A) → Perm xs ys → length xs ≡ length ys
  length-perm xs ys p = ∥∥₁_elim p (ℕ_set _ _) length-permᴰ

module _ {A : Type 0} (less : A → A → Bool) where
  -- `kept` are the best `limit` of `seen`: `rest` is what is left out, and nothing in it comes
  -- before anything kept.
  pub record IsTop (limit : ℕ) (seen kept : List A) : Type 0 where
    pub count : length kept ≡ min limit (length seen)
    pub rest : List A
    pub parts : Perm (kept ++ rest) seen
    pub best : All (λ k. All (NotAfter less k) rest) kept

  pub IsTop-nil : (limit : ℕ) → IsTop limit [] []
  IsTop-nil limit = record { count = omega arith; rest = []; parts = Perm.nil; best = All-nil _ }

  module _ {limit : ℕ} {seen kept : List A} (t : IsTop limit seen kept) where
    pub IsTop-length : length kept + length t.rest ≡ length seen
    IsTop-length = sym (length-append kept t.rest) ∙ length-perm _ _ t.parts

    -- With room left everything is kept.
    IsTop-rest_nil : length kept < limit → t.rest ≡ []
    IsTop-rest_nil room = nil_of_length t.rest (omega (arith, IsTop-length, t.count))
      where
        nil_of_length : (xs : List A) → length xs ≡ 0 → xs ≡ []
        nil_of_length [] e = refl
        nil_of_length (x ∷ xs) e = absurd (omega arith)

    pub IsTop-append : (x : A) → length kept < limit → IsTop limit (x ∷ seen) (kept ++ x ∷ [])
    IsTop-append x room = record {
      count = omega (arith, length-append kept (x ∷ []), IsTop-length, t.count);
      rest = [];
      parts = rw (append-nil (kept ++ x ∷ [])) (
          Perm.trans (perm_append_singleton x kept)
            (Perm.cons x (subst (λ r. Perm r seen) all_kept t.parts)));
      best = λ k m. All-nil _;
    }
      where
        all_kept : kept ++ t.rest ≡ kept
        all_kept = ap (◌++◌ kept) (IsTop-rest_nil room) ∙ append-nil kept

    -- A newcomer before no kept value is left out.
    pub IsTop-leave_out :
        (x : A)
        → limit ≤ length kept
        → All (λ k. NotAfter less k x) kept
        → IsTop limit (x ∷ seen) kept
    IsTop-leave_out x full h = record {
      count = omega (arith, IsTop-length, t.count);
      rest = x ∷ t.rest;
      parts = Perm.trans (perm_middle kept t.rest) (Perm.cons x t.parts);
      best = λ k m. All-NotAfter_cons less (h k m) (t.best k m);
    }

  module _ {κ} {P : A → Type κ} (o : IsStrictWeak less P) {limit : ℕ} {seen kept : List A}
      (t : IsTop limit seen kept) (full : limit ≤ length kept) (ps : All P seen) where
    pub All-kept : All P kept
    All-kept x m = All-perm t.parts ps x (mem-append_left t.rest m)

    All-rest : All P t.rest
    All-rest x m = All-perm t.parts ps x (mem-append_right kept m)

    -- A newcomer that does not come before the worst kept value is left out.
    pub IsTop-reject :
        (x w : A)
        → P x
        → Mem w kept
        → All (λ k. NotAfter less k w) kept
        → less x w ≡ false
        → IsTop limit (x ∷ seen) kept
    IsTop-reject x w px mw worst h =
        IsTop-leave_out t x full
          λ k m. o.not_after_trans k w x (All-kept k m) (All-kept w mw) px (worst k m) h

    -- Another takes its place.
    pub IsTop-replace :
        (x w : A) (kept' : List A)
        → P x
        → Mem w kept
        → All (λ k. NotAfter less k w) kept
        → NotAfter less x w
        → Perm (w ∷ kept') (x ∷ kept)
        → IsTop limit (x ∷ seen) kept'
    IsTop-replace x w kept' px mw worst h p = record {
      count = omega (arith, IsTop-length t, t.count, length-perm _ _ p);
      rest = w ∷ t.rest;
      parts =
          Perm.trans (perm_middle kept' t.rest)
            (Perm.trans (Perm.append_right t.rest p) (Perm.cons x t.parts));
      best = λ k m.
          Or.elim (Π_All (w ∷ t.rest)) (mem-cons.0 ((Perm.mem_iff p).0 (mem-cons_of_mem w m)))
            (λ e. rw e newcomer) (λ old. All-NotAfter_cons less (worst k old) (t.best k old));
    }
      where
        Π_All : {a : A} (xs : List A) → IsProp (All (NotAfter less a) xs)
        Π_All {a} xs = hlevel (NotAfter-prop less a)

        newcomer : All (NotAfter less x) (w ∷ t.rest)
        newcomer =
            All-NotAfter_cons less h λ r mr.
              o.not_after_trans x w r px (All-kept w mw) (All-rest r mr) h (t.best w mw r mr)

  take-append_min :
      (limit : ℕ) (xs ys : List A)
      → length xs ≡ min limit (length xs + length ys)
      → take limit (xs ++ ys) ≡ xs
  take-append_min zero [] ys h = refl
  take-append_min zero (x ∷ xs) ys h = absurd (omega arith)
  take-append_min (suc n) [] [] h = refl
  take-append_min (suc n) [] (y ∷ ys) h = absurd (omega arith)
  take-append_min (suc n) (x ∷ xs) ys h = ap (◌∷◌ x) (take-append_min n xs ys (omega arith))

  module _ {κ} {P : A → Type κ} (o : IsStrictWeak less P) (sep : IsSeparating less P) where
    -- Two rearrangements sort to one list.
    pub sort-eq_of_perm : (xs ys : List A) → All P ys → Perm xs ys → sort less xs ≡ sort less ys
    sort-eq_of_perm xs ys ps p =
        IsSorted-eq_of_perm less P o sep (sort less xs) (sort less ys)
          (All-perm (Perm.trans (sort-perm less P xs) p) ps)
          (sort-IsSorted less P o xs (All-perm p ps)) (sort-IsSorted less P o ys ps)
          (Perm.trans (sort-perm less P xs) (Perm.trans p (Perm.symm (sort-perm less P ys))))

    -- The kept values, sorted, are the front of all values, sorted.
    pub sort-IsTop :
        {limit : ℕ} {seen kept : List A}
        → IsTop limit seen kept
        → All P seen
        → sort less kept ≡ take limit (sort less seen)
    sort-IsTop {limit} {seen} {kept} t ps =
        sym (take-append_min limit (sort less kept) (sort less t.rest) lengths)
        ∙ ap (take limit) whole
      where
        kept_ps : All P kept
        kept_ps x m = All-perm t.parts ps x (mem-append_left t.rest m)

        rest_ps : All P t.rest
        rest_ps x m = All-perm t.parts ps x (mem-append_right kept m)

        lengths :
            length (sort less kept)
            ≡ min limit (length (sort less kept) + length (sort less t.rest))
        lengths = omega (
          arith,
          length-perm _ _ (sort-perm less P kept),
          length-perm _ _ (sort-perm less P t.rest),
          t.count,
          IsTop-length t,
        )

        halves : Perm (sort less kept ++ sort less t.rest) seen
        halves = Perm.trans (Perm.append (sort-perm less P kept) (sort-perm less P t.rest)) t.parts

        apart : All (λ k. All (NotAfter less k) (sort less t.rest)) (sort less kept)
        apart k mk r mr =
            t.best k ((Perm.mem_iff (sort-perm less P kept)).0 mk) r
              ((Perm.mem_iff (sort-perm less P t.rest)).0 mr)

        whole : sort less kept ++ sort less t.rest ≡ sort less seen
        whole =
            IsSorted-eq_of_perm less P o sep _ _ (All-perm halves ps)
              (IsSorted-append less P o _ _ (sort-IsSorted less P o kept kept_ps)
                (sort-IsSorted less P o t.rest rest_ps) apart)
              (sort-IsSorted less P o seen ps)
              (Perm.trans halves (Perm.symm (sort-perm less P seen)))
