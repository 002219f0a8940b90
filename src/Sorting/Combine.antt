-- ===== src/Sorting/Combine.antt =====
-- Putting the best of two lots together: the best of a lot stand for the whole lot.
use mathlib.Core.List.{
  Mem, Mem-prop, Perm, Permᴰ, mem-append, mem-append_left, mem-append_right, mem-cons, append_assoc,
  perm_append_comm,
}
use mathlib.Core.List.Permᴰ
use mathlib.Core.List.Perm
use mathlib.Core.Logic.Or
use mathlib.Core.Logic.{∥∥₁_elim}
use native.Mathlib.Bridge.{le_prop}
use native.Mathlib.Nat.{ℕ_set}
use palmira.Prelude.{
  ℕ, ◌+◌, ◌<◌, ◌≤◌, ◌≡◌, refl, ap₂, ◌∙◌, inl, inr, Bool, true, false, List, [], ◌∷◌, ◌++◌,
  Bool-cases, length, length-append, if◌then◌else◌, arith,
}
use palmira.Sorting.Laws.{
  All, All-perm, All-head, All-tail, NotAfter, NotAfter-prop, IsStrictWeak, irreflexive,
}
use palmira.Sorting.Top.{IsTop, IsTop-length, length-perm}

module _ {A : Type 0} (p : A → Bool) where
  -- How many values pass the test.
  count_if : List A → ℕ
  count_if [] = 0
  count_if (x ∷ xs) = (if p x then 1 else 0) + count_if xs

  count_if-append : (xs ys : List A) → count_if (xs ++ ys) ≡ count_if xs + count_if ys
  unfolding count_if
  count_if-append [] ys = omega arith
  count_if-append (x ∷ xs) ys = omega (arith, count_if-append xs ys)

  count_if-permᴰ : {xs ys : List A} → Permᴰ xs ys → count_if xs ≡ count_if ys
  unfolding count_if
  count_if-permᴰ Permᴰ.nil = refl
  count_if-permᴰ (Permᴰ.cons e q) = ap₂ (λ x n. (if p x then 1 else 0) + n) e (count_if-permᴰ q)
  count_if-permᴰ (Permᴰ.swap {l = l} e f) = rw (e, f) (omega arith)
  count_if-permᴰ (Permᴰ.trans q r) = count_if-permᴰ q ∙ count_if-permᴰ r

  count_if-perm : (xs ys : List A) → Perm xs ys → count_if xs ≡ count_if ys
  count_if-perm xs ys q = ∥∥₁_elim q (ℕ_set _ _) count_if-permᴰ

  count_if-All : (xs : List A) → All (λ x. p x ≡ true) xs → count_if xs ≡ length xs
  unfolding count_if
  count_if-All [] h = refl
  count_if-All (x ∷ xs) h = rw (All-head h) (omega (arith, count_if-All xs (All-tail h)))

  count_if_none : (xs : List A) → All (λ x. p x ≡ false) xs → count_if xs ≡ 0
  unfolding count_if
  count_if_none [] h = refl
  count_if_none (x ∷ xs) h = rw (All-head h) (omega (arith, count_if_none xs (All-tail h)))

  count_if-le : (xs : List A) → count_if xs ≤ length xs
  unfolding count_if
  count_if-le [] = omega arith
  count_if-le (x ∷ xs) = ground (arith, count_if-le xs)

  -- One that fails the test is missing from the count.
  count_if-lt : (k : A) (xs : List A) → Mem k xs → p k ≡ false → count_if xs < length xs
  unfolding count_if
  count_if-lt k [] m h = absurd (mathlib.Core.List.not-mem-nil m)
  count_if-lt k (x ∷ xs) m h =
      Or.elim le_prop (mem-cons.0 m) (λ e. rw (← e, h) (omega (arith, count_if-le xs)))
        (λ m'. ground (arith, count_if-lt k xs m' h))

module _ {A : Type 0} where
  length_pos_of_mem : (x : A) (xs : List A) → Mem x xs → 0 < length xs
  length_pos_of_mem x [] m = absurd (mathlib.Core.List.not-mem-nil m)
  length_pos_of_mem x (y ∷ ys) m = omega arith

module _ {A : Type 0} (less : A → A → Bool) where
  pub IsTop-kept_perm :
      {limit : ℕ} {seen kept kept' : List A}
      → Perm kept' kept
      → IsTop less limit seen kept
      → IsTop less limit seen kept'
  IsTop-kept_perm {kept} {kept'} q t = record {
    count = length-perm kept' kept q ∙ t.count;
    rest = t.rest;
    parts = Perm.trans (Perm.append_right t.rest q) t.parts;
    best = All-perm q t.best;
  }

  module _ {κ} {P : A → Type κ} (o : IsStrictWeak less P) (limit : ℕ)
      (lot others kept_lot kept : List A) (part : IsTop less limit lot kept_lot)
      (whole : IsTop less limit (kept_lot ++ others) kept) (ps : All P (lot ++ others)) where
    All-lot : All P lot
    All-lot x m = ps x (mem-append_left others m)

    -- What was left out of the lot comes before nothing that is kept at last: otherwise all that was
    -- kept of the lot would come before it too, and there are `limit` of these.
    left_out-NotAfter : (k r : A) → Mem k kept → Mem r part.rest → NotAfter less k r
    left_out-NotAfter k r mk mr = elim (Bool-cases (less r k)) [
      | inr h ↦ h
      | inl h ↦ absurd (too_many h)
    ]
      where
        P_of_kept : (x : A) → Mem x kept → P x
        P_of_kept x m = ps x (
            Or.elim Mem-prop
              (mem-append.0 ((Perm.mem_iff whole.parts).0 (mem-append_left whole.rest m)))
              (λ a.
                mem-append_left others ((Perm.mem_iff part.parts).0 (mem-append_left part.rest a)))
              (λ b. mem-append_right lot b))

        P_of_lot : (x : A) → Mem x kept_lot → P x
        P_of_lot x m = All-lot x ((Perm.mem_iff part.parts).0 (mem-append_left part.rest m))

        P_of_rest : P r
        P_of_rest = All-lot r ((Perm.mem_iff part.parts).0 (mem-append_right kept_lot mr))

        before_k : less r k ≡ true → All (λ x. less x k ≡ true) kept_lot
        before_k h x m = elim (Bool-cases (less x k)) [
          | inl e ↦ e
          | inr e ↦ cc (
            h,
            o.not_after_trans k x r (P_of_kept k mk) (P_of_lot x m) P_of_rest e
                (part.best x m r mr),
          )
        ]

        too_many : less r k ≡ true → ⊥
        too_many h = omega (
          arith,
          length_pos_of_mem r part.rest mr,
          part.count,
          whole.count,
          IsTop-length less part,
          length-append kept_lot others,
          count_if-perm (λ x. less x k) _ _ whole.parts,
          count_if-append (λ x. less x k) kept whole.rest,
          count_if-append (λ x. less x k) kept_lot others,
          count_if-lt (λ x. less x k) k kept mk (irreflexive less P o k (P_of_kept k mk)),
          count_if_none (λ x. less x k) whole.rest (whole.best k mk),
          count_if-All (λ x. less x k) kept_lot (before_k h),
        )

    -- The best of the kept ones and the others are the best of all.
    pub IsTop-trans : IsTop less limit (lot ++ others) kept
    IsTop-trans = record {
      count =
          omega (
            arith,
            part.count,
            whole.count,
            length-append kept_lot others,
            length-append lot others,
          );
      rest = whole.rest ++ part.rest;
      parts = regrouped;
      best = λ k mk x mx.
          Or.elim (NotAfter-prop less k x) (mem-append.0 mx) (whole.best k mk x)
            (left_out-NotAfter k x mk);
    }
      where
        regrouped : Perm (kept ++ (whole.rest ++ part.rest)) (lot ++ others)
        regrouped = rw (← append_assoc) (
            Perm.trans (Perm.append_right part.rest whole.parts) (
              rw append_assoc (
                Perm.trans (Perm.append_left kept_lot (perm_append_comm others part.rest))
                  (rw (← append_assoc) (Perm.append_right others part.parts)))))
