-- ===== src/Sorting/Laws.antt =====
-- What `sort` promises of a comparator that is a strict weak order on the elements at hand.
use mathlib.Core.Bool.{Bool-set}
use mathlib.Core.List.{
  Mem, Perm, mem-cons_self, mem-cons_of_mem, forall_mem-cons, mem-append, mem-append_left,
  mem-append_right, mem-cons,
}
use mathlib.Core.List.Perm
use mathlib.Core.Logic.Or
use palmira.Prelude.{
  ℕ, zero, suc, some, get_elem?, set, ◌≡◌, ap₂, inl, inr, Bool, true, false, List, [], ◌∷◌, ◌++◌,
  Bool-cases, sym,
}
use palmira.Sorting.{insert, sort}

module _ {ℓ} {A : Type ℓ} where
  -- `P` of every element.
  abbrev pub All {κ} : (A → Type κ) → List A → Type (ℓ ⊔ κ)
  All P xs = (x : A) → Mem x xs → P x

  pub All-nil {κ} : (P : A → Type κ) → All P []
  All-nil P x m = absurd (mathlib.Core.List.not-mem-nil m)

  pub All-perm {κ} : {P : A → Type κ} {xs ys : List A} → Perm xs ys → All P ys → All P xs
  All-perm p h x m = h x ((Perm.mem_iff p).0 m)

  pub All-tail {κ} : {P : A → Type κ} {x : A} {xs : List A} → All P (x ∷ xs) → All P xs
  All-tail {x} h y m = h y (mem-cons_of_mem x m)

  pub All-head {κ} : {P : A → Type κ} {x : A} {xs : List A} → All P (x ∷ xs) → P x
  All-head {x} h = h x mem-cons_self

module _ {ℓ} {A : Type ℓ} (less : A → A → Bool) where
  -- `b` does not come before `a`.
  abbrev pub NotAfter : A → A → Type 0
  NotAfter a b = less b a ≡ false

  pub NotAfter-prop : (a b : A) → IsProp (NotAfter a b)
  NotAfter-prop a b = Bool-set _ _

  -- A strict weak order on the values that satisfy `P`.
  pub record IsStrictWeak {κ} (P : A → Type κ) : Type (ℓ ⊔ κ) where
    pub asym : (a b : A) → P a → P b → less a b ≡ true → less b a ≡ false
    pub not_after_trans : (a b c : A) → P a → P b → P c → NotAfter a b → NotAfter b c → NotAfter a c

  -- Two values that come in either order are one.
  abbrev pub IsSeparating {κ} : (A → Type κ) → Type (ℓ ⊔ κ)
  IsSeparating P = (a b : A) → P a → P b → NotAfter a b → NotAfter b a → a ≡ b

  abbrev pub IsSorted : List A → Type ℓ
  IsSorted [] = Unit
  IsSorted (x ∷ xs) = All (NotAfter x) xs × IsSorted xs

  pub All-NotAfter_cons :
      {a b : A} {xs : List A} → NotAfter a b → All (NotAfter a) xs → All (NotAfter a) (b ∷ xs)
  All-NotAfter_cons {a} p h = (forall_mem-cons (NotAfter-prop a)).1 (p, h)

module _ {ℓ κ} {A : Type ℓ} (less : A → A → Bool) (P : A → Type κ) where
  insert-perm : (x : A) (xs : List A) → Perm (insert less x xs) (x ∷ xs)
  unfolding insert
  insert-perm x [] = Perm.rfl
  insert-perm x (y ∷ ys) = elim (Bool-cases (less y x)) [
    | inl e ↦ rw (e, insert) (Perm.trans (Perm.cons y (insert-perm x ys)) (Perm.swap x y ys))
    | inr e ↦ rw (e, insert) Perm.rfl
  ]

  -- Sorting rearranges.
  pub sort-perm : (xs : List A) → Perm (sort less xs) xs
  unfolding sort
  sort-perm [] = Perm.rfl
  sort-perm (x ∷ xs) = Perm.trans (insert-perm x (sort less xs)) (Perm.cons x (sort-perm xs))

  module _ (o : IsStrictWeak less P) where
    -- What no element of a sorted list precedes comes before all of them.
    pub All-NotAfter_of_head :
        (a b : A) (xs : List A)
        → P a
        → All P (b ∷ xs)
        → NotAfter less a b
        → All (NotAfter less b) xs
        → All (NotAfter less a) (b ∷ xs)
    All-NotAfter_of_head a b xs pa ps h below =
        All-NotAfter_cons less h
          λ x m. o.not_after_trans a b x pa (All-head ps) (ps x (mem-cons_of_mem b m)) h (below x m)

    insert-IsSorted :
        (x : A) (xs : List A) → P x → All P xs → IsSorted less xs → IsSorted less (insert less x xs)
    unfolding insert
    insert-IsSorted x [] px ps s = (All-nil _, tt)
    insert-IsSorted x (y ∷ ys) px ps s = elim (Bool-cases (less y x)) [
      | inl e ↦
          rw (e, insert)
            (
              All-perm (insert-perm x ys)
                  (All-NotAfter_cons less (o.asym y x (All-head ps) px e) s.0),
              insert-IsSorted x ys px (All-tail ps) s.1,
            )
      | inr e ↦ rw (e, insert) (All-NotAfter_of_head x y ys px ps e s.0, s)
    ]

    -- Sorting sorts.
    pub sort-IsSorted : (xs : List A) → All P xs → IsSorted less (sort less xs)
    unfolding sort
    sort-IsSorted [] ps = tt
    sort-IsSorted (x ∷ xs) ps =
        insert-IsSorted x (sort less xs) (All-head ps) (All-perm (sort-perm xs) (All-tail ps))
          (sort-IsSorted xs (All-tail ps))

    pub irreflexive : (a : A) → P a → less a a ≡ false
    irreflexive a p = elim (Bool-cases (less a a)) [ inl e ↦ o.asym a a p p e | inr e ↦ e ]

    -- Two sorted runs, the first nowhere after the second, make one.
    pub IsSorted-append :
        (xs ys : List A)
        → IsSorted less xs
        → IsSorted less ys
        → All (λ x. All (NotAfter less x) ys) xs
        → IsSorted less (xs ++ ys)
    IsSorted-append [] ys sx sy h = sy
    IsSorted-append (x ∷ xs) ys sx sy h = (
      λ z m. Or.elim (NotAfter-prop less x z) (mem-append.0 m) (sx.0 z) (All-head h z),
      IsSorted-append xs ys sx.1 sy (All-tail h),
    )

    -- There is one sorted arrangement, where the order tells all values apart.
    pub IsSorted-eq_of_perm :
        IsSeparating less P
        → (xs ys : List A) → All P xs
        → IsSorted less xs
        → IsSorted less ys
        → Perm xs ys
        → xs ≡ ys
    IsSorted-eq_of_perm sep [] ys ps sx sy p = Perm.nil-eq p
    IsSorted-eq_of_perm sep (x ∷ xs) [] ps sx sy p = Perm.eq-nil p
    IsSorted-eq_of_perm sep (x ∷ xs) (y ∷ ys) ps sx sy p =
        ap₂ ◌∷◌ heads (IsSorted-eq_of_perm sep xs ys (All-tail ps) sx.1 sy.1 tails)
      where
        py : P y
        py = ps y ((Perm.mem_iff p).1 mem-cons_self)

        down : NotAfter less x y
        down =
            All-NotAfter_cons less (irreflexive x (All-head ps)) sx.0 y
              ((Perm.mem_iff p).1 mem-cons_self)

        up : NotAfter less y x
        up = All-NotAfter_cons less (irreflexive y py) sy.0 x ((Perm.mem_iff p).0 mem-cons_self)

        heads : x ≡ y
        heads = sep x y (All-head ps) py down up

        tails : Perm xs ys
        tails = Perm.cons_inv (Perm.trans p (Perm.cons' (sym heads) Perm.rfl))

module _ {ℓ} {A : Type ℓ} where
  pub mem_of_get_elem? : (xs : List A) (k : ℕ) (w : A) → get_elem? xs k ≡ some w → Mem w xs
  mem_of_get_elem? [] k w h = cc
  mem_of_get_elem? (x ∷ xs) zero w h = let e : w ≡ x = cc in rw e mem-cons_self
  mem_of_get_elem? (x ∷ xs) (suc k) w h = mem-cons_of_mem x (mem_of_get_elem? xs k w h)

  -- An overwritten value changes places with the new one.
  pub set-perm :
      (xs : List A) (k : ℕ) (w x : A) → get_elem? xs k ≡ some w → Perm (w ∷ set xs k x) (x ∷ xs)
  set-perm [] k w x h = cc
  set-perm (y ∷ xs) zero w x h = let e : w ≡ y = cc in rw e (Perm.swap x y xs)
  set-perm (y ∷ xs) (suc k) w x h =
      Perm.trans (Perm.swap y w (set xs k x))
        (Perm.trans (Perm.cons y (set-perm xs k w x h)) (Perm.swap x y xs))

module _ {ℓ κ} {A : Type ℓ} {P : A → Type κ} where
  pub All-cons : (x : A) (xs : List A) → ((x : A) → IsProp (P x)) → P x → All P xs → All P (x ∷ xs)
  All-cons x xs prop p h = (forall_mem-cons prop).1 (p, h)

  pub All-snoc :
      (w : A) (xs : List A) → ((x : A) → IsProp (P x)) → All P xs → P w → All P (xs ++ w ∷ [])
  All-snoc w xs prop h p x m =
      Or.elim (prop x) (mem-append.0 m) (h x) ((forall_mem-cons prop).1 (p, All-nil _) x)

module _ {ℓ} {A : Type ℓ} (less : A → A → Bool) where
  pub IsSorted-left : (xs ys : List A) → IsSorted less (xs ++ ys) → IsSorted less xs
  IsSorted-left [] ys s = tt
  IsSorted-left (x ∷ xs) ys s = (λ z m. s.0 z (mem-append_left ys m), IsSorted-left xs ys s.1)

  pub IsSorted-right : (xs ys : List A) → IsSorted less (xs ++ ys) → IsSorted less ys
  IsSorted-right [] ys s = s
  IsSorted-right (x ∷ xs) ys s = IsSorted-right xs ys s.1

  -- Earlier values of a sorted list come before no later one.
  pub IsSorted-apart :
      (xs ys : List A) → IsSorted less (xs ++ ys) → All (λ x. All (NotAfter less x) ys) xs
  IsSorted-apart [] ys s k m y my = absurd (mathlib.Core.List.not-mem-nil m)
  IsSorted-apart (x ∷ xs) ys s k m y my =
      Or.elim (NotAfter-prop less k y) (mem-cons.0 m) (λ e. rw e (s.0 y (mem-append_right xs my)))
        (λ mk. IsSorted-apart xs ys s.1 k mk y my)
