-- ===== src/Tools/Queue/Order.antt =====
-- What goes into the queue comes out in order.
use mathlib.Core.List.{append_assoc}
use palmira.Prelude.{
  ℕ, suc, ◌≤◌, ◌≡◌, refl, ap, sym, ◌∙◌, Bool, true, false, not, ◌||◌, List, [], ◌∷◌, ◌++◌, Option,
  none, some, ltb, ltb→lt, length, length-append, if◌then◌else◌, arith,
}
use palmira.Tools.Queue.{
  Collector, Got, got, put, get, Log, Step, put_one, get_one, get_none, no_more, stop, Reach, start,
  later,
}

if_some {ℓ} :
    {A : Type ℓ} (b : Bool) (x y : A) → (if b then some x else none) ≡ some y → (b ≡ true) × (x ≡ y)
if_some true x y h = (refl, cc h)
if_some false x y h = cc h

either : (a b : Bool) → a || b ≡ true → b ≡ false → a ≡ true
either true b h k = refl
either false b h k = cc (h, k)

module _ {V : Type 0} (limit : ℕ) where
  -- The values that were put are those that were got and those in the queue; while the program goes
  -- on there are no more in it than the limit.
  pub record Ordered (s : Log V) : Type 0 where
    pub order : s.puts ≡ s.gots ++ s.queue.list
    pub bound : s.queue.can_continue ≡ true → length s.queue.list ≤ limit

  length_one : (xs : List V) (v : V) → length (xs ++ v ∷ []) ≡ suc (length xs)
  length_one xs v = omega (arith, length-append xs (v ∷ []))

  put_lem :
      (v : V) (c d : Collector V)
      → put limit v c ≡ some d
      → (d.list ≡ c.list ++ v ∷ []) × (d.can_continue ≡ true → length d.list ≤ limit)
  unfolding put
  put_lem v c d h =
      let (b, e) = if_some (ltb (length c.list) limit || not c.can_continue) _ d h in
      (ap (λ q. q.list) (sym e), bound b e)
    where
      bound :
          ltb (length c.list) limit || not c.can_continue ≡ true
          → record c { list = c.list ++ v ∷ [] } ≡ d
          → d.can_continue ≡ true
          → length d.list ≤ limit
      bound b e g =
          let lt : ltb (length c.list) limit ≡ true =
            either _ _ b (ap not (ap (λ q. q.can_continue) e ∙ g)) in
          let long : length d.list ≡ suc (length c.list) =
            ap (λ q. length q.list) (sym e) ∙ length_one c.list v in
          omega (arith, ltb→lt (length c.list) limit lt)

  get_lem :
      (go closed : Bool) (xs : List V) (v : V) (d : Collector V)
      → get limit (record { list = xs; can_continue = go; no_more_files = closed }) ≡ some (got v d)
      → (xs ≡ v ∷ d.list) × (d.can_continue ≡ go)
  unfolding get
  get_lem false closed xs v d h = cc h
  get_lem true true [] v d h = cc h
  get_lem true false [] v d h = cc h
  get_lem true closed (x ∷ xs) v d h = split (got_same h)
    where
      got_same :
          ◌≡◌ {A = Option (Got V)}
            (some (got x (record { list = xs; can_continue = true; no_more_files = closed })))
            (some (got v d))
          → (x ≡ v) × (record { list = xs; can_continue = true; no_more_files = closed } ≡ d)
      got_same e = (cc e, cc e)

      split :
          (x ≡ v) × (record { list = xs; can_continue = true; no_more_files = closed } ≡ d)
          → (x ∷ xs ≡ v ∷ d.list) × (d.can_continue ≡ true)
      split (e, k) = (cc (e, ap (λ q. q.list) k), sym (ap (λ q. q.can_continue) k))

  Step-Ordered : {s t : Log V} → Step limit s t → Ordered s → Ordered t
  Step-Ordered {s} (put_one v c e) h =
      let p : (c.list ≡ s.queue.list ++ v ∷ []) × (c.can_continue ≡ true → length c.list ≤ limit) =
        put_lem v s.queue c e in
      record {
        order =
            ap (λ xs. xs ++ v ∷ []) h.order
            ∙ append_assoc s.gots s.queue.list (v ∷ [])
            ∙ ap (◌++◌ s.gots) (sym p.0);
        bound = p.1;
      }
  Step-Ordered {s} (get_one v c e) h =
      let p : (s.queue.list ≡ v ∷ c.list) × (c.can_continue ≡ s.queue.can_continue) =
        get_lem s.queue.can_continue s.queue.no_more_files s.queue.list v c e in
      record {
        order = h.order ∙ ap (◌++◌ s.gots) p.0 ∙ sym (append_assoc s.gots (v ∷ []) c.list);
        bound = λ k. omega (arith, h.bound (sym p.1 ∙ k), ap length p.0);
      }
  Step-Ordered (get_none e) h = h
  Step-Ordered no_more h = record { order = h.order; bound = h.bound }
  Step-Ordered stop h = record { order = h.order; bound = λ k. cc k }

  -- Whatever the threads of the indexer do, what was put into the queue is what was got of it, in the same
  -- order, and then what is in it; and as long as the program goes on there are no more values in it
  -- than the limit.
  pub Reach-Ordered : (s : Log V) → Reach limit s → Ordered s
  Reach-Ordered _ start = record { order = refl; bound = λ k. omega arith }
  Reach-Ordered _ (later r st) = Step-Ordered st (Reach-Ordered _ r)
