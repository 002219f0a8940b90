-- ===== src/Collect/Documents/Linear.antt =====
-- impl::Search over one query: what the collector holds after each document.
use mathlib.Core.List.{
  Mem, Perm, map, mem-map_of_mem, map-append, exists_of_mem-map, mem-append_left,
}
use mathlib.Core.Logic.{∥∥₁_elim}
use mathlib.Core.HLevel.{⊥_prop}
use mathlib.Core.List.Perm
use palmira.Prelude.{
  ℕ, ◌≤◌, ◌<◌, ◌≡◌, refl, sym, ◌∙◌, subst, inl, inr, List, [], ◌∷◌, ◌++◌, none, some, ltb, length,
  length-map, get_elem?, set, Bool-cases, Option-cases, lt→ltb, ltb→lt, ltb_false→le, arith, ok,
}
use palmira.Sorting.Laws.{All, All-perm, NotAfter, IsStrictWeak, mem_of_get_elem?, set-perm}
use palmira.Sorting.Top.{IsTop, IsTop-nil, IsTop-append, IsTop-reject, IsTop-replace, length-perm}
use palmira.Collect.Quotes.{Storage, set_abstract, ids, no_id, create}
use palmira.Collect.Quotes.Ids.{ids-append, length-ids, set_abstract-replace, set_abstract-append}
use palmira.Collect.Documents.{
  Entity, Data, Tuples, Impl, less, n_limit, init, detect_worst, worst_index, replace_worst, accept,
}
use palmira.Collect.Documents.Worst.{detect_worst-IsWorst}

-- The document numbers of a list of entities.
abbrev pub entity_ids : {W : Type 0} → List (Entity W) → List ℕ
entity_ids = map (λ e. e.id)

module _ {W T Q : Type 0} (d : Data W T Q) where
  -- No kept entity comes after the one at index `k`.
  abbrev pub IsWorstAt : ℕ → List (Entity W) → Type 0
  IsWorstAt k kept =
      (w : Entity W) × (get_elem? kept k ≡ some w) × All (λ e. NotAfter (less d) e w) kept

  -- After the documents `seen`: the buffer holds the best of them, a cached `pWorst` is right, and
  -- the store of abstracts has one slot for each kept document.
  pub record Holds (seen : List (Entity W)) (s : Impl W T) : Type 0 where
    pub top : IsTop (less d) (n_limit d) seen s.buffer
    pub cached : (k : ℕ) → s.worst ≡ some k → (n_limit d ≤ length s.buffer) × IsWorstAt k s.buffer
    pub store : Storage T
    pub stored : s.quo_box ≡ some store
    pub store_limit : store.limit ≡ n_limit d
    pub slots : Perm (ids store.items) (entity_ids s.buffer)

  pub init-Holds : Holds [] (init d)
  unfolding init create
  init-Holds = record {
    top = IsTop-nil (less d) (n_limit d);
    cached = λ k h. absurd (cc h);
    store = record { limit = n_limit d; items = [] };
    stored = refl;
    store_limit = refl;
    slots = Perm.nil;
  }

  pub init_buffer : (init d).buffer ≡ []
  unfolding init
  init_buffer = refl

  pub init_found : (init d).n_found ≡ 0
  unfolding init
  init_found = refl

  pub All-seen_kept :
      {P : Entity W → Type 0} {limit : ℕ} {seen kept : List (Entity W)}
      → IsTop (less d) limit seen kept
      → All P seen
      → All P kept
  All-seen_kept t ps x m = All-perm t.parts ps x (mem-append_left t.rest m)

  module _ {P : Entity W → Type 0} (o : IsStrictWeak (less d) P)
      (valid : (e : Entity W) → P e → e.id < no_id) (tp : Tuples T) where
    pub no_id_free : (kept : List (Entity W)) → All P kept → ¬ Mem no_id (entity_ids kept)
    no_id_free kept ps m =
        ∥∥₁_elim (exists_of_mem-map m) ⊥_prop
          λ (e, me, same). absurd (strict e.id same (valid e (ps e me)))
      where
        strict : (i : ℕ) → i ≡ no_id → ¬ (i < no_id)
        strict i h k = omega arith

    -- Of a well-kept state: the room left in the buffer is the room left in the store.
    pub length-slots :
        (kept : List (Entity W)) (items : List (ℕ × T))
        → Perm (ids items) (entity_ids kept)
        → length items ≡ length kept
    length-slots kept items p =
        sym (length-ids items) ∙ length-perm _ _ p ∙ length-map kept (λ e. e.id)

    append-Holds :
        (seen : List (Entity W)) (s : Impl W T) (e : Entity W) (t : T)
        → Holds seen s
        → All P seen
        → length s.buffer < n_limit d
        → (s' : Impl W T) × (accept d tp e t s ≡ ok s')
          × Holds (e ∷ seen) s'
          × (s'.n_found ≡ s.n_found)
    unfolding accept
    append-Holds seen s e t h ps room = (
      s',
      rw (lt→ltb (length s.buffer) (n_limit d) room, h.stored, setting, accept),
      record {
        top = IsTop-append (less d) h.top e room;
        cached = λ k eq. absurd (clash (h.cached k eq).0);
        store = store';
        stored = refl;
        store_limit = h.store_limit;
        slots = slots';
      },
      refl,
    )
      where
        store' : Storage T
        store' = record h.store { items = h.store.items ++ (e.id, tp.copy t) ∷ [] }

        s' : Impl W T
        s' = record s { buffer = s.buffer ++ e ∷ []; quo_box = some store' }

        clash : n_limit d ≤ length s.buffer → ⊥
        clash full = omega arith

        kept_ps : All P s.buffer
        kept_ps = All-seen_kept h.top ps

        setting : set_abstract tp.copy e.id t no_id (some h.store) ≡ ok (some store')
        setting =
            set_abstract-append tp.copy e.id no_id t h.store
              (λ m. no_id_free s.buffer kept_ps ((Perm.mem_iff h.slots).0 m))
              (omega (arith, length-slots s.buffer h.store.items h.slots, h.store_limit))

        slots' : Perm (ids store'.items) (entity_ids (s.buffer ++ e ∷ []))
        slots' =
            rw (ids-append h.store.items e.id (tp.copy t), map-append (λ x. x.id) s.buffer (e ∷ []))
              (Perm.append_right (e.id ∷ []) h.slots)

    replace-Holds :
        (seen : List (Entity W)) (s : Impl W T) (k : ℕ) (w e : Entity W) (t : T)
        → Holds seen s
        → All P seen
        → P e
        → n_limit d ≤ length s.buffer
        → get_elem? s.buffer k ≡ some w
        → All (λ x. NotAfter (less d) x w) s.buffer
        → (s' : Impl W T) × (replace_worst d tp e t s k w ≡ ok s')
          × Holds (e ∷ seen) s'
          × (s'.n_found ≡ s.n_found)
    unfolding replace_worst
    replace-Holds seen s k w e t h ps pe full at worst = elim (Bool-cases (less d e w)) [
      | inl better ↦
          let (store', setting, limit', p) =
            set_abstract-replace tp.copy e.id w.id t h.store slot in
          (
            record s { buffer = set s.buffer k e; worst = none; quo_box = some store' },
            rw (better, h.stored, setting, replace_worst),
            record {
              top =
                  IsTop-replace (less d) o h.top full ps e w (set s.buffer k e) pe
                    (mem_of_get_elem? s.buffer k w at) worst
                    (o.asym e w pe (All-seen_kept h.top ps w (mem_of_get_elem? s.buffer k w at))
                      better)
                    (set-perm s.buffer k w e at);
              cached = λ j eq. absurd (cc eq);
              store = store';
              stored = refl;
              store_limit = limit' ∙ h.store_limit;
              slots = Perm.cons_inv (
                  Perm.trans p (
                    Perm.trans (Perm.cons e.id h.slots)
                      (Perm.symm (Perm.map (λ x. x.id) (set-perm s.buffer k w e at)))));
            },
            refl,
          )
      | inr worse ↦ (
        record s { worst = some k },
        rw (worse, replace_worst),
        record {
          top =
              IsTop-reject (less d) o h.top full ps e w pe (mem_of_get_elem? s.buffer k w at) worst
                worse;
          cached = λ j eq.
              subst (λ i. (n_limit d ≤ length s.buffer) × IsWorstAt i s.buffer) (some_eq eq)
                (full, (w, at, worst));
          store = h.store;
          stored = h.stored;
          store_limit = h.store_limit;
          slots = h.slots;
        },
        refl,
      )
    ]
      where
        slot : Mem w.id (ids h.store.items)
        slot =
            (Perm.mem_iff h.slots).1 (mem-map_of_mem (λ x. x.id) (mem_of_get_elem? s.buffer k w at))

        some_eq : {i j : ℕ} → some i ≡ some j → i ≡ j
        some_eq eq = cc

    scan-IsWorstAt :
        (kept : List (Entity W))
        → All P kept
        → 0 < length kept
        → IsWorstAt (detect_worst d kept) kept
    scan-IsWorstAt [] ps h = elim h [ ]
    scan-IsWorstAt (e ∷ es) ps h = detect_worst-IsWorst d o e es ps

    -- With a full buffer `pWorst`, cached or found anew, is the worst of it.
    pub worst_index-IsWorstAt :
        (seen : List (Entity W)) (s : Impl W T)
        → Holds seen s
        → All P seen
        → 0 < n_limit d
        → n_limit d ≤ length s.buffer
        → IsWorstAt (worst_index d s) s.buffer
    unfolding worst_index
    worst_index-IsWorstAt seen s h ps positive full = elim (Option-cases s.worst) [
      | inl e ↦ rw (e, worst_index) (scan-IsWorstAt s.buffer (All-seen_kept h.top ps) (omega arith))
      | inr (k, e) ↦ rw (e, worst_index) (h.cached k e).1
    ]

    -- Whatever the state, a relevant document is taken in, without an exception, and the collector
    -- then holds the best of what it has seen.
    pub accept-Holds :
        (seen : List (Entity W)) (s : Impl W T) (e : Entity W) (t : T)
        → Holds seen s
        → All P seen
        → P e
        → 0 < n_limit d
        → (s' : Impl W T) × (accept d tp e t s ≡ ok s')
          × Holds (e ∷ seen) s'
          × (s'.n_found ≡ s.n_found)
    unfolding accept
    accept-Holds seen s e t h ps pe positive =
        elim (Bool-cases (ltb (length s.buffer) (n_limit d))) [
          | inl room ↦ append-Holds seen s e t h ps (ltb→lt _ _ room)
          | inr no_room ↦
              let full : n_limit d ≤ length s.buffer = ltb_false→le _ _ no_room in
              let (w, at, worst) = worst_index-IsWorstAt seen s h ps positive full in
              let (s', step, kept, found) =
                replace-Holds seen s (worst_index d s) w e t h ps pe full at worst in
              (s', rw (no_room, at, accept) step, kept, found)
        ]
