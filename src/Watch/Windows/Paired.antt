-- ===== src/Watch/Windows/Paired.antt =====
-- Each handle that is waited for is that of a watch, and each watch has its handle there.
use palmira.Prelude.{
  ℕ, zero, suc, ◌≡◌, refl, ap, subst, sym, ◌∙◌, inl, inr, Bool, true, false, List, [], ◌∷◌, ◌++◌,
  Option, none, some, Option-cases, get_elem?,
}
use palmira.Values.{Bytes, Wide}
use palmira.Watch.Windows.{
  WatchInfo, WatchData, find, assign, erase, erase_at, add_watch, Action, drop_watch,
  signaled_watch, round, add, signal, Reach, start, later,
}
use palmira.Watch.Windows.Keys.{
  keys, Distinct, has-find, assign_new, keys-append, keys-assign, find-append, erase-append,
  pop_back-append, keys-erase, has-get, erase_at-without, Distinct-without, Distinct-append,
}

-- The handles are the event that stops and those of the watches, in order and none twice.
pub record Paired (stop_event : ℕ) (s : WatchData) : Type 0 where
  pub paired : s.handles ≡ stop_event ∷ keys s.watches
  pub distinct : Distinct (keys s.watches)

-- A watch that is dropped takes its handle with it.
drop_watch-Paired :
    (stop_event : ℕ) (to_bytes : Wide → Bytes) (changes : Option (List (Action × Wide)))
    (restarted : Bool) (i e : ℕ) (s : WatchData)
    → Paired stop_event s
    → get_elem? (keys s.watches) i ≡ some e
    → Paired stop_event (drop_watch to_bytes changes restarted (suc i) e s)
unfolding drop_watch erase_at
drop_watch-Paired stop_event to_bytes changes restarted i e s p g = record {
  paired =
      ap (erase_at (suc i)) p.paired
      ∙ ap (◌∷◌ stop_event)
          (erase_at-without (keys s.watches) i e p.distinct g ∙ sym (keys-erase e s.watches));
  distinct =
      subst Distinct (sym (keys-erase e s.watches))
        (Distinct-without e (keys s.watches) p.distinct);
}

assign-Paired :
    (stop_event e : ℕ) (i w : WatchInfo) (s : WatchData)
    → Paired stop_event s
    → find e s.watches ≡ some w
    → Paired stop_event (record s { watches = assign e i s.watches })
assign-Paired stop_event e i w s p f = record {
  paired = p.paired ∙ ap (◌∷◌ stop_event) (sym (keys-assign e i s.watches w f));
  distinct = subst Distinct (sym (keys-assign e i s.watches w f)) p.distinct;
}

signaled_watch-Paired :
    (stop_event : ℕ) (to_bytes : Wide → Bytes) (changes : Option (List (Action × Wide)))
    (restarted : Bool) (i e : ℕ) (w : WatchInfo) (s : WatchData)
    → Paired stop_event s
    → get_elem? (keys s.watches) i ≡ some e
    → find e s.watches ≡ some w
    → Paired stop_event (signaled_watch to_bytes changes restarted (suc i) e w s).0
unfolding signaled_watch
signaled_watch-Paired stop_event to_bytes none restarted i e w s p g f =
    drop_watch-Paired stop_event to_bytes none restarted i e s p g
signaled_watch-Paired stop_event to_bytes (some cs) true i e w s p g f =
    assign-Paired stop_event e _ w s p f
signaled_watch-Paired stop_event to_bytes (some cs) false i e w s p g f =
    drop_watch-Paired stop_event to_bytes (some cs) false i e s p g

round-Paired :
    (stop_event : ℕ) (to_bytes : Wide → Bytes) (changes : Option (List (Action × Wide)))
    (restarted : Bool) (index : ℕ) (s : WatchData)
    → Paired stop_event s
    → Paired stop_event (round to_bytes changes restarted index s).0
unfolding round
round-Paired stop_event to_bytes changes restarted zero s p = p
round-Paired stop_event to_bytes changes restarted (suc i) s p =
    elim (Option-cases (get_elem? s.handles (suc i))) [
      | inl g ↦ rw (g, round) p
      | inr (e, g) ↦ elim (Option-cases (find e s.watches)) [
        | inl f ↦ absurd (known e (subst (λ hs. get_elem? hs (suc i) ≡ some e) p.paired g) f)
        | inr (w, f) ↦
            rw (g, f, round)
              (signaled_watch-Paired stop_event to_bytes changes restarted i e w s p
                (subst (λ hs. get_elem? hs (suc i) ≡ some e) p.paired g) f)
      ]
    ]
  where
    known : (e : ℕ) → get_elem? (keys s.watches) i ≡ some e → find e s.watches ≡ none → ⊥
    known e g f = cc (has-get (keys s.watches) i e g, has-find e s.watches f)

add_watch-Paired :
    (stop_event : ℕ) (path : Wide) (recursive : Bool) (directory event : Option ℕ) (started : Bool)
    (s : WatchData)
    → ((e : ℕ) → event ≡ some e → find e s.watches ≡ none)
    → Paired stop_event s
    → Paired stop_event (add_watch path recursive directory event started s).0
unfolding add_watch
add_watch-Paired stop_event path recursive none event started s n p = p
add_watch-Paired stop_event path recursive (some d) none started s n p = p
add_watch-Paired stop_event path recursive (some d) (some e) true s n p =
    assign-Paired stop_event e (record info { pending_io = true }) info there added
      (ap (find e) (assign_new e info s.watches (n e refl))
        ∙ find-append e info s.watches (n e refl))
  where
    info : WatchInfo
    info = record { directory_handle = d; path = path; recursive = recursive; pending_io = false }

    there : WatchData
    there = record { watches = assign e info s.watches; handles = s.handles ++ e ∷ [] }

    new_keys : keys (assign e info s.watches) ≡ keys s.watches ++ e ∷ []
    new_keys = ap keys (assign_new e info s.watches (n e refl)) ∙ keys-append s.watches e info

    added : Paired stop_event there
    added = record {
      paired = ap (λ hs. hs ++ e ∷ []) p.paired ∙ ap (◌∷◌ stop_event) (sym new_keys);
      distinct =
          subst Distinct (sym new_keys)
            (Distinct-append e (keys s.watches) p.distinct (has-find e s.watches (n e refl)));
    }
add_watch-Paired stop_event path recursive (some d) (some e) false s n p = record {
  paired = pop_back-append s.handles e ∙ p.paired ∙ ap (λ ws. stop_event ∷ keys ws) (sym same);
  distinct = subst (λ ws. Distinct (keys ws)) (sym same) p.distinct;
}
  where
    same :
        erase e (
          assign e
            (record {
              directory_handle = d;
              path = path;
              recursive = recursive;
              pending_io = false;
            })
            s.watches)
        ≡ s.watches
    same =
        ap (erase e) (assign_new e _ s.watches (n e refl)) ∙ erase-append e _ s.watches (n e refl)

-- Whatever watches are added and whatever handles are signaled, with failures of Windows at each place, the handles that
-- are waited for are the event that stops and those of the watches, in order, and no two watches
-- have the same event. An event that Windows gives is not one of a watch that there is.
pub Reach-Paired : (stop_event : ℕ) (s : WatchData) → Reach stop_event s → Paired stop_event s
Reach-Paired stop_event _ start = record { paired = refl; distinct = tt }
Reach-Paired stop_event _ (later {s} r (add path recursive directory event started n)) =
    add_watch-Paired stop_event path recursive directory event started s n
      (Reach-Paired stop_event s r)
Reach-Paired stop_event _ (later {s} r (signal to_bytes changes restarted index)) =
    round-Paired stop_event to_bytes changes restarted index s (Reach-Paired stop_event s r)
