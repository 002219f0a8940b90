-- ===== src/Http/Client/Waiter/Wakes.antt =====
-- No one who waits for a report misses it.
use palmira.Prelude.{
  ℕ, ◌≡◌, refl, ap, ◌∙◌, ◌⊎◌, inl, inr, Bool, true, false, Bool-cases, ==_iff, ◌==◌, if◌then◌else◌,
}
use palmira.Values.{Zmap, no_entry}
use palmira.Http.Client.Waiter.{
  Pc, outside, testing, blocked, returned, System, move, wake, Step, call_wait, pass, block,
  wake_up, time_out, done, Reach, start, later,
}

-- What is so of a thread.
abbrev pub Fits : (report : Zmap) (ready : Bool) → Pc → Type 0
Fits report ready outside = Unit
Fits report ready (testing timed) = Unit
Fits report ready (blocked timed) = ready ≡ false
Fits report ready (returned false r) = (ready ≡ true) × (r ≡ report)
Fits report ready (returned true r) = (r ≡ report) ⊎ (r ≡ no_entry)

pub record Inv (report : Zmap) (s : System) : Type 0 where
  pub told : s.b_ready ≡ true → s.result ≡ report
  pub fits : (i : ℕ) → Fits report s.b_ready (s.pc i)

module _ (report : Zmap) where
  move-Fits :
      (ready : Bool) (pc : ℕ → Pc) (i : ℕ) (p : Pc)
      → Fits report ready p
      → ((j : ℕ) → Fits report ready (pc j))
      → (j : ℕ) → Fits report ready (move pc i p j)
  move-Fits ready pc i p h all j = elim (Bool-cases (i == j)) [
    | inl e ↦ rw e h
    | inr e ↦ rw e (all j)
  ]

  passed-Fits :
      (ready timed : Bool) (r : Zmap)
      → ready ≡ true
      → r ≡ report
      → Fits report ready (returned timed r)
  passed-Fits ready false r h e = (h, e)
  passed-Fits ready true r h e = inl e

  wake-Fits :
      (ready : Bool) (p : Pc) → ready ≡ false → Fits report ready p → Fits report true (wake p)
  wake-Fits ready outside h f = tt
  wake-Fits ready (testing timed) h f = tt
  wake-Fits ready (blocked timed) h f = tt
  wake-Fits ready (returned false r) h f = (refl, f.1)
  wake-Fits ready (returned true r) h f = f

  late-Fits :
      (ready : Bool) (r : Zmap)
      → (ready ≡ true → r ≡ report)
      → Fits report ready (returned true (if ready then r else no_entry))
  late-Fits true r h = inl (h refl)
  late-Fits false r h = inr refl

  Step-Inv : {s t : System} → Step report s t → Inv report s → Inv report t
  Step-Inv {s} (call_wait i timed e) v = record {
    told = v.told;
    fits = move-Fits s.b_ready s.pc i (testing timed) tt v.fits;
  }
  Step-Inv {s} (pass i timed e h) v = record {
    told = v.told;
    fits = move-Fits s.b_ready s.pc i _ (passed-Fits _ timed _ h (v.told h)) v.fits;
  }
  Step-Inv {s} (block i timed e h) v = record {
    told = v.told;
    fits = move-Fits s.b_ready s.pc i (blocked timed) h v.fits;
  }
  Step-Inv {s} (wake_up i timed e) v = record {
    told = v.told;
    fits = move-Fits s.b_ready s.pc i (testing timed) tt v.fits;
  }
  Step-Inv {s} (time_out i e) v = record {
    told = v.told;
    fits = move-Fits s.b_ready s.pc i _ (late-Fits s.b_ready s.result v.told) v.fits;
  }
  Step-Inv {s} (done h) v = record {
    told = λ k. refl;
    fits = λ j. wake-Fits s.b_ready (s.pc j) h (v.fits j);
  }

  Reach-Inv : {s : System} → Reach report s → Inv report s
  Reach-Inv start = record { told = λ k. cc k; fits = λ j. tt }
  Reach-Inv (later r st) = Step-Inv st (Reach-Inv r)

  move_same : (pc : ℕ → Pc) (i : ℕ) (p : Pc) → move pc i p i ≡ p
  move_same pc i p = rw ((==_iff i i).1 refl) refl

  -- Thread `i`, which stands at `p`, gets the report: it can come back with it by its next step if it is
  -- within Wait, and has come back with it if it has; with a time limit it may have come back empty.
  abbrev pub Served : (s : System) (i : ℕ) → Pc → Type 0
  Served s i outside = Unit
  Served s i (testing timed) = (t : System) × Step report s t × (t.pc i ≡ returned timed report)
  Served s i (blocked timed) = (t : System) × Step report s t × (t.pc i ≡ returned timed report)
  Served s i (returned false x) = x ≡ report
  Served s i (returned true x) = (x ≡ report) ⊎ (x ≡ no_entry)

  -- Once Done was called, each thread that is in Wait, with a time limit or without, can come back by its
  -- next step, with the report, whatever the others did before: none sleeps. Who has come back has
  -- the report too, or nothing if the time was limited.
  pub Wait-Served : (s : System) → Reach report s → s.b_ready ≡ true → (i : ℕ) → Served s i (s.pc i)
  Wait-Served s r h i = from (s.pc i) refl ((Reach-Inv r).fits i)
    where
      from : (p : Pc) → s.pc i ≡ p → Fits report s.b_ready p → Served s i p
      from outside e f = tt
      from (testing timed) e f =
          (_, pass i timed e h, move_same s.pc i _ ∙ ap (returned timed) ((Reach-Inv r).told h))
      from (blocked timed) e f = cc (h, f)
      from (returned false x) e f = f.1
      from (returned true x) e f = f
