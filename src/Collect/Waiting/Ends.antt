-- ===== src/Collect/Waiting/Ends.antt =====
-- When the search comes back, and when it never does.
use palmira.Prelude.{ℕ, zero, suc, ◌+◌, ◌≡◌, refl, subst, arith}
use palmira.Collect.Waiting.{
  spreading, waiting, returned, Search, Step, insert_task, skip_section, wait, finish_task, notify,
  Reach, start, later,
}

-- Asleep for ever: no task is left that would wake it up.
pub record IsStuck (s : Search) : Type 0 where
  pub asleep : s.main ≡ waiting
  pub no_parts : s.parts ≡ zero
  pub no_notice : s.notifying ≡ zero

IsStuck-Step : {s t : Search} → IsStuck s → Step s t → ⊥
IsStuck-Step k (insert_task n m e) = cc (m, k.asleep)
IsStuck-Step k (skip_section n m e) = cc (m, k.asleep)
IsStuck-Step k (wait m e) = cc (m, k.asleep)
IsStuck-Step k (finish_task n e) = absurd (omega (arith, e, k.no_parts))
IsStuck-Step k (notify n e) = absurd (omega (arith, e, k.no_notice))

-- All tasks of the sections run before the thread goes to sleep, each as soon as it is inserted.
hasty :
    (sections left : ℕ)
    → Reach sections (record { sections = left; parts = zero; notifying = zero; main = spreading })
    → Reach sections (record { sections = zero; parts = zero; notifying = zero; main = spreading })
hasty sections zero r = r
hasty sections (suc left) r = hasty sections left (
    later (later (later r (insert_task left refl refl)) (finish_task zero refl)) (notify zero refl))

-- For every number of sections the search may sleep for ever: a state is reached in which the thread is asleep
-- and nothing can happen any more, when the tasks are done before it goes to sleep.
pub Reach-IsStuck :
    (sections : ℕ) → (s : Search) × Reach sections s × IsStuck s × ((t : Search) → ¬ Step s t)
Reach-IsStuck sections = (
  _,
  later (hasty sections sections start) (wait refl refl),
  stuck,
  λ t st. IsStuck-Step stuck st,
)
  where
    stuck : IsStuck (record { sections = zero; parts = zero; notifying = zero; main = waiting })
    stuck = record { asleep = refl; no_parts = refl; no_notice = refl }

-- The tasks of the last sections, none of which is done.
slow :
    (sections left parts : ℕ)
    → Reach sections
        (record { sections = left; parts = parts; notifying = suc zero; main = spreading })
    → Reach sections
        (record { sections = zero; parts = left + parts; notifying = suc zero; main = spreading })
slow sections zero parts r = subst (λ p. Reach sections (late p)) (omega arith) r
  where
    late : ℕ → Search
    late p = record { sections = zero; parts = p; notifying = suc zero; main = spreading }
slow sections (suc left) parts r =
    subst (λ p. Reach sections (late p)) (omega arith)
      (slow sections left (suc parts) (later r (insert_task left refl refl)))
  where
    late : ℕ → Search
    late p = record { sections = zero; parts = p; notifying = suc zero; main = spreading }

-- With two sections or more the search may come back when only the task of the first is done and all the
-- others still run: that task brought the count to 0 before the others were inserted, and notifies
-- when the thread has gone to sleep.
pub Reach-early :
    (more : ℕ)
    → (s : Search) × Reach (suc (suc more)) s × (s.main ≡ returned) × (s.parts ≡ suc more)
Reach-early more = (_, later (later spread (wait refl refl)) (notify zero refl), refl, omega arith)
  where
    first :
        Reach
          (suc (suc more))
          (record { sections = suc more; parts = zero; notifying = suc zero; main = spreading })
    first = later (later start (insert_task (suc more) refl refl)) (finish_task zero refl)

    spread : Reach (suc (suc more)) (record {
      sections = zero;
      parts = suc more + zero;
      notifying = suc zero;
      main = spreading;
    })
    spread = slow (suc (suc more)) (suc more) zero first
