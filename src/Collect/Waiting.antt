-- ===== src/Collect/Waiting.antt =====
-- src/service/collect-docs.cpp: how impl::Search waits for the tasks of the pool.
pub mod Ends
pub mod Asleep
use palmira.Prelude.{ℕ, zero, suc, ◌≡◌, ◌==◌, if◌then◌else◌}

-- Where the thread that searches stands: in the loop over the sections, asleep on `cvWait`, or behind it.
pub data Main : Type 0 where
  spreading waiting returned : Main

-- `sections` are still to be looked at; of the tasks, `parts` is nParts, and `notifying` counts those that brought it to
-- 0 and are about to call notify_all.
pub record Search : Type 0 where
  pub sections : ℕ
  pub parts : ℕ
  pub notifying : ℕ
  pub main : Main

-- `notify_all` wakes up a thread that is asleep, and no other.
abbrev pub notified : Main → Main
notified spreading = spreading
notified waiting = returned
notified returned = returned

-- One step, of the thread or of a task. `mxWait` is held by the thread alone, so that it keeps no task off.
pub data Step (s : Search) : Search → Type 0 where
  insert_task :
      (n : ℕ)
      → s.main ≡ spreading
      → s.sections ≡ suc n
      → Step s (record s { sections = n; parts = suc s.parts })
  skip_section :
      (n : ℕ) → s.main ≡ spreading → s.sections ≡ suc n → Step s (record s { sections = n })
  wait : s.main ≡ spreading → s.sections ≡ zero → Step s (record s { main = waiting })
  finish_task :
      (n : ℕ)
      → s.parts ≡ suc n
      → Step s (record s { parts = n; notifying = if n == 0 then suc s.notifying else s.notifying })
  notify :
      (n : ℕ) → s.notifying ≡ suc n → Step s (record s { notifying = n; main = notified s.main })

abbrev pub fresh : ℕ → Search
fresh sections = record { sections = sections; parts = zero; notifying = zero; main = spreading }

pub data Reach (sections : ℕ) : Search → Type 0 where
  start : Reach sections (fresh sections)
  later : {s t : Search} → Reach sections s → Step s t → Reach sections t
