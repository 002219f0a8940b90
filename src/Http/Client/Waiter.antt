-- ===== src/Http/Client/Waiter.antt =====
-- Client::impl::Waiter: those who wait for the report of a request, and the callback that brings it.
pub mod Wakes
use palmira.Prelude.{ℕ, ◌≡◌, Bool, true, false, ◌==◌, if◌then◌else◌}
use palmira.Values.{Zmap, no_entry}

-- Where a thread stands in Wait: before the test of `bReady` under the lock, asleep on the condition
-- with the lock given up, or back with what it got. `timed` is `timeout > 0.0`.
pub data Pc : Type 0 where
  outside : Pc
  testing blocked : (timed : Bool) → Pc
  returned : (timed : Bool) → Zmap → Pc

-- Waiter, with the threads by their numbers.
pub record System : Type 0 where
  pub b_ready : Bool
  pub result : Zmap
  pub pc : ℕ → Pc

abbrev pub move : (ℕ → Pc) → ℕ → Pc → ℕ → Pc
move pc i p j = if i == j then p else pc j

-- `notify_all`
abbrev pub wake : Pc → Pc
wake outside = outside
wake (testing timed) = testing timed
wake (blocked timed) = testing timed
wake (returned timed r) = returned timed r

-- One step: of a thread within Wait, each with the lock held, or of Done. A thread may wake up with no
-- cause, and one whose time is out tests once more. The report comes once.
pub data Step (report : Zmap) (s : System) : System → Type 0 where
  call_wait :
      (i : ℕ) (timed : Bool)
      → s.pc i ≡ outside
      → Step report s (record s { pc = move s.pc i (testing timed) })
  pass :
      (i : ℕ) (timed : Bool)
      → s.pc i ≡ testing timed
      → s.b_ready ≡ true
      → Step report s (record s { pc = move s.pc i (returned timed s.result) })
  block :
      (i : ℕ) (timed : Bool)
      → s.pc i ≡ testing timed
      → s.b_ready ≡ false
      → Step report s (record s { pc = move s.pc i (blocked timed) })
  wake_up :
      (i : ℕ) (timed : Bool)
      → s.pc i ≡ blocked timed
      → Step report s (record s { pc = move s.pc i (testing timed) })
  time_out :
      (i : ℕ)
      → s.pc i ≡ blocked true
      → Step report s
          (record s { pc = move s.pc i (returned true (if s.b_ready then s.result else no_entry)) })
  done :
      s.b_ready ≡ false
      → Step report s (record { b_ready = true; result = report; pc = λ j. wake (s.pc j) })

-- Waiter::Waiter
abbrev pub fresh : System
fresh = record { b_ready = false; result = no_entry; pc = λ j. outside }

pub data Reach (report : Zmap) : System → Type 0 where
  start : Reach report fresh
  later : {s t : System} → Reach report s → Step report s t → Reach report t
