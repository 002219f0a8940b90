-- ===== src/Http/Server/Stopping.antt =====
-- network/http/server.cpp, Stop and Wait of the class Server: the flag, the condition, and the threads.
pub mod Lost
use palmira.Prelude.{ℕ, zero, suc, ◌+◌, ◌-◌, ◌<◌, ◌≡◌, Bool, true, false}

-- Where Stop stands, which does not take the lock: before, between the flag and the notice, or behind both.
pub data StopPc : Type 0 where
  not_called flagged over : StopPc

-- `finish`, and the threads that are in Wait, by where they stand: before the test under the lock, behind a test that has
-- found `finish` false and with the lock, asleep, or back.
pub record Server : Type 0 where
  pub finish : Bool
  pub stop_pc : StopPc
  pub testing : ℕ
  pub in_between : Bool
  pub asleep : ℕ
  pub back : ℕ

abbrev pub created : Server
created = record {
  finish = false;
  stop_pc = not_called;
  testing = 0;
  in_between = false;
  asleep = 0;
  back = 0;
}

-- `cvwait.notify_one()`: one of those who sleep tests again, if any sleeps.
unfoldable pub notify_one : Server → Server
notify_one s = elim s.asleep [
  | zero ↦ record s { stop_pc = over }
  | suc n ↦ record s { stop_pc = over; asleep = n; testing = suc s.testing }
]

-- A step of a thread in Wait, or of Stop. Nobody wakes up without a cause.
pub data Step (s : Server) : Server → Type 0 where
  call_wait : Step s (record s { testing = suc s.testing })
  test_false :
      0 < s.testing
      → s.in_between ≡ false
      → s.finish ≡ false
      → Step s (record s { testing = s.testing - 1; in_between = true })
  test_true :
      0 < s.testing
      → s.in_between ≡ false
      → s.finish ≡ true
      → Step s (record s { testing = s.testing - 1; back = suc s.back })
  fall_asleep :
      s.in_between ≡ true → Step s (record s { in_between = false; asleep = suc s.asleep })
  set_finish : s.stop_pc ≡ not_called → Step s (record s { finish = true; stop_pc = flagged })
  notify : s.stop_pc ≡ flagged → Step s (notify_one s)

-- Steps one after another.
pub data Steps (s : Server) : Server → Type 0 where
  none_yet : Steps s s
  and_one : {t u : Server} → Steps s t → Step t u → Steps s u
