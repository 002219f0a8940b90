-- ===== src/Http/Server/Stopping/Lost.antt =====
-- Threads that a Stop does not wake.
use palmira.Prelude.{ℕ, zero, suc, ◌<◌, ◌≤◌, ◌≡◌, refl, sym, ◌∙◌, true, false, arith}
use palmira.Http.Server.Stopping.{
  not_called, flagged, over, Server, created, notify_one, Step, call_wait, test_false, test_true,
  fall_asleep, set_finish, notify, Steps, none_yet, and_one,
}

-- With Stop over, who sleeps sleeps on.
Step-over :
    (s t : Server) → Step s t → s.stop_pc ≡ over → (t.stop_pc ≡ over) × (s.asleep ≤ t.asleep)
Step-over s _ call_wait o = (o, omega arith)
Step-over s _ (test_false p b f) o = (o, omega arith)
Step-over s _ (test_true p b f) o = (o, omega arith)
Step-over s _ (fall_asleep b) o = (o, omega arith)
Step-over s _ (set_finish c) o = absurd (differ (sym c ∙ o))
  where
    differ : not_called ≡ over → ⊥
    differ e = cc e
Step-over s _ (notify c) o = absurd (differ (sym c ∙ o))
  where
    differ : flagged ≡ over → ⊥
    differ e = cc e

Steps-over :
    (s t : Server) → Steps s t → s.stop_pc ≡ over → (t.stop_pc ≡ over) × (s.asleep ≤ t.asleep)
Steps-over s _ none_yet o = (o, omega arith)
Steps-over s _ (and_one {t} {u} r step) o =
    let (there, less) = Steps-over s t r o in
    let (here, more) = Step-over t u step there in (here, omega (arith, less, more))

-- `n` threads asleep, and one more behind its test.
abbrev asleep_and_one : ℕ → Server
asleep_and_one n = record {
  finish = false;
  stop_pc = not_called;
  testing = 0;
  in_between = true;
  asleep = n;
  back = 0;
}

get_asleep : (n : ℕ) → Steps created (asleep_and_one n)
get_asleep zero = and_one (and_one none_yet call_wait) (test_false (omega arith) refl refl)
get_asleep (suc n) =
    and_one (and_one (and_one (get_asleep n) (fall_asleep refl)) call_wait)
      (test_false (omega arith) refl refl)

-- After a Stop that comes between the test and the sleep of that one.
abbrev pub lost : ℕ → Server
unfolding notify_one
lost n =
    let stopped : Server =
      notify_one (record (asleep_and_one n) { finish = true; stop_pc = flagged }) in
    record stopped { in_between = false; asleep = suc stopped.asleep }

get_lost : (n : ℕ) → Steps created (lost n)
unfolding notify_one
get_lost zero =
    and_one (and_one (and_one (get_asleep zero) (set_finish refl)) (notify refl)) (fall_asleep refl)
get_lost (suc n) =
    and_one (and_one (and_one (get_asleep (suc n)) (set_finish refl)) (notify refl))
      (fall_asleep refl)

lost-over :
    (n : ℕ)
    → ((lost n).finish ≡ true)
      × ((lost n).stop_pc ≡ over)
      × (0 < (lost n).asleep)
      × (n ≤ (lost n).asleep)
unfolding notify_one
lost-over zero = (refl, refl, omega arith, omega arith)
lost-over (suc n) = (refl, refl, omega arith, omega arith)

-- For any number of threads, n and one more, that are in Wait: they may stand so that Stop, which runs to its end, leaves one
-- of them asleep for ever, and all but one, if nobody is woken without a cause.
pub lost-asleep :
    (n : ℕ) (t : Server)
    → Steps (lost n) t
    → Steps created (lost n)
      × ((lost n).finish ≡ true)
      × ((lost n).stop_pc ≡ over)
      × (0 < t.asleep)
      × (n ≤ t.asleep)
lost-asleep n t r =
    let (set, over_now, one, most) = lost-over n in
    let (still, more) = Steps-over (lost n) t r over_now in
    (get_lost n, set, over_now, omega (arith, one, more), omega (arith, most, more))
