-- ===== src/Tools/Sender/Throttle.antt =====
-- How many requests of the sender are on the way.
use palmira.Prelude.{ℕ, ◌+◌, ◌<◌, ◌≤◌, ◌≡◌, refl, subst, Bool, arith}
use palmira.Tools.Sender.{
  Code, code_ok, code_timed_out, code_other, Phase, phase_free, phase_allowed, phase_inserted,
  Requests, issued, after_timeout, after_ok, answered, Step, allow, insert, count, answer, Reach,
  start, later,
}

-- The limit is from 4 to 100; every answer was counted once, and as one kind; and of the requests that were made
-- at most 100 have no answer.
pub record Bounded (s : Requests) : Type 0 where
  pub low : 4 ≤ s.maxrequests
  pub high : s.maxrequests ≤ 100
  pub answers : s.ok_count + s.timeout + s.fault ≡ s.finished
  pub caused : s.finished ≤ issued s.phase s.counted
  pub on_the_way : issued s.phase s.counted ≤ s.finished + 100

-- The place of the request that is allowed.
abbrev pub HasRoom : Phase → (counted finished : ℕ) → Type 0
HasRoom phase_allowed counted finished = counted < finished + 100
HasRoom _ counted finished = Unit

module _ {E : Type 0} (is_positive over_3 under_1_5 : E → Bool) where
  abbrev Within : ℕ → Type 0
  Within n = (4 ≤ n) × (n ≤ 100)

  after_timeout-Within : (n : ℕ) → Within n → Within (after_timeout is_positive over_3 under_1_5 n)
  unfolding after_timeout
  after_timeout-Within n h = (omega arith, omega arith)

  after_ok-Within : (e : E) (n : ℕ) → Within n → Within (after_ok is_positive over_3 under_1_5 e n)
  unfolding after_ok
  after_ok-Within e n h = (ground arith, ground arith)

  HasRoom-later : (p : Phase) (c f : ℕ) → HasRoom p c f → HasRoom p c (f + 1)
  HasRoom-later phase_free c f h = tt
  HasRoom-later phase_allowed c f h = omega arith
  HasRoom-later phase_inserted c f h = tt

  answered-Bounded :
      (code : Code) (e : E) (s : Requests)
      → s.finished < issued s.phase s.counted
      → Bounded s
      → Bounded (answered is_positive over_3 under_1_5 code e s)
  unfolding answered
  answered-Bounded code_ok e s h b =
      let w : Within (after_ok is_positive over_3 under_1_5 e s.maxrequests) =
        after_ok-Within e s.maxrequests (b.low, b.high) in
      record {
        low = w.0;
        high = w.1;
        answers = omega (arith, b.answers);
        caused = omega arith;
        on_the_way = omega (arith, b.on_the_way);
      }
  answered-Bounded code_timed_out e s h b =
      let w : Within (after_timeout is_positive over_3 under_1_5 s.maxrequests) =
        after_timeout-Within s.maxrequests (b.low, b.high) in
      record {
        low = w.0;
        high = w.1;
        answers = omega (arith, b.answers);
        caused = omega arith;
        on_the_way = omega (arith, b.on_the_way);
      }
  answered-Bounded code_other e s h b = record {
    low = b.low;
    high = b.high;
    answers = omega (arith, b.answers);
    caused = omega arith;
    on_the_way = omega (arith, b.on_the_way);
  }

  answered-room :
      (code : Code) (e : E) (s : Requests)
      → HasRoom s.phase s.counted s.finished
      → HasRoom
          (answered is_positive over_3 under_1_5 code e s).phase
          (answered is_positive over_3 under_1_5 code e s).counted
          (answered is_positive over_3 under_1_5 code e s).finished
  unfolding answered
  answered-room code_ok e s h = HasRoom-later s.phase s.counted s.finished h
  answered-room code_timed_out e s h = HasRoom-later s.phase s.counted s.finished h
  answered-room code_other e s h = HasRoom-later s.phase s.counted s.finished h

  record Inv (s : Requests) : Type 0 where
    bounded : Bounded s
    room : HasRoom s.phase s.counted s.finished

  -- The thread goes on, and the limit and the answers are as they were.
  moved-Bounded :
      (s : Requests) (p q : Phase) (counted : ℕ)
      → s.phase ≡ p
      → Bounded s
      → issued p s.counted ≤ issued q counted
      → issued q counted ≤ s.finished + 100
      → Bounded (record s { phase = q; counted = counted })
  moved-Bounded s p q counted e b more few = record {
    low = b.low;
    high = b.high;
    answers = b.answers;
    caused = omega (arith, subst (λ x. s.finished ≤ issued x s.counted) e b.caused);
    on_the_way = few;
  }

  Step-Inv : {s t : Requests} → Step is_positive over_3 under_1_5 s t → Inv s → Inv t
  Step-Inv {s} (allow p lt) v =
      let few : s.counted < s.finished + 100 = omega (arith, v.bounded.high) in
      record {
        bounded =
            moved-Bounded s phase_free phase_allowed s.counted p v.bounded (omega arith)
              (omega arith);
        room = few;
      }
  Step-Inv {s} (insert p) v =
      let few : s.counted < s.finished + 100 =
        subst (λ x. HasRoom x s.counted s.finished) p v.room in
      record {
        bounded =
            moved-Bounded s phase_allowed phase_inserted s.counted p v.bounded (omega arith)
              (omega arith);
        room = tt;
      }
  Step-Inv {s} (count p) v =
      let few : s.counted + 1 ≤ s.finished + 100 =
        subst (λ x. issued x s.counted ≤ s.finished + 100) p v.bounded.on_the_way in
      record {
        bounded =
            moved-Bounded s phase_inserted phase_free (s.counted + 1) p v.bounded (omega arith)
              (omega arith);
        room = tt;
      }
  Step-Inv {s} (answer code e lt) v = record {
    bounded = answered-Bounded code e s lt v.bounded;
    room = answered-room code e s v.room;
  }

  Reach-Inv : {s : Requests} → Reach is_positive over_3 under_1_5 s → Inv s
  Reach-Inv start = record {
    bounded = record {
      low = omega arith;
      high = omega arith;
      answers = refl;
      caused = omega arith;
      on_the_way = omega arith;
    };
    room = tt;
  }
  Reach-Inv (later r st) = Step-Inv st (Reach-Inv r)

  -- However the threads and the answers come in turn, the limit of the sender stays from 4 to 100, every answer
  -- is counted as one kind, and no more than 100 requests are without an answer.
  pub Reach-Bounded : (s : Requests) → Reach is_positive over_3 under_1_5 s → Bounded s
  Reach-Bounded s r = (Reach-Inv r).bounded
