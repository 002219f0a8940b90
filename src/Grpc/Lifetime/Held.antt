-- ===== src/Grpc/Lifetime/Held.antt =====
-- The server while someone holds it.
use palmira.Prelude.{
  ◌+◌, ◌-◌, ◌<◌, ◌≡◌, refl, inl, inr, Bool, true, false, Bool-cases, ◌==◌, ==_iff, if◌then◌else◌,
  arith,
}
use palmira.Grpc.Lifetime.{
  Server, alive, closing, attach, detach, stop, enter_wait, copied, dropped, starts, stops, enters,
  returns, deletes, Reach, start, later,
}

record IsHeld (s : Server) : Type 0 where
  counted : s.rcount ≡ s.idle + s.waiting
  waits : s.waiting ≡ 0 → s.waiter ≡ false
  held : 0 < s.rcount → (s.shut ≡ false) × (s.end ≡ alive)

positive : (s : Server) → IsHeld s → 0 < s.idle + s.waiting → 0 < s.rcount
positive s h p = omega (arith, p, h.counted)

attach-IsHeld : (s : Server) → 0 < s.idle + s.waiting → IsHeld s → IsHeld (attach s)
unfolding attach
attach-IsHeld s p h = record {
  counted = omega (arith, h.counted);
  waits = h.waits;
  held = λ q. h.held (positive s h p);
}

detach-IsHeld : (s : Server) → 0 < s.idle → IsHeld s → IsHeld (detach s)
unfolding detach
detach-IsHeld s p h = elim (Bool-cases (s.rcount - 1 == 0)) [
  | inl e ↦
      rw (e, detach)
        (record {
          counted = omega (arith, h.counted, p);
          waits = h.waits;
          held = λ q. absurd (omega (arith, q, (==_iff (s.rcount - 1) 0).0 e));
        })
  | inr e ↦
      rw (e, detach)
        (record {
          counted = omega (arith, h.counted, p);
          waits = h.waits;
          held = λ q. h.held (positive s h (omega (arith, p)));
        })
]

enter_wait-IsHeld : (s : Server) → 0 < s.idle → IsHeld s → IsHeld (enter_wait s)
unfolding enter_wait
enter_wait-IsHeld s p h =
    either s.started (record s { waiter = true; idle = s.idle - 1; waiting = s.waiting + 1 }) s
      (record {
        counted = omega (arith, h.counted, p);
        waits = λ q. absurd (omega (arith, q));
        held = h.held;
      })
      h
  where
    either : (b : Bool) (x y : Server) → IsHeld x → IsHeld y → IsHeld (if b then x else y)
    either true x y hx hy = hx
    either false x y hx hy = hy

Reach-IsHeld : (s : Server) → Reach s → IsHeld s
unfolding stop
Reach-IsHeld _ start = record { counted = refl; waits = λ e. refl; held = λ q. (refl, refl) }
Reach-IsHeld _ (later {s} r (copied p)) = attach-IsHeld s p (Reach-IsHeld s r)
Reach-IsHeld _ (later {s} r (dropped p)) = detach-IsHeld s p (Reach-IsHeld s r)
Reach-IsHeld _ (later {s} r (starts p e)) =
    let h = Reach-IsHeld s r in record { counted = h.counted; waits = h.waits; held = h.held }
Reach-IsHeld _ (later {s} r (stops p)) = Reach-IsHeld s r
Reach-IsHeld _ (later {s} r (enters p)) = enter_wait-IsHeld s p (Reach-IsHeld s r)
Reach-IsHeld _ (later {s} r (returns p e)) =
    let h = Reach-IsHeld s r in absurd (cc ((h.held (positive s h (omega (arith, p)))).0, e))
Reach-IsHeld _ (later {s} r (deletes e w)) =
    let h = Reach-IsHeld s r in
    record {
      counted = h.counted;
      waits = h.waits;
      held = λ q. absurd (alive_is_not_closing (cc ((h.held q).1, e)));
    }
  where
    alive_is_not_closing : alive ≡ closing → ⊥
    alive_is_not_closing e = cc e

-- As long as anyone holds a reference to the server, whoever has called Stop, it is not shut down and not deleted: so
-- nobody who is in Wait comes back from it.
pub Reach-alive :
    (s : Server) → Reach s → 0 < s.idle + s.waiting → (s.shut ≡ false) × (s.end ≡ alive)
Reach-alive s r p = (Reach-IsHeld s r).held (positive s (Reach-IsHeld s r) p)

-- The last Detach does not sleep: when it looks at `waiter`, nobody is in Wait.
Reach-awake : (s : Server) → Reach s → s.end ≡ closing → s.waiter ≡ false
Reach-awake s r e = elim (Bool-cases (s.rcount == 0)) [
  | inl z ↦
      (Reach-IsHeld s r).waits (omega (arith, (Reach-IsHeld s r).counted, (==_iff s.rcount 0).0 z))
  | inr z ↦ absurd (alive_is_not_closing (cc (((Reach-IsHeld s r).held (ground arith)).1, e)))
]
  where
    alive_is_not_closing : alive ≡ closing → ⊥
    alive_is_not_closing e = cc e
