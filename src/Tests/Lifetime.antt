-- ===== src/Tests/Lifetime.antt =====
-- A server that is started, held twice, and waited for while Stop is called.
use palmira.Prelude.{◌≡◌, refl, false, arith}
use palmira.Grpc.Lifetime.{
  Server, alive, created, attach, stop, enter_wait, detach, copied, starts, enters, stops, Reach,
  start, later, closing,
}
use palmira.Grpc.Lifetime.Held.{Reach-alive}

abbrev program : (s : Server) × Reach s
unfolding attach enter_wait
program = (
  _,
  later
      (later (later (later start (copied (omega arith))) (starts (omega arith) refl))
        (enters (omega arith)))
      (stops (omega arith)),
)

last_detach : (detach created).end ≡ closing
unfolding detach
last_detach = refl

Reach-alive_example : (program.0.shut ≡ false) × (program.0.end ≡ alive)
unfolding attach enter_wait stop
Reach-alive_example = Reach-alive program.0 program.1 (omega arith)
