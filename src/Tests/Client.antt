-- ===== src/Tests/Client.antt =====
-- The client of HTTP: an address, an answer, and threads that wait.
use palmira.Prelude.{ℕ, ◌≡◌, refl, true, false, [], none, some, ok, err, Exception}
use palmira.Prelude.Int.{pos}
use palmira.Values.{Bytes, bytes_of, Zmap, no_entry, entry, key_charstr, z_int32}
use palmira.Http.Unpack.{Inflated, z_buf_error}
use palmira.Http.Server.{status_report}
use palmira.Http.Client.Address.{host_port}
use palmira.Http.Client.Address.Digits.{host_port-outcome}
use palmira.Http.Client.Answer.{exec_timed_out, done_with}
use palmira.Http.Client.Waiter.{
  Reach, start, later, call_wait, block, wake_up, done, System, returned,
}
use palmira.Http.Client.Waiter.Wakes.{Wait-Served}

-- Port 4294967376 is 80 and 2 ^ 32.
host_port-outcome_example : host_port (bytes_of "h:4294967376") ≡ ok (bytes_of "h", 80)
host_port-outcome_example =
    host_port-outcome (bytes_of "h") 52 (bytes_of "294967376") (refl, tt)
      (refl, (refl, (refl, (refl, (refl, (refl, (refl, (refl, (refl, (refl, tt))))))))))

host_port_colonless :
    host_port (bytes_of "host") ≡ err (Exception.invalid_argument "host:port expected")
unfolding host_port
host_port_colonless = refl

host_port_zero :
    host_port (bytes_of "h:0") ≡ err (Exception.invalid_argument "port as uint16 expected")
unfolding host_port
host_port_zero = refl

abbrev stuck : Bytes → ℕ → Inflated Bytes
stuck z room = record { ret = z_buf_error; out = []; stream = z }

done_with_timed_out :
    done_with
      (λ s. ok no_entry)
      (λ s. no_entry)
      {Z = Bytes}
      some
      stuck
      9
      0
      exec_timed_out
      (record { content_type = []; content_encoding = [] })
      none
    ≡ ok (status_report (pos 110) (bytes_of "request timed out"))
unfolding done_with
done_with_timed_out = refl

abbrev report : Zmap
report = entry (key_charstr []) (z_int32 (pos 0)) no_entry

-- Threads 0 and 1 wait, 0 sleeps, the report comes.
abbrev called : (s : System) × Reach report s
called = (
  _,
  later
      (later (later (later start (call_wait 0 false refl)) (block 0 false refl refl))
        (call_wait 1 true refl))
      (done refl),
)

Wait-Served_example :
    (t : System) × palmira.Http.Client.Waiter.Step report called.0 t
    × (t.pc 0 ≡ returned false report)
Wait-Served_example = Wait-Served report called.0 called.1 refl 0
