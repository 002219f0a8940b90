-- ===== src/Grpc/Lifetime.antt =====
-- network/grpc/server.cpp, the class Server: its references, and the threads that start it and wait for it.
pub mod Held
use palmira.Prelude.{ℕ, ◌+◌, ◌-◌, ◌<◌, ◌≡◌, Bool, true, false, ◌==◌, if◌then◌else◌}

-- Where `delete this` stands: no Detach has come to zero, one waits for `waiter`, or it is done.
pub data End : Type 0 where
  alive closing deleted : End

-- The members of Server, with gRPC's server as two flags, and the holders of a reference: those that are in Wait, behind the
-- setting of `waiter`, and the others.
pub record Server : Type 0 where
  pub rcount : ℕ
  pub started : Bool
  pub shut : Bool
  pub waiter : Bool
  pub end : End
  pub idle : ℕ
  pub waiting : ℕ

-- Server::Server, and the reference of `mtc::api` that is made of it by Attach.
abbrev pub created : Server
created = record {
  rcount = 1;
  started = false;
  shut = false;
  waiter = false;
  end = alive;
  idle = 1;
  waiting = 0;
}

-- Attach, of a copy of a reference.
unfoldable pub attach : Server → Server
attach s = record s { rcount = s.rcount + 1; idle = s.idle + 1 }

-- Detach, up to the wait: the last reference shuts the server down if it has been started.
unfoldable pub detach : Server → Server
detach s =
    let refers = s.rcount - 1 in
    if refers == 0
    then record s {
      rcount = refers;
      idle = s.idle - 1;
      shut = if s.started then true else s.shut;
      end = closing;
    }
    else record s { rcount = refers; idle = s.idle - 1 }

-- Stop has no body.
unfoldable pub stop : Server → Server
stop s = s

-- Wait, up to `server->Wait()`; without a server it throws and changes nothing.
unfoldable pub enter_wait : Server → Server
enter_wait s =
    if s.started then record s { waiter = true; idle = s.idle - 1; waiting = s.waiting + 1 } else s

-- Wait, after `server->Wait()`.
unfoldable pub leave_wait : Server → Server
leave_wait s = record s { waiter = false; idle = s.idle + 1; waiting = s.waiting - 1 }

-- A step of a thread that holds a reference, or of the Detach that came to zero. `server->Wait()` returns once the server is
-- shut down. Start is called once.
pub data Step (s : Server) : Server → Type 0 where
  copied : 0 < s.idle + s.waiting → Step s (attach s)
  dropped : 0 < s.idle → Step s (detach s)
  starts : 0 < s.idle → s.started ≡ false → Step s (record s { started = true })
  stops : 0 < s.idle + s.waiting → Step s (stop s)
  enters : 0 < s.idle → Step s (enter_wait s)
  returns : 0 < s.waiting → s.shut ≡ true → Step s (leave_wait s)
  deletes : s.end ≡ closing → s.waiter ≡ false → Step s (record s { end = deleted })

pub data Reach : Server → Type 0 where
  start : Reach created
  later : {s t : Server} → Reach s → Step s t → Reach t
