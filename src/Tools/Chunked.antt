-- ===== src/Tools/Chunked.antt =====
-- utils/libruseq/chunked-client.cpp: the stream that sends what is put into it in chunks.
pub mod Hex
pub mod Wire
use palmira.Prelude.{
  ℕ, zero, suc, ◌+◌, ◌-◌, ◌/◌, ◌%◌, Bool, true, false, not, List, [], ◌∷◌, ◌++◌, Option, none, some,
  ltb, ◌==◌, if◌then◌else◌, length, take, drop,
}
use palmira.Values.{Bytes}

-- What `send` returns: how much it takes, or a failure.
pub data Reply : Type 0 where
  took : ℕ → Reply
  refused : Reply

-- ChunkedStream: whether `sockFd` is -1, whether the socket is open, the buffer up to `bufptr`, and of the socket what it has
-- taken and how it replies to each `send` to come, with failures after the last.
pub record ChunkedStream : Type 0 where
  pub no_fd : Bool
  pub is_open : Bool
  pub buffer : Bytes
  pub sent : Bytes
  pub replies : List Reply

-- The loop of `put`, by the replies: those that are left, what was taken, and whether it was all.
unfoldable pub send_all : List Reply → Bytes → List Reply × Bytes × Bool
send_all rs [] = (rs, [], true)
send_all [] (b ∷ bs) = ([], [], false)
send_all (refused ∷ rs) (b ∷ bs) = (rs, [], false)
send_all (took n ∷ rs) (b ∷ bs) =
    let (rest, more, all) = send_all rs (drop n (b ∷ bs)) in (rest, take n (b ∷ bs) ++ more, all)

-- ChunkedStream::put
unfoldable pub put_raw : Bytes → ChunkedStream → ChunkedStream × Bool
unfolding send_all
put_raw bs s =
    if s.is_open
    then (let (rest, more, all) = send_all s.replies bs in
        (record s { replies = rest; sent = s.sent ++ more }, all))
    else (s, false)

-- A call, and what comes after it if it has not failed.
abbrev pub and_then :
    ChunkedStream × Bool → (ChunkedStream → ChunkedStream × Bool) → ChunkedStream × Bool
and_then (s, true) next = next s
and_then (s, false) next = (s, false)

-- Calls of `put` one after another, up to one that fails.
unfoldable pub put_each : List Bytes → ChunkedStream → ChunkedStream × Bool
unfolding put_raw
put_each [] s = (s, true)
put_each (b ∷ bs) s = and_then (put_raw b s) (λ s'. put_each bs s')

-- The digits of "%X".
abbrev pub hex_digit : ℕ → ℕ
hex_digit d = if ltb d 10 then 48 + d else 55 + d

unfoldable pub hex_loop : (fuel n : ℕ) → Bytes → Bytes
hex_loop zero n out = out
hex_loop (suc fuel) n out =
    if n == 0 then out else hex_loop fuel (n / 16) (hex_digit (n % 16) ∷ out)

-- `sprintf( header, "%X", n )`, of at most eight digits.
unfoldable pub print_hex : ℕ → Bytes
unfolding hex_loop
print_hex n = if n == 0 then 48 ∷ [] else hex_loop 8 n []

abbrev pub crlf : Bytes
crlf = 13 ∷ 10 ∷ []

-- A chunk goes out: its header, the buffer, and what stands behind it. After a failure the socket is closed.
abbrev pub ended_chunk : ChunkedStream × Bool → ChunkedStream × Bool
ended_chunk (s, true) = (record s { buffer = [] }, true)
ended_chunk (s, false) = (record s { is_open = false }, false)

unfoldable pub flush : (header tail : Bytes) → ChunkedStream → ChunkedStream × Bool
unfolding put_each
flush header tail s = ended_chunk (put_each (header ∷ s.buffer ∷ tail ∷ []) s)

-- "400\r\n"
abbrev pub full_header : Bytes
full_header = 52 ∷ 48 ∷ 48 ∷ 13 ∷ 10 ∷ []

-- `bufptr == std::end(buffer)`
unfoldable pub flush_full : ChunkedStream → ChunkedStream × Bool
unfolding flush
flush_full s = if length s.buffer == 1024 then flush full_header crlf s else (s, true)

-- ChunkedStream::Put, byte by byte: a byte is copied if there is room, and a full buffer goes out. Whether all is put.
unfoldable pub put : Bytes → ChunkedStream → ChunkedStream × Bool
unfolding flush_full
put [] s = (s, true)
put (b ∷ bs) s =
    and_then
      (and_then (flush_full s) (λ s1. flush_full (record s1 { buffer = s1.buffer ++ b ∷ [] })))
      (λ s2. put bs s2)

-- What `recv` returns.
pub data Received : Type 0 where
  got : Bytes → Received
  ended would_block failed : Received

-- The loop of Get, for `room` bytes: what is read, and whether the socket stays. Each reply that has bytes has no more of
-- them than there is room.
unfoldable pub receive : (room : ℕ) → List Received → Bytes × Bool
receive zero rs = ([], true)
receive (suc room) [] = ([], true)
receive (suc room) (ended ∷ rs) = ([], false)
receive (suc room) (would_block ∷ rs) = ([], true)
receive (suc room) (failed ∷ rs) = ([], false)
receive (suc room) (got bs ∷ rs) =
    let (more, stays) = receive (suc room - length bs) rs in (bs ++ more, stays)

-- The start of Get: what is in the buffer goes out.
unfoldable pub flush_rest : ChunkedStream → ChunkedStream × Bool
unfolding flush print_hex
flush_rest s = elim s.buffer [
  | [] ↦ (s, true)
  | b ∷ bs ↦ flush (print_hex (length (b ∷ bs)) ++ crlf) (crlf ++ crlf) s
]

-- The rest of Get, after what is read.
abbrev pub read_part : Bytes × Bool → ChunkedStream → ChunkedStream × Option Bytes
read_part (bs, true) s = (s, if s.no_fd then none else some bs)
read_part (bs, false) s = (record s { no_fd = true; is_open = false }, none)

-- ChunkedStream::Get: the bytes, or none for -1.
unfoldable pub get : (cc : ℕ) → List Received → ChunkedStream → ChunkedStream × Option Bytes
unfolding flush_rest receive
get cc rs s =
    let (s', done) = flush_rest s in if done then read_part (receive cc rs) s' else (s', none)
