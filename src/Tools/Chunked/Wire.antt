-- ===== src/Tools/Chunked/Wire.antt =====
-- What stands on the wire after calls of Put and Get.
use palmira.Prelude.{
  ℕ, zero, suc, ◌<◌, ◌≤◌, ◌≡◌, refl, sym, ap, subst, ◌∙◌, inl, inr, Bool, true, false, List, [],
  ◌∷◌, ◌++◌, length, take, drop, length-append, ◌==◌, ==_iff, Bool-cases, arith,
}
use mathlib.Core.List.{append_assoc, append-nil}
use palmira.Values.{Bytes}
use palmira.Tools.Chunked.{
  Reply, took, refused, ChunkedStream, send_all, put_raw, and_then, put_each, print_hex, crlf,
  ended_chunk, flush, full_header, flush_full, put, flush_rest,
}
use palmira.Tools.Chunked.Hex.{AllHex, read_hex, read-print_hex, print_hex-AllHex}

-- A header says how many bytes come.
abbrev pub IsHeader : Bytes → ℕ → Type 0
IsHeader header n = AllHex header × (read_hex 0 header ≡ n)

-- The wire of a body in chunks, without the chunk that ends it.
pub data Chunks : (wire body : Bytes) → Type 0 where
  empty : Chunks [] []
  then_chunk :
      (header part : Bytes) {wire body : Bytes}
      → Chunks wire body
      → IsHeader header (length part)
      → 0 < length part
      → Chunks (wire ++ (header ++ crlf ++ (part ++ crlf))) (body ++ part)

-- All that was put is on the wire in chunks or in the buffer, which holds no more than `n` bytes.
abbrev pub Written : (n : ℕ) (all : Bytes) → ChunkedStream → Type 0
Written n all s =
    (body : Bytes) × Chunks s.sent body × (body ++ s.buffer ≡ all) × (length s.buffer ≤ n)

-- A call has put all, or the socket is closed.
abbrev pub Outcome : (n : ℕ) (all : Bytes) → ChunkedStream × Bool → Type 0
Outcome n all (s, true) = Written n all s
Outcome n all (s, false) = s.is_open ≡ false

and_then-Outcome :
    (n m : ℕ) (all more : Bytes) (r : ChunkedStream × Bool)
    (next : ChunkedStream → ChunkedStream × Bool)
    → Outcome n all r
    → ((s : ChunkedStream) → Written n all s → Outcome m more (next s))
    → Outcome m more (and_then r next)
and_then-Outcome n m all more (s, true) next h k = k s h
and_then-Outcome n m all more (s, false) next h k = h

-- What the socket took of a call that has not failed.
abbrev Sent : Bytes → ChunkedStream → ChunkedStream × Bool → Type 0
Sent bs s (s', true) = s'.sent ≡ s.sent ++ bs
Sent bs s (s', false) = Unit

take-drop : (n : ℕ) (bs : Bytes) → take n bs ++ drop n bs ≡ bs
take-drop zero bs = refl
take-drop (suc n) [] = refl
take-drop (suc n) (b ∷ bs) = ap (◌∷◌ b) (take-drop n bs)

send_all-all : (rs : List Reply) (bs : Bytes) → (send_all rs bs).2 ≡ true → (send_all rs bs).1 ≡ bs
unfolding send_all
send_all-all rs [] h = refl
send_all-all [] (b ∷ bs) h = cc h
send_all-all (refused ∷ rs) (b ∷ bs) h = cc h
send_all-all (took n ∷ rs) (b ∷ bs) h =
    ap (λ more. take n (b ∷ bs) ++ more) (send_all-all rs (drop n (b ∷ bs)) h)
    ∙ take-drop n (b ∷ bs)

put_raw-Sent : (bs : Bytes) (s : ChunkedStream) → Sent bs s (put_raw bs s)
unfolding put_raw
put_raw-Sent bs s = elim (Bool-cases s.is_open) [
  | inr o ↦ rw (o, put_raw) tt
  | inl o ↦ rw (o, put_raw) (pushed (send_all s.replies bs).2 refl)
]
  where
    pushed :
        (all : Bool)
        → (send_all s.replies bs).2 ≡ all
        → Sent bs s (
          record s {
            replies = (send_all s.replies bs).0;
            sent = s.sent ++ (send_all s.replies bs).1;
          },
          all,
        )
    pushed true h = ap (λ more. s.sent ++ more) (send_all-all s.replies bs h)
    pushed false h = tt

abbrev pub joined : List Bytes → Bytes
joined [] = []
joined (bs ∷ more) = bs ++ joined more

Sent-and_then :
    (bs more : Bytes) (s : ChunkedStream) (r : ChunkedStream × Bool)
    (next : ChunkedStream → ChunkedStream × Bool)
    → Sent bs s r
    → ((s' : ChunkedStream) → Sent more s' (next s'))
    → Sent (bs ++ more) s (and_then r next)
Sent-and_then bs more s (s', false) next h k = tt
Sent-and_then bs more s (s', true) next h k = from (next s') (k s')
  where
    from : (r : ChunkedStream × Bool) → Sent more s' r → Sent (bs ++ more) s r
    from (t, true) e = e ∙ ap (λ w. w ++ more) h ∙ append_assoc s.sent bs more
    from (t, false) e = tt

put_each-Sent : (parts : List Bytes) (s : ChunkedStream) → Sent (joined parts) s (put_each parts s)
unfolding put_each
put_each-Sent [] s = sym (append-nil s.sent)
put_each-Sent (bs ∷ more) s =
    Sent-and_then bs (joined more) s (put_raw bs s) (λ s'. put_each more s') (put_raw-Sent bs s)
      (λ s'. put_each-Sent more s')

-- After a chunk: it is on the wire and the buffer is empty, or the socket is closed.
abbrev Flushed : Bytes → ChunkedStream → ChunkedStream × Bool → Type 0
Flushed bs s (s', true) = (s'.sent ≡ s.sent ++ bs) × (s'.buffer ≡ [])
Flushed bs s (s', false) = s'.is_open ≡ false

flush-Flushed :
    (header tail : Bytes) (s : ChunkedStream)
    → Flushed (header ++ (s.buffer ++ (tail ++ []))) s (flush header tail s)
unfolding flush
flush-Flushed header tail s =
    from (put_each (header ∷ s.buffer ∷ tail ∷ []) s)
      (put_each-Sent (header ∷ s.buffer ∷ tail ∷ []) s)
  where
    from :
        (r : ChunkedStream × Bool)
        → Sent (header ++ (s.buffer ++ (tail ++ []))) s r
        → Flushed (header ++ (s.buffer ++ (tail ++ []))) s (ended_chunk r)
    from (t, true) e = (e, refl)
    from (t, false) e = refl

-- With the chunk of the buffer, all is on the wire.
chunk-Chunks :
    (header : Bytes) (n : ℕ) (all : Bytes) (s : ChunkedStream)
    → IsHeader header (length s.buffer)
    → 0 < length s.buffer
    → Written n all s
    → Chunks (s.sent ++ (header ++ crlf ++ (s.buffer ++ crlf))) all
chunk-Chunks header n all s h p (body, chunks, whole, room) =
    subst (Chunks (s.sent ++ (header ++ crlf ++ (s.buffer ++ crlf)))) whole
      (then_chunk header s.buffer chunks h p)

full_header_lem : IsHeader (52 ∷ 48 ∷ 48 ∷ []) 1024
full_header_lem = (
  (
    inl (omega arith, omega arith),
    (inl (omega arith, omega arith), (inl (omega arith, omega arith), tt)),
  ),
  refl,
)

Flushed-Outcome :
    (all : Bytes) (s : ChunkedStream)
    → length s.buffer ≡ 1024
    → Written 1024 all s
    → (r : ChunkedStream × Bool) → Flushed (full_header ++ (s.buffer ++ crlf)) s r
    → Outcome 1023 all r
Flushed-Outcome all s full w (t, false) h = h
Flushed-Outcome all s full w (t, true) (sent, none_left) = (
  all,
  subst (λ wire. Chunks wire all) (sym sent)
      (chunk-Chunks (52 ∷ 48 ∷ 48 ∷ []) 1024 all s (full_header_lem.0, sym full)
        (omega (arith, full)) w),
  ap (λ bs. all ++ bs) none_left ∙ append-nil all,
  subst (λ bs. length bs ≤ 1023) (sym none_left) (omega arith),
)

flush_full-Outcome :
    (all : Bytes) (s : ChunkedStream) → Written 1024 all s → Outcome 1023 all (flush_full s)
unfolding flush_full
flush_full-Outcome all s (body, chunks, whole, room) = elim (Bool-cases (length s.buffer == 1024)) [
  | inr e ↦ rw (e, flush_full) (body, chunks, whole, ground arith)
  | inl e ↦
      rw (e, flush_full)
        (Flushed-Outcome all s ((==_iff (length s.buffer) 1024).0 e) (body, chunks, whole, room)
          (flush full_header crlf s) (flush-Flushed full_header crlf s))
]

put-Outcome :
    (bs all : Bytes) (s : ChunkedStream) → Written 1023 all s → Outcome 1023 (all ++ bs) (put bs s)
unfolding put
put-Outcome [] all s (body, chunks, whole, room) =
    (body, chunks, whole ∙ sym (append-nil all), room)
put-Outcome (b ∷ bs) all s (body, chunks, whole, room) =
    and_then-Outcome 1023 1023 (all ++ b ∷ []) (all ++ b ∷ bs) _ (λ s2. put bs s2)
      (and_then-Outcome 1023 1023 all (all ++ b ∷ []) (flush_full s) _
        (flush_full-Outcome all s (body, chunks, whole, omega (arith, room)))
        (λ s1 w1.
          flush_full-Outcome (all ++ b ∷ []) (record s1 { buffer = s1.buffer ++ b ∷ [] })
            (grown s1 w1)))
      (λ s2 w2.
        subst (λ m. Outcome 1023 m (put bs s2)) (append_assoc all (b ∷ []) bs)
          (put-Outcome bs (all ++ b ∷ []) s2 w2))
  where
    grown :
        (s1 : ChunkedStream)
        → Written 1023 all s1
        → Written 1024 (all ++ b ∷ []) (record s1 { buffer = s1.buffer ++ b ∷ [] })
    grown s1 (d, c, e, r) = (
      d,
      c,
      sym (append_assoc d s1.buffer (b ∷ [])) ∙ ap (λ bs. bs ++ b ∷ []) e,
      omega (arith, length-append s1.buffer (b ∷ []), r),
    )

abbrev pub stray : Bytes → Bytes
stray [] = []
stray (b ∷ bs) = crlf

-- After the start of Get: all is on the wire, with what does not belong there behind it.
abbrev pub Ended : (all buffer : Bytes) → ChunkedStream × Bool → Type 0
Ended all buffer (s, true) =
    (wire : Bytes) × Chunks wire all × (s.sent ≡ wire ++ stray buffer) × (s.buffer ≡ [])
Ended all buffer (s, false) = s.is_open ≡ false

flush_rest-Ended :
    (all : Bytes) (s : ChunkedStream) → Written 1023 all s → Ended all s.buffer (flush_rest s)
unfolding flush_rest
flush_rest-Ended all s (body, chunks, whole, room) = by_buffer s.buffer refl
  where
    n : ℕ
    n = length s.buffer

    h : Bytes
    h = print_hex n ++ crlf

    behind :
        s.sent ++ (h ++ (s.buffer ++ (crlf ++ crlf))) ≡ s.sent ++ (h ++ (s.buffer ++ crlf)) ++ crlf
    behind =
        ap (λ w. s.sent ++ (h ++ w)) (sym (append_assoc s.buffer crlf crlf))
        ∙ ap (λ w. s.sent ++ w) (sym (append_assoc h (s.buffer ++ crlf) crlf))
        ∙ sym (append_assoc s.sent (h ++ (s.buffer ++ crlf)) crlf)

    some_bytes : (b : ℕ) (bs : Bytes) → s.buffer ≡ b ∷ bs → 0 < n
    some_bytes b bs e = subst (λ l. 0 < l) (sym (ap length e)) (omega arith)

    sent_off :
        (b : ℕ) (bs : Bytes)
        → s.buffer ≡ b ∷ bs
        → (r : ChunkedStream × Bool) → Flushed (h ++ (s.buffer ++ (crlf ++ crlf))) s r
        → Ended all (b ∷ bs) r
    sent_off b bs e (t, false) f = f
    sent_off b bs e (t, true) (sent, none_left) = (
      s.sent ++ (h ++ (s.buffer ++ crlf)),
      chunk-Chunks (print_hex n) 1023 all s
          (print_hex-AllHex n, read-print_hex n (omega (arith, room))) (some_bytes b bs e)
          (body, chunks, whole, room),
      sent ∙ behind,
      none_left,
    )

    by_buffer : (buf : Bytes) → s.buffer ≡ buf → Ended all buf (flush_rest s)
    by_buffer [] e =
        rw (e, flush_rest)
          (
            s.sent,
            subst (Chunks s.sent) (sym (append-nil body) ∙ ap (λ bs. body ++ bs) (sym e) ∙ whole)
                chunks,
            sym (append-nil s.sent),
            e,
          )
    by_buffer (b ∷ bs) e =
        rw (e, flush_rest)
          (subst (λ l. Ended all (b ∷ bs) (flush (print_hex l ++ crlf) (crlf ++ crlf) s))
            (ap length e)
            (sent_off b bs e (flush h (crlf ++ crlf) s) (flush-Flushed h (crlf ++ crlf) s)))

-- A Put that has failed has closed the socket; after another all that was put is written, and so it is when a Get has sent
-- off the rest.
abbrev pub AllSent : (all : Bytes) → ChunkedStream × Bool → Type 0
AllSent all (s, true) = Written 1023 all s × Ended all s.buffer (flush_rest s)
AllSent all (s, false) = s.is_open ≡ false

-- Whatever the socket takes of each `send`, and however the bytes come in calls: a Put that succeeds leaves all that was put
-- on the wire in chunks, each with its size, or in the buffer, which is not full, and a Put that fails leaves the socket
-- closed. When a Get has then sent off what is in the buffer, all is on the wire in chunks, but behind the last one that it
-- sent stands an empty line where a chunk or the end is due; or the socket is closed.
pub put-AllSent :
    (bs all : Bytes) (s : ChunkedStream) → Written 1023 all s → AllSent (all ++ bs) (put bs s)
put-AllSent bs all s w = both (put bs s) (put-Outcome bs all s w)
  where
    both : (r : ChunkedStream × Bool) → Outcome 1023 (all ++ bs) r → AllSent (all ++ bs) r
    both (t, true) h = (h, flush_rest-Ended (all ++ bs) t h)
    both (t, false) h = h
