-- ===== src/Http/Client/Address/Digits.antt =====
-- Which host and port an address with a decimal port gives.
use palmira.Prelude.{
  ℕ, zero, suc, ◌+◌, ◌-◌, ◌*◌, ◌%◌, ◌^◌, ◌<◌, min, ◌≡◌, refl, ap, sym, ◌∙◌, inl, inr, Bool, true,
  false, ◌&&◌, [], ◌∷◌, ◌++◌, Option, none, some, ◌==◌, Bool-cases, ltb, leb, lt→ltb, le→ltb_false,
  length, if◌then◌else◌, Result, ok, err, Exception, ◌>>=◌, arith,
}
use palmira.Values.{Bytes}
use palmira.Http.Client.Address.{
  colon, copy_host, is_space, is_digit, skip_spaces, read_digits, strtoul_unsigned, strtoul,
  no_port, port_of, host_port,
}

abbrev pub AllDigits : Bytes → Type 0
AllDigits [] = Unit
AllDigits (b ∷ bs) = (is_digit b ≡ true) × AllDigits bs

abbrev pub NoColon : Bytes → Type 0
NoColon [] = Unit
NoColon (b ∷ bs) = ((b == colon) ≡ false) × NoColon bs

-- The number that digits spell, by the places.
abbrev pub spelled : Bytes → ℕ
spelled [] = 0
spelled (b ∷ bs) = (b - 48) * 10 ^ length bs + spelled bs

ltb-suc : (a b : ℕ) → ltb (suc a) (suc b) ≡ ltb a b
ltb-suc a b = ground arith

ten_times : (n : ℕ) → 10 ^ suc n ≡ 10 * 10 ^ n
ten_times n = omega arith

places : (a d p q s : ℕ) → q ≡ 10 * p → (a * 10 + d) * p + s ≡ a * q + (d * p + s)
places a d p q s e = rw e (omega arith)

-- The host fits into the buffer with its end.
copy_host-NoColon :
    (room : ℕ) (host rest : Bytes)
    → NoColon host
    → copy_host room (host ++ colon ∷ rest)
      ≡ (if ltb (length host) room then some (host, colon ∷ rest) else none)
unfolding copy_host
copy_host-NoColon zero host rest h = rw (le→ltb_false (length host) 0 (omega arith)) refl
copy_host-NoColon (suc room) [] rest h = rw (lt→ltb 0 (suc room) (omega arith)) refl
copy_host-NoColon (suc room) (b ∷ bs) rest h =
    rw (h.0, copy_host, copy_host-NoColon room bs rest h.1, ltb-suc (length bs) room)
      (kept (ltb (length bs) room))
  where
    kept :
        (c : Bool)
        → elim (if◌then◌else◌ {A = Option (Bytes × Bytes)} c (some (bs, colon ∷ rest)) none) [
          | none ↦ none
          | some p ↦ some (b ∷ p.0, p.1)
        ]
          ≡ if◌then◌else◌ {A = Option (Bytes × Bytes)} c (some (b ∷ bs, colon ∷ rest)) none
    kept true = refl
    kept false = refl

read_digits-AllDigits :
    (so_far : ℕ) (bs : Bytes)
    → AllDigits bs
    → read_digits so_far bs ≡ (so_far * 10 ^ length bs + spelled bs, [])
unfolding read_digits
read_digits-AllDigits so_far [] h = ap (λ n. (n, [])) (omega arith)
read_digits-AllDigits so_far (b ∷ bs) h =
    rw (h.0, read_digits, read_digits-AllDigits (so_far * 10 + (b - 48)) bs h.1)
      (ap (λ n. (n, []))
        (places so_far (b - 48) (10 ^ length bs) (10 ^ suc (length bs)) (spelled bs)
          (ten_times (length bs))))

digit_is_no_space : (b : ℕ) → is_digit b ≡ true → is_space b ≡ false
digit_is_no_space b h = ground arith

digit_is_no_sign : (b s : ℕ) → is_digit b ≡ true → s < 48 → (b == s) ≡ false
digit_is_no_sign b s h l = ground arith

skip_spaces_digit : (d : ℕ) (ds : Bytes) → is_digit d ≡ true → skip_spaces (d ∷ ds) ≡ d ∷ ds
unfolding skip_spaces
skip_spaces_digit d ds h = rw (digit_is_no_space d h, skip_spaces) refl

saturated :
    (v w : ℕ)
    → v ≡ w
    → if◌then◌else◌ {A = ℕ × Bytes} (leb (2 ^ 64) v) (2 ^ 64 - 1, []) (v, [])
      ≡ (min w (2 ^ 64 - 1), [])
saturated v w e = elim (Bool-cases (leb (2 ^ 64) v)) [
  | inl h ↦ rw h (ap (λ n. (n, [])) (ground arith))
  | inr h ↦ rw h (ap (λ n. (n, [])) (ground arith))
]

strtoul-digits :
    (d : ℕ) (ds : Bytes)
    → AllDigits (d ∷ ds)
    → strtoul (d ∷ ds) ≡ (min (spelled (d ∷ ds)) (2 ^ 64 - 1), [])
unfolding strtoul strtoul_unsigned
strtoul-digits d ds h =
    rw
      (
        skip_spaces_digit d ds h.0,
        digit_is_no_sign d 45 h.0 (omega arith),
        digit_is_no_sign d 43 h.0 (omega arith),
        h.0,
        read_digits-AllDigits (0 * 10 + (d - 48)) ds h.1,
        strtoul,
      )
      (saturated _ (spelled (d ∷ ds)) (omega arith))

-- The result for a host and a port of 32 bits.
abbrev pub outcome : Bytes → ℕ → Result (Bytes × ℕ)
outcome host port =
    if ltb (length host) 256
    then (if ltb 0 port && ltb port (2 ^ 16) then ok (host, port) else err no_port)
    else err (Exception.invalid_argument "host address is too long")

port_of_whole :
    (n : ℕ)
    → port_of (n, [])
      ≡ (if ltb 0 (n % 2 ^ 32) && ltb (n % 2 ^ 32) (2 ^ 16) then ok (n % 2 ^ 32) else err no_port)
unfolding port_of
port_of_whole n = ground arith

host_port_long :
    (host rest : Bytes)
    → NoColon host
    → ltb (length host) 256 ≡ false
    → host_port (host ++ colon ∷ rest) ≡ err (Exception.invalid_argument "host address is too long")
unfolding host_port
host_port_long host rest h l = rw (copy_host-NoColon 256 host rest h, l, host_port) refl

host_port_short :
    (host rest : Bytes)
    → NoColon host
    → ltb (length host) 256 ≡ true
    → host_port (host ++ colon ∷ rest) ≡ (port_of (strtoul rest) >>= λ port. ok (host, port))
unfolding host_port
host_port_short host rest h l = rw (copy_host-NoColon 256 host rest h, l, host_port) refl

paired :
    (c : Bool) (host : Bytes) (port : ℕ)
    → ((if c then ok port else err no_port) >>= λ n. ok (host, n))
      ≡ if◌then◌else◌ {A = Result (Bytes × ℕ)} c (ok (host, port)) (err no_port)
paired true host port = refl
paired false host port = refl

-- An address of a host without a colon and a port of decimal digits is taken if the host is shorter than 256
-- bytes and the port is from 1 to 65535, and is refused otherwise. But the port is what the low 32
-- bits of the number spell, a number of more than 64 bits being the largest of 64.
pub host_port-outcome :
    (host : Bytes) (d : ℕ) (ds : Bytes)
    → NoColon host
    → AllDigits (d ∷ ds)
    → host_port (host ++ colon ∷ d ∷ ds)
      ≡ outcome host (min (spelled (d ∷ ds)) (2 ^ 64 - 1) % 2 ^ 32)
host_port-outcome host d ds h k = elim (Bool-cases (ltb (length host) 256)) [
  | inr l ↦ host_port_long host (d ∷ ds) h l ∙ sym (rw l refl)
  | inl l ↦
      host_port_short host (d ∷ ds) h l
      ∙ ap (λ r. r >>= λ port. ok (host, port))
          (ap port_of (strtoul-digits d ds k) ∙ port_of_whole (min (spelled (d ∷ ds)) (2 ^ 64 - 1)))
      ∙ rw l (paired (ltb 0 port && ltb port (2 ^ 16)) host port)
]
  where
    port : ℕ
    port = min (spelled (d ∷ ds)) (2 ^ 64 - 1) % 2 ^ 32
