-- ===== src/Http/Client/Address.antt =====
-- The address of the server, host:port, and the creation of a client.
pub mod Digits
use palmira.Prelude.{
  ℕ, zero, suc, ◌+◌, ◌-◌, ◌*◌, ◌%◌, ◌^◌, min, Bool, true, false, ◌&&◌, ◌||◌, List, [], ◌∷◌, Option,
  none, some, ◌==◌, ltb, leb, if◌then◌else◌, Result, ok, err, Exception, ◌>>=◌,
}
use palmira.Values.{Bytes}
use palmira.Http.Client.{CompressionMethod, method_none, Impl}

abbrev pub colon : ℕ
colon = 58

-- The loop over the host, into a buffer of which `room` bytes are left: what was copied and what is
-- left of the address, or none if the buffer is full.
unfoldable pub copy_host : (room : ℕ) → Bytes → Option (Bytes × Bytes)
copy_host zero address = none
copy_host (suc room) [] = some ([], [])
copy_host (suc room) (b ∷ bs) =
    let rest = copy_host room bs in
    if b == colon
    then some ([], b ∷ bs)
    else elim rest [ none ↦ none | some p ↦ some (b ∷ p.0, p.1) ]

-- `strtoul( address, &outstr, 10 )` of the C library: spaces, a sign, and digits.
abbrev pub is_space : ℕ → Bool
is_space b = b == 32 || (leb 9 b && leb b 13)

abbrev pub is_digit : ℕ → Bool
is_digit b = leb 48 b && leb b 57

unfoldable pub skip_spaces : Bytes → Bytes
skip_spaces [] = []
skip_spaces (b ∷ bs) = let rest = skip_spaces bs in if is_space b then rest else b ∷ bs

unfoldable pub read_digits : (so_far : ℕ) → Bytes → ℕ × Bytes
read_digits so_far [] = (so_far, [])
read_digits so_far (b ∷ bs) =
    let rest = read_digits (so_far * 10 + (b - 48)) bs in
    if is_digit b then rest else (so_far, b ∷ bs)

-- The number of 64 bits, the largest if it is too large, and what is left. Without a digit, 0 and all.
unfoldable pub strtoul_unsigned : (is_negative : Bool) → (whole : Bytes) → Bytes → ℕ × Bytes
unfolding read_digits
strtoul_unsigned is_negative whole [] = (0, whole)
strtoul_unsigned is_negative whole (b ∷ bs) =
    let p : ℕ × Bytes = read_digits 0 (b ∷ bs) in
    if is_digit b
    then if leb (2 ^ 64) p.0
      then (2 ^ 64 - 1, p.1)
      else if is_negative
      then ((2 ^ 64 - p.0) % 2 ^ 64, p.1)
      else p
    else (0, whole)

unfoldable pub strtoul : Bytes → ℕ × Bytes
unfolding strtoul_unsigned skip_spaces
strtoul address = elim (skip_spaces address) [
  | [] ↦ (0, address)
  | (b ∷ bs) ↦
      if b == 45
      then strtoul_unsigned true address bs
      else if b == 43
      then strtoul_unsigned false address bs
      else strtoul_unsigned false address (b ∷ bs)
]

abbrev pub no_port : Exception
no_port = Exception.invalid_argument "port as uint16 expected"

-- The port: `dwport` has 32 bits.
unfoldable pub port_of : ℕ × Bytes → Result ℕ
port_of p =
    let dwport : ℕ = p.0 % 2 ^ 32 in
    if dwport == 0
    then err no_port
    else if dwport % 2 ^ 16 == dwport
    then elim p.1 [ [] ↦ ok dwport | (b ∷ bs) ↦ err no_port ]
    else err no_port

-- SetAddress( const char* ), to the host and the port. `szhost` has 256 bytes.
unfoldable pub host_port : Bytes → Result (Bytes × ℕ)
unfolding copy_host strtoul port_of
host_port address = elim (copy_host 256 address) [
  | none ↦ err (Exception.invalid_argument "host address is too long")
  | some p ↦ elim p.1 [
    | [] ↦ err (Exception.invalid_argument "host:port expected")
    | (b ∷ bs) ↦ port_of (strtoul bs) >>= λ port. ok (p.0, port)
  ]
]

-- Client: `internal`, with its channel; of the HTTP library, the channel to a host and a port.
pub record Client (C : Type 0) : Type 0 where
  pub internal : Option (Impl × C)

module _ {C : Type 0} (no_channel : C) (is_initialized : C → Bool) (get_channel : Bytes → ℕ → C)
    (no_timeout : ℕ) where
  -- `if ( internal == nullptr ) internal = new Client::impl()`
  unfoldable pub internal_of : Client C → Impl × C
  internal_of c = elim c.internal [
    | none ↦ (record { zip_meth = method_none; timeout = no_timeout }, no_channel)
    | some i ↦ i
  ]

  unfoldable pub set_compression_method : CompressionMethod → Client C → Client C
  unfolding internal_of
  set_compression_method method c = record {
    internal = some (record (internal_of c).0 { zip_meth = method }, (internal_of c).1);
  }

  unfoldable pub set_default_timeout : ℕ → Client C → Client C
  unfolding internal_of
  set_default_timeout timeout c = record {
    internal = some (record (internal_of c).0 { timeout = timeout }, (internal_of c).1);
  }

  -- SetAddress( const char*, uint16_t )
  unfoldable pub set_channel : Bytes → ℕ → Client C → Client C
  unfolding internal_of
  set_channel host port c = record { internal = some ((internal_of c).0, get_channel host port) }

  unfoldable pub set_address : Bytes → Client C → Result (Client C)
  unfolding host_port set_channel
  set_address address c = host_port address >>= λ p. ok (set_channel p.0 p.1 c)

  -- Create(): the client is released of what it gives away.
  unfoldable pub create : Client C → Result ((Impl × C) × Client C)
  create c = elim c.internal [
    | none ↦ err (Exception.logic_error "client channel address is not initialized")
    | some i ↦
        if is_initialized i.1
        then ok (i, record { internal = none })
        else err (Exception.logic_error "client channel address is not initialized")
  ]

  -- Create( const char* )
  unfoldable pub create_at : Bytes → Client C → Result ((Impl × C) × Client C)
  unfolding set_address create
  create_at address c = set_address address c >>= create
