-- ===== src/Tests/Http.antt =====
-- Bodies of messages, the client and the server, at concrete inputs.
use palmira.Prelude.{
  ℕ, zero, suc, ◌<◌, ◌≤◌, ◌≡◌, refl, sym, ap, ◌∙◌, inl, inr, ◌⊎◌, true, false, List, [], ◌∷◌,
  Option, none, some, Result, ok, err, Exception, leb, if◌then◌else◌, length, take, drop, arith,
}
use palmira.Values.{Bytes, Zmap, no_entry, entry, key_charstr, z_charstr, z_untyped}
use palmira.Document.{same_bytes}
use palmira.Document.Same.{same_bytes_self}
use palmira.Http.Load.{Body, Request, Args, after_dump}
use palmira.Http.Client.{ClientArgs, Impl, method_deflate, insertion_bytes, client_insert}
use palmira.Http.Client.Received.{IsWire, contents}
use palmira.Http.Client.Unpacked.{IsHeaders, IsZlib}
use palmira.Http.Client.Served.{incoming, load_insertion, client_insert-action_call}
use palmira.Http.Server.{action_call, caught, output_json, status_ok}
use palmira.Http.Unpack.{
  Ret, deflate_vector, Inflated, z_ok, z_stream_end, z_buf_error, deflate_encoding, inflate_message,
}
use palmira.Http.Unpack.Rounds.{IsInflater}
use palmira.Http.Unpack.Ends.{inflate_message-content}
use palmira.Http.Unpack.Stuck.{IsCutShort, inflate_message-cut}

-- A stream that is the bytes to come, with one before them; without bytes it makes no progress.
abbrev plain_init : Bytes → Option Bytes
plain_init [] = some []
plain_init (b ∷ bs) = some bs

plain_inflate : Bytes → ℕ → Inflated Bytes
plain_inflate z room = record {
  ret = if leb (length z) room then z_stream_end else z_ok;
  out = take room z;
  stream = drop room z;
}

le→leb : (a b : ℕ) → a ≤ b → leb a b ≡ true
le→leb a b h = ground arith

lt→leb_false : (a b : ℕ) → b < a → leb a b ≡ false
lt→leb_false a b h = ground arith

Inflates : IsInflater plain_inflate ◌≡◌
unfolding plain_inflate
Inflates = record {
  puts = λ z content room h. ap (take room) h;
  ends = λ z content room h l. rw h (rw (le→leb (length content) room (omega arith)) refl);
  continues = λ z content room h l. rw h (rw (lt→leb_false (length content) room l) (refl, refl));
  filled = λ z content room h e. rw h (inl (rw (le→leb (length content) room (omega arith)) refl));
}

inflate_message-content_example :
    inflate_message plain_init plain_inflate 7 0 deflate_encoding
      (some (1 ∷ 5 ∷ 6 ∷ 7 ∷ 8 ∷ 9 ∷ 10 ∷ []))
    ≡ ok (some (5 ∷ 6 ∷ 7 ∷ 8 ∷ 9 ∷ 10 ∷ []))
inflate_message-content_example =
    inflate_message-content plain_init plain_inflate Inflates 7 0 (1 ∷ 5 ∷ 6 ∷ 7 ∷ 8 ∷ 9 ∷ 10 ∷ [])
      (5 ∷ 6 ∷ 7 ∷ 8 ∷ 9 ∷ 10 ∷ []) (5 ∷ 6 ∷ 7 ∷ 8 ∷ 9 ∷ 10 ∷ []) refl refl (omega arith)
      (omega arith) (omega arith) (omega arith)

-- zlib with a stream that ends too soon: what is there is put out as far as there is room.
starved : Bytes → ℕ → Inflated Bytes
starved [] room = record { ret = z_buf_error; out = []; stream = [] }
starved (b ∷ bs) zero = record { ret = z_buf_error; out = []; stream = b ∷ bs }
starved (b ∷ bs) (suc room) = record {
  ret = z_ok;
  out = take (suc room) (b ∷ bs);
  stream = drop (suc room) (b ∷ bs);
}

Starves : IsCutShort starved ◌≡◌
unfolding starved
Starves = record { puts = puts; leaves = leaves; goes_on = goes_on }
  where
    puts : (z content : Bytes) (room : ℕ) → z ≡ content → (starved z room).out ≡ take room content
    puts [] content room e = take_nil room ∙ ap (take room) e
      where
        take_nil : (n : ℕ) → [] ≡ take {A = ℕ} n []
        take_nil zero = refl
        take_nil (suc n) = refl
    puts (b ∷ bs) content zero e = ap (take zero) e
    puts (b ∷ bs) content (suc room) e = ap (take (suc room)) e

    leaves :
        (z content : Bytes) (room : ℕ) → z ≡ content → (starved z room).stream ≡ drop room content
    leaves [] content room e = drop_nil room ∙ ap (drop room) e
      where
        drop_nil : (n : ℕ) → [] ≡ drop {A = ℕ} n []
        drop_nil zero = refl
        drop_nil (suc n) = refl
    leaves (b ∷ bs) content zero e = ap (drop zero) e
    leaves (b ∷ bs) content (suc room) e = ap (drop (suc room)) e

    goes_on :
        (z content : Bytes) (room : ℕ)
        → z ≡ content
        → ((starved z room).ret ≡ z_ok)
          ⊎ (((starved z room).ret ≡ z_buf_error) × (take room content ≡ []))
    goes_on [] content room e = inr (refl, sym (puts [] content room e))
    goes_on (b ∷ bs) content zero e = inr (refl, refl)
    goes_on (b ∷ bs) content (suc room) e = inl refl

inflate_message-cut_example :
    inflate_message plain_init starved 1000 3 deflate_encoding (some (1 ∷ 5 ∷ 6 ∷ []))
    ≡ err Exception.out_of_fuel
inflate_message-cut_example =
    inflate_message-cut plain_init starved Starves 1000 3 (1 ∷ 5 ∷ 6 ∷ []) (5 ∷ 6 ∷ []) (5 ∷ 6 ∷ [])
      refl refl

-- Headers as a function of their names.
abbrev Fields : Type 0
Fields = Bytes → Bytes

set_field : Bytes → Bytes → Fields → Fields
set_field n v h m = if same_bytes n m then v else h m

set_fields : List (Bytes × Bytes) → Fields → Fields
set_fields [] h = h
set_fields ((n, v) ∷ more) h = set_field n v (set_fields more h)

Sets : IsHeaders (λ m. []) set_field set_fields (λ h n. h n)
unfolding set_field set_fields
Sets = record {
  new = λ n. refl;
  put_same = λ n v h. rw (same_bytes_self n) refl;
  put_other = λ n v m h e. rw e refl;
  set_same = λ n v h. rw (same_bytes_self n) refl;
  set_other = λ n v m h e. rw e refl;
}

plain_deflate : Bytes → Ret × Bytes
plain_deflate src = (z_stream_end, 1 ∷ src)

Deflates : IsZlib plain_deflate plain_init ◌≡◌
unfolding plain_deflate
Deflates = record {
  begins = λ src d e. let k : 1 ∷ src ≡ d = ap (λ p. p.1) e in (src, rw (← k) refl, refl);
  bound = λ src d e. let k : 1 ∷ src ≡ d = ap (λ p. p.1) e in rw (← k) (omega arith);
  nonempty = λ src d e. let k : 1 ∷ src ≡ d = ap (λ p. p.1) e in rw (← k) (omega arith);
}

-- An insertion of a text of three numbers, with metadata.
abbrev told : ClientArgs Bytes
told = record {
  f_timeout = 0;
  object_id = 65 ∷ [];
  if_clause = z_untyped;
  metadata = entry (key_charstr (9 ∷ [])) (z_charstr (9 ∷ [])) no_entry;
  textview = 7 ∷ 8 ∷ 9 ∷ [];
}

abbrev told_map : Body
told_map = contents (λ n. false) (λ v. true) length told

write_map : Body → Bytes
write_map m = 0 ∷ []

read_map : Option Bytes → Option (Body × Bytes)
read_map none = none
read_map (some []) = none
read_map (some (b ∷ bs)) = some (told_map, bs)

Wired : IsWire write_map read_map (λ (x : Bytes). x) ok told_map (7 ∷ 8 ∷ 9 ∷ [])
unfolding write_map read_map
Wired = record { map_back = λ rest. refl; text_back = refl }

abbrev refused : Request → Option Bytes → Result (Args Bytes)
refused req s = err (Exception.logic_error "not asked")

abbrev counted : Args Bytes → Result Zmap
counted args = ok (entry (key_charstr args.object_id) (z_charstr args.object_id) no_entry)

abbrev zipping : Impl
zipping = record { zip_meth = method_deflate; timeout = 0 }

client_insert-action_call_example :
    action_call
      (λ s. [])
      refused
      (load_insertion (λ b. b) read_map (λ b. after_dump) [] ok ok ok)
      counted
      plain_init
      plain_inflate
      100
      0
      false
      (incoming
        (λ (h : Fields) n. h n)
        (λ u. none)
        (client_insert
          (λ n. false)
          (λ m. [])
          set_field
          set_fields
          (deflate_vector true plain_deflate)
          (λ n. false)
          (λ v. true)
          length
          write_map
          (λ x. x)
          (λ b. b)
          zipping
          told))
    ≡ ok (output_json status_ok (entry (key_charstr (65 ∷ [])) (z_charstr (65 ∷ [])) no_entry))
unfolding caught insertion_bytes write_map
client_insert-action_call_example =
    client_insert-action_call (λ n. false) (λ v. true) length write_map (λ x. x) read_map (λ b. b)
      (λ b. after_dump) [] ok ok ok refl (λ n. false) (λ m. []) set_field set_fields true
      plain_deflate plain_init plain_inflate Inflates Deflates Sets (λ s. []) (λ b. b) (λ u. none)
      refused counted 100 0 zipping told Wired (omega arith) (omega arith)
