-- ===== src/Tools/Chunked/Hex.antt =====
-- The number that is read out of the digits of "%X".
use palmira.Prelude.{
  ℕ, zero, suc, ◌+◌, ◌-◌, ◌*◌, ◌/◌, ◌%◌, ◌^◌, ◌<◌, ◌≤◌, ◌≡◌, refl, ap, ◌∙◌, ◌⊎◌, inl, inr, Bool,
  true, false, [], ◌∷◌, ltb, ◌==◌, if◌then◌else◌, Bool-cases, arith,
}
use palmira.Values.{Bytes}
use palmira.Tools.Chunked.{hex_digit, hex_loop, print_hex}

abbrev pub IsHex : ℕ → Type 0
IsHex b = ((48 ≤ b) × (b ≤ 57)) ⊎ ((65 ≤ b) × (b ≤ 70))

abbrev pub AllHex : Bytes → Type 0
AllHex [] = Unit
AllHex (b ∷ bs) = IsHex b × AllHex bs

abbrev pub digit_value : ℕ → ℕ
digit_value b = if ltb b 58 then b - 48 else b - 55

abbrev pub read_hex : ℕ → Bytes → ℕ
read_hex n [] = n
read_hex n (b ∷ bs) = read_hex (n * 16 + digit_value b) bs

digit_back : (d : ℕ) → d < 16 → digit_value (hex_digit d) ≡ d
digit_back d h = ground arith

hex_digit-IsHex : (d : ℕ) → d < 16 → IsHex (hex_digit d)
hex_digit-IsHex d h = elim (Bool-cases (ltb d 10)) [
  | inl e ↦ rw e (inl (ground arith))
  | inr e ↦ rw e (inr (ground arith))
]

read-hex_loop :
    (fuel n : ℕ) (out : Bytes) → n < 16 ^ fuel → read_hex 0 (hex_loop fuel n out) ≡ read_hex n out
unfolding hex_loop
read-hex_loop zero n out h = ap (λ m. read_hex m out) (omega arith)
read-hex_loop (suc fuel) n out h = elim (Bool-cases (n == 0)) [
  | inl e ↦ rw e (ap (λ m. read_hex m out) (ground arith))
  | inr e ↦ rw e (
      read-hex_loop fuel (n / 16) (hex_digit (n % 16) ∷ out) (omega arith)
      ∙ ap (λ m. read_hex m out)
          (ap (λ d. n / 16 * 16 + d) (digit_back (n % 16) (omega arith)) ∙ omega arith))
]

hex_loop-AllHex : (fuel n : ℕ) (out : Bytes) → AllHex out → AllHex (hex_loop fuel n out)
unfolding hex_loop
hex_loop-AllHex zero n out h = h
hex_loop-AllHex (suc fuel) n out h = elim (Bool-cases (n == 0)) [
  | inl e ↦ rw e h
  | inr e ↦ rw e (
      hex_loop-AllHex fuel (n / 16) (hex_digit (n % 16) ∷ out)
        (hex_digit-IsHex (n % 16) (omega arith), h))
]

either :
    (b : Bool) (x y : Bytes) (P : Bytes → Type 0) → (b ≡ true → P x) → P y → P (if b then x else y)
either true x y P h k = h refl
either false x y P h k = k

pub read-print_hex : (n : ℕ) → n < 2 ^ 32 → read_hex 0 (print_hex n) ≡ n
unfolding print_hex
read-print_hex n h =
    either (n == 0) (48 ∷ []) (hex_loop 8 n []) (λ bs. read_hex 0 bs ≡ n) (λ e. ground arith)
      (read-hex_loop 8 n [] (omega arith))

pub print_hex-AllHex : (n : ℕ) → AllHex (print_hex n)
unfolding print_hex
print_hex-AllHex n =
    either (n == 0) (48 ∷ []) (hex_loop 8 n []) AllHex (λ e. (inl (omega arith, omega arith), tt))
      (hex_loop-AllHex 8 n [] tt)
