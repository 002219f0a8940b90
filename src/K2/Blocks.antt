-- ===== src/K2/Blocks.antt =====
-- The blocks of LoadText.
use palmira.Prelude.{
  ℕ, ◌+◌, ◌-◌, ◌<◌, ◌≤◌, Bool, true, false, ◌||◌, List, [], ◌∷◌, ◌++◌, ◌≡◌, refl, ap, ◌∙◌, ◌==◌,
  length, length-append, Bool-cases, inl, inr, ==_iff, arith,
}
use mathlib.Core.List.{append_assoc}
use palmira.Values.{Bytes}
use palmira.K2.{last_block, load_text}

abbrev joined : List Bytes → Bytes
joined [] = []
joined (b ∷ bs) = b ++ joined bs

abbrev AreLines : List Bytes → Type 0
AreLines [] = Unit
AreLines (b ∷ bs) = (0 < length b) × (length b ≤ 4094) × AreLines bs

-- The blocks of a line that is read so far and of the rest: one after another they are both, and none is empty or
-- longer than the array has room for.
abbrev IsCut : (szline text : Bytes) → List Bytes → Type 0
IsCut szline text blocks = (joined blocks ≡ szline ++ text) × AreLines blocks

last_block_lem : (szline : Bytes) → length szline ≤ 4094 → IsCut szline [] (last_block szline)
unfolding last_block
last_block_lem [] h = (refl, tt)
last_block_lem (c ∷ szline) h = (refl, (omega arith, h, tt))

longer : (szline : Bytes) (b : ℕ) → length (szline ++ b ∷ []) ≡ length szline + 1
longer szline b = length-append szline (b ∷ [])

right_false : (a b : Bool) → (a || b) ≡ false → b ≡ false
right_false true b h = absurd (cc h)
right_false false b h = h

not_last : (room : ℕ) → (room == 1) ≡ false → 0 < room → 0 < room - 1
not_last room h p = omega (arith, p, not_one)
  where
    not_one : room ≡ 1 → ⊥
    not_one e = cc ((==_iff room 1).1 e, h)

-- The next character ends the block, or it does not.
ended :
    (szline : Bytes) (b : ℕ) (bs : Bytes) (blocks : List Bytes)
    → length szline < 4094
    → IsCut [] bs blocks
    → IsCut szline (b ∷ bs) ((szline ++ b ∷ []) ∷ blocks)
ended szline b bs blocks h next = (
  ap (λ r. (szline ++ b ∷ []) ++ r) next.0 ∙ append_assoc szline (b ∷ []) bs,
  (omega (arith, longer szline b), omega (arith, longer szline b, h), next.1),
)

goes_on :
    (szline : Bytes) (b : ℕ) (bs : Bytes) (blocks : List Bytes)
    → IsCut (szline ++ b ∷ []) bs blocks
    → IsCut szline (b ∷ bs) blocks
goes_on szline b bs blocks next = (next.0 ∙ append_assoc szline (b ∷ []) bs, next.1)

-- What is read of a text without zero bytes is the whole text, in blocks that are not empty and no longer than 4094.
load_text_lem :
    (text : Bytes) (room : ℕ) (szline : Bytes)
    → length szline + room ≡ 4094
    → 0 < room
    → IsCut szline text (load_text room szline text)
unfolding load_text
load_text_lem [] room szline e p = last_block_lem szline (omega (arith, e))
load_text_lem (b ∷ bs) room szline e p = elim (Bool-cases (b == 10 || room == 1)) [
  | inl h ↦ rw h (
      ended szline b bs (load_text 4094 [] bs) (omega (arith, e, p))
        (load_text_lem bs 4094 [] refl (omega arith)))
  | inr h ↦ rw h (
      goes_on szline b bs (load_text (room - 1) (szline ++ b ∷ []) bs) (
        load_text_lem bs (room - 1) (szline ++ b ∷ []) (omega (arith, longer szline b, e, p))
          (not_last room (right_false (b == 10) (room == 1) h) p)))
]
