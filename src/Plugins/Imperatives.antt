-- ===== src/Plugins/Imperatives.antt =====
-- What becomes of the imperatives among the lemmas.
use palmira.Prelude.{
  ℕ, zero, suc, ◌-◌, ◌<◌, ◌≤◌, ◌≡◌, refl, ap, ◌∙◌, true, false, List, [], ◌∷◌, ◌++◌, length, take,
  drop, take-append_left, some, lt→ltb, arith,
}
use palmira.Plugins.{LemmInfo, is_imperative, find_imperative, move_lemmas, clean_imperatives}

clean_at :
    (ls : List LemmInfo) (i : ℕ)
    → 1 < length ls
    → find_imperative ls ≡ some i
    → clean_imperatives ls ≡ move_lemmas i ls
unfolding clean_imperatives
clean_at ls i h e = rw (lt→ltb 1 (length ls) h, e, clean_imperatives) refl

take-append_short : (k : ℕ) (xs ys : List LemmInfo) → k ≤ length xs → take k (xs ++ ys) ≡ take k xs
take-append_short zero xs ys h = refl
take-append_short (suc k) [] ys h = absurd (omega arith)
take-append_short (suc k) (x ∷ xs) ys h = ap (◌∷◌ x) (take-append_short k xs ys (omega arith))

one_less : (n : ℕ) → suc (suc n) - 1 ≡ suc n
one_less n = omega arith

move_first :
    (l m : LemmInfo) (ls : List LemmInfo)
    → move_lemmas 0 (l ∷ m ∷ ls) ≡ take (suc (length ls)) (l ∷ m ∷ ls)
unfolding move_lemmas
move_first l m ls =
    ap (λ k. take k (l ∷ m ∷ ls ++ drop (suc (suc (length ls)) - 0) (l ∷ m ∷ ls)))
      (one_less (length ls))
    ∙ take-append_short (suc (length ls)) (l ∷ m ∷ ls) _ (omega arith)

move_second : (l m : LemmInfo) (ls : List LemmInfo) → move_lemmas 1 (l ∷ m ∷ ls) ≡ l ∷ ls
unfolding move_lemmas
move_second l m ls =
    ap (λ k. take k (l ∷ ls ++ drop (suc (suc (length ls)) - 1) (l ∷ m ∷ ls)))
      (one_less (length ls))
    ∙ ap (◌∷◌ l) (take-append_left ls _)

found_first :
    (l : LemmInfo) (ls : List LemmInfo) → is_imperative l ≡ true → find_imperative (l ∷ ls) ≡ some 0
unfolding find_imperative
found_first l ls h = rw (h, find_imperative) refl

found_second :
    (l m : LemmInfo) (ls : List LemmInfo)
    → is_imperative l ≡ false
    → is_imperative m ≡ true
    → find_imperative (l ∷ m ∷ ls) ≡ some 1
unfolding find_imperative
found_second l m ls h k = rw (h, k, find_imperative) refl

-- Of two lemmas or more of which the second is the first imperative it alone is left out. But if the
-- imperative is the very first, it stays, and it is the last lemma that is left out.
pub clean_imperatives_lem :
    (a b : LemmInfo) (ls : List LemmInfo)
    → is_imperative a ≡ false
    → is_imperative b ≡ true
    → (clean_imperatives (a ∷ b ∷ ls) ≡ a ∷ ls)
      × (clean_imperatives (b ∷ a ∷ ls) ≡ take (suc (length ls)) (b ∷ a ∷ ls))
clean_imperatives_lem a b ls h k = (
  clean_at (a ∷ b ∷ ls) 1 (omega arith) (found_second a b ls h k) ∙ move_second a b ls,
  clean_at (b ∷ a ∷ ls) 0 (omega arith) (found_first b (a ∷ ls) k) ∙ move_first b a ls,
)
