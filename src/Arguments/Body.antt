-- ===== src/Arguments/Body.antt =====
-- Which maps make arguments of a request.
use palmira.Prelude.{
  ℕ, ◌≡◌, refl, sym, inl, inr, Bool, true, false, not, ◌&&◌, ◌||◌, [], ◌∷◌, Option, none, some,
  Option-cases, Result, Result-cases, ok, err, Exception,
}
use palmira.Values.{Bytes, Zval}
use palmira.Arguments.{Args, Name, as_charstr, access_args, remove_args}

abbrev pub succeeds : {A : Type 0} → Result A → Bool
succeeds (ok a) = true
succeeds (err e) = false

abbrev pub is_there : {A : Type 0} → Option A → Bool
is_there none = false
is_there (some a) = true

-- There is an "id", a string that is not empty.
abbrev pub has_id : Option Bytes → Bool
has_id none = false
has_id (some []) = false
has_id (some (b ∷ bs)) = true

access_args-succeeds :
    (args : Args) → succeeds (access_args args) ≡ has_id (as_charstr (args Name.id))
unfolding access_args
access_args-succeeds args = elim (Option-cases (as_charstr (args Name.id))) [
  | inl e ↦ rw (e, access_args)
  | inr (s, e) ↦ rw (e, access_args) (which s)
]
  where
    which :
        (s : Bytes)
        → succeeds (elim s as (λ _. Result Bytes) [
          | [] ↦ err (Exception.invalid_argument "absent object 'id'")
          | (b ∷ bs) ↦ ok (b ∷ bs)
        ])
          ≡ has_id (some s)
    which [] = refl
    which (b ∷ bs) = refl

-- The arguments of a removal are made exactly of those maps that have an "id", a string that is not
-- empty, and have a "condition" if they have a "claim".
pub remove_args-succeeds :
    (to_word64 : Zval → Option ℕ) (args : Args)
    → succeeds (remove_args to_word64 args) ≡ (
        has_id (as_charstr (args Name.id))
        && (not (is_there (args Name.claim)) || is_there (args Name.condition)))
unfolding remove_args
remove_args-succeeds to_word64 args = elim (Result-cases (access_args args)) [
  | inr (e, k) ↦ rw (sym (access_args-succeeds args), k, remove_args)
  | inl (s, k) ↦ elim (Option-cases (args Name.claim)) [
    | inl c ↦ rw (sym (access_args-succeeds args), k, c, remove_args)
    | inr (v, c) ↦ elim (Option-cases (args Name.condition)) [
      | inl d ↦ rw (sym (access_args-succeeds args), k, c, d, remove_args)
      | inr (w, d) ↦ rw (sym (access_args-succeeds args), k, c, d, remove_args)
    ]
  ]
]

-- A map with an "id" and with a "claim" but no "condition" makes the constructor read through a null
-- pointer.
remove_args_undefined :
    (to_word64 : Zval → Option ℕ) (args : Args) (c : Zval)
    → has_id (as_charstr (args Name.id)) ≡ true
    → args Name.claim ≡ some c
    → args Name.condition ≡ none
    → remove_args to_word64 args ≡ err Exception.undefined
unfolding remove_args
remove_args_undefined to_word64 args c named claimed missing =
    elim (Result-cases (access_args args)) [
      | inr (e, k) ↦ absurd (cc (access_args-succeeds args, k, named))
      | inl (s, k) ↦ rw (k, claimed, missing, remove_args)
    ]
