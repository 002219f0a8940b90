-- ===== src/Plugins.antt =====
-- plugins/morpho-ru/morpho-ru.cpp: which lemmas of a word are taken, out of those that the library of morphology
-- finds.
pub mod Imperatives
pub mod Loading
use palmira.Prelude.{
  ℕ, zero, suc, ◌+◌, ◌-◌, ◌%◌, Bool, true, false, ◌&&◌, ◌||◌, List, [], ◌∷◌, ◌++◌, length, take,
  drop, Option, none, some, ◌==◌, ltb, leb, if◌then◌else◌,
}
use palmira.Sorting.{sort}

-- SLemmInfoW, with the first of its forms, at which `pgrams` points, and all `ngrams` of them.
pub record LemmInfo : Type 0 where
  pub wd_info : ℕ
  pub id_form : ℕ
  pub nlexid : ℕ
  pub forms : List ℕ

-- `( wdInfo & 0x3f ) <= 6 && idForm == 2`
unfoldable pub is_imperative : LemmInfo → Bool
is_imperative l = leb (l.wd_info % 64) 6 && l.id_form == 2

unfoldable pub find_imperative : List LemmInfo → Option ℕ
unfolding is_imperative
find_imperative [] = none
find_imperative (l ∷ ls) =
    let rest = find_imperative ls in
    if is_imperative l then some zero else elim rest [ none ↦ none | some i ↦ some (suc i) ]

-- `memcpy( lemmas + 1, lemmas + i + 1, ... )`, taken for a copy of regions that overlap, and `--nlemma`.
unfoldable pub move_lemmas : (i : ℕ) → List LemmInfo → List LemmInfo
move_lemmas i ls = take (length ls - 1) (take 1 ls ++ drop (suc i) ls ++ drop (length ls - i) ls)

-- The imperatives are cleaned if there is more than one lemma.
unfoldable pub clean_imperatives : List LemmInfo → List LemmInfo
unfolding find_imperative move_lemmas
clean_imperatives ls =
    if ltb 1 (length ls)
    then elim (find_imperative ls) [ none ↦ ls | some i ↦ move_lemmas i ls ]
    else ls

-- The order of std::sort.
unfoldable pub lemma_less : LemmInfo → LemmInfo → Bool
lemma_less l r = if l.id_form == r.id_form then ltb l.nlexid r.nlexid else ltb l.id_form r.id_form

-- `is_inv`
unfoldable pub is_inv : List ℕ → Bool
is_inv [] = false
is_inv (f ∷ fs) = (f == 255) || is_inv fs

-- One AddTerm: the weight is 1.0 / nlemma.
pub record Term : Type 0 where
  pub nlexid : ℕ
  pub nlemma : ℕ
  pub forms : List ℕ

-- The loop from `idl` on, which a form without inflection ends unless it is the first.
unfoldable pub add_terms : (nlemma idl : ℕ) → List LemmInfo → List Term
unfolding is_inv
add_terms nlemma idl [] = []
add_terms nlemma idl (l ∷ ls) =
    let rest = add_terms nlemma (suc idl) ls in
    if is_inv l.forms && ltb 0 idl
    then []
    else (record { nlexid = l.nlexid; nlemma = nlemma; forms = l.forms }) ∷ rest

-- Lemmatize, for lex_lemma.
unfoldable pub lemmatize : List LemmInfo → List Term
unfolding clean_imperatives lemma_less add_terms
lemmatize found =
    let lemmas : List LemmInfo = clean_imperatives found in
    add_terms (length lemmas) 0 (sort lemma_less lemmas)

-- Wildcards: the forms of a lexeme as a set of bits, read from the lowest.
unfoldable pub bit_set : List ℕ → ℕ → Bool
bit_set [] u = false
bit_set (id ∷ ids) u = id == u || bit_set ids u

unfoldable pub set_bits : (count u : ℕ) → (ℕ → Bool) → List ℕ
set_bits zero u uforms = []
set_bits (suc count) u uforms =
    let rest = set_bits count (suc u) uforms in if uforms u then u ∷ rest else rest

unfoldable pub wildcard_forms : List ℕ → List ℕ
unfolding bit_set set_bits
wildcard_forms pforms = set_bits 256 0 (bit_set pforms)
