-- ===== src/Tests/Plugins.antt =====
-- A word with three lemmas.
use palmira.Prelude.{ℕ, ◌≡◌, refl, [], ◌∷◌}
use palmira.Plugins.{LemmInfo, is_imperative, clean_imperatives, lemmatize, wildcard_forms}
use palmira.Sorting.{sort}
use palmira.Plugins.Imperatives.{clean_imperatives_lem}

abbrev noun : ℕ → LemmInfo
noun n = record { wd_info = 7; id_form = 1; nlexid = n; forms = 1 ∷ [] }

abbrev imperative : LemmInfo
imperative = record { wd_info = 1; id_form = 2; nlexid = 9; forms = 2 ∷ [] }

clean_imperatives_lem_example :
    (clean_imperatives (noun 4 ∷ imperative ∷ noun 5 ∷ []) ≡ noun 4 ∷ noun 5 ∷ [])
    × (clean_imperatives (imperative ∷ noun 4 ∷ noun 5 ∷ []) ≡ imperative ∷ noun 4 ∷ [])
unfolding is_imperative
clean_imperatives_lem_example = clean_imperatives_lem (noun 4) imperative (noun 5 ∷ []) refl refl

lemmatize_three :
    lemmatize (noun 5 ∷ imperative ∷ noun 4 ∷ [])
    ≡ record { nlexid = 4; nlemma = 2; forms = 1 ∷ [] }
      ∷ record { nlexid = 5; nlemma = 2; forms = 1 ∷ [] }
      ∷ []
unfolding lemmatize sort
lemmatize_three = refl

wildcard_forms_twice : wildcard_forms (7 ∷ 3 ∷ 7 ∷ []) ≡ 3 ∷ 7 ∷ []
unfolding wildcard_forms
wildcard_forms_twice = refl
