-- ===== src/Tests/Windows.antt =====
-- Two watches, of which the first is dropped.
use palmira.Prelude.{ℕ, ◌≡◌, refl, subst, true, [], ◌∷◌, Option, none, some, ◌==◌, if◌then◌else◌}
use palmira.Watch.Windows.{
  WatchInfo, WatchData, find, erase, assign, erase_at, add_watch, round, Reach, start, later, add,
}
use palmira.Watch.Windows.Paired.{Paired, Reach-Paired}

abbrev two : (s : WatchData) × Reach 9 s
unfolding add_watch find assign
two = (
  _,
  later (later start (add (1 ∷ []) true (some 4) (some 5) true (λ e h. refl)))
      (add (2 ∷ []) true (some 6) (some 7) true (λ e h. not_five e h)),
)
  where
    first : WatchInfo
    first = record { directory_handle = 4; path = 1 ∷ []; recursive = true; pending_io = true }

    same : {e : ℕ} → ◌≡◌ {A = Option ℕ} (some 7) (some e) → 7 ≡ e
    same h = cc h

    not_five : (e : ℕ) → some 7 ≡ some e → find e ((5, first) ∷ []) ≡ none
    not_five e h = subst (λ x. (if 5 == x then some first else none) ≡ none) (same h) refl

round_drops : (round (λ w. w) none true 1 two.0).0.handles ≡ 9 ∷ 7 ∷ []
unfolding round add_watch find assign erase erase_at
round_drops = refl

Reach-Paired_example : Paired 9 two.0
Reach-Paired_example = Reach-Paired 9 two.0 two.1
