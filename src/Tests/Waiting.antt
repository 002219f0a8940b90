-- ===== src/Tests/Waiting.antt =====
-- The wait of a search of three sections.
use palmira.Prelude.{ℕ, ◌≡◌}
use palmira.Collect.Waiting.{Search, waiting, returned, Step, Reach}
use palmira.Collect.Waiting.Ends.{IsStuck, Reach-IsStuck, Reach-early}

Reach-IsStuck_example : (s : Search) × Reach 3 s × IsStuck s × ((t : Search) → ¬ Step s t)
Reach-IsStuck_example = Reach-IsStuck 3

Reach-early_example : (s : Search) × Reach 3 s × (s.main ≡ returned) × (s.parts ≡ 2)
Reach-early_example = Reach-early 1

-- Asleep, with two tasks that are not done, and then with one.
abbrev asleep : ℕ → Search
asleep n = record { sections = 0; parts = n; notifying = 0; main = waiting }
