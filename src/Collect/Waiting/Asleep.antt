-- ===== src/Collect/Waiting/Asleep.antt =====
-- The wait of a thread that falls asleep in time.
use palmira.Prelude.{ℕ, zero, suc, ◌≡◌, ◌⊎◌}
use palmira.Collect.Waiting.{waiting, returned, Search, Step}

-- Any steps, one after another.
pub data Onward : Search → Search → Type 0 where
  no_step : {s : Search} → Onward s s
  first_step : {s t u : Search} → Step s t → Onward t u → Onward s u

-- Asleep, with tasks that are not done and no notice under way.
abbrev pub IsAsleep : Search → Type 0
IsAsleep s = (s.main ≡ waiting) × (s.notifying ≡ zero) × ((n : ℕ) × (s.parts ≡ suc n))

-- Asleep, with all tasks done and a notice under way.
abbrev IsCalled : Search → Type 0
IsCalled s = (s.main ≡ waiting) × (s.parts ≡ zero) × ((n : ℕ) × (s.notifying ≡ suc n))

abbrev IsBack : Search → Type 0
IsBack s = (s.main ≡ returned) × (s.parts ≡ zero)

abbrev IsSound : Search → Type 0
IsSound s = IsAsleep s ⊎ (IsCalled s ⊎ IsBack s)

abbrev pub ComesBack : Search → Type 0
ComesBack s = (t : Search) × Onward s t × (t.main ≡ returned)
