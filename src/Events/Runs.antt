-- ===== src/Events/Runs.antt =====
-- Runs of events whose delegates take a number and fail on their own one.
use ppb.Prelude.{ℕ, ◌≡◌, refl, Option, none, some, [], ◌∷◌, ◌++◌, eqb, if◌then◌else◌}
use ppb.Events.{PublicEvent, fire, fire_and_forget}
use ppb.Events.Laws.{handles, fire_rounds, fired_once}

abbrev fails_on : ℕ → Option (ℕ → Option ℕ)
fails_on n = some (λ arg. if eqb arg n then some n else none)

abbrev three : PublicEvent ℕ ℕ
three = record {
  delegates =
      record { handle = 1; delegate = fails_on 1 }
      ∷ record { handle = 2; delegate = fails_on 2 }
      ∷ record { handle = 3; delegate = none }
      ∷ [];
  next_handle = 3;
}

fired_once_example :
    (fire_rounds three (2 ∷ 2 ∷ [])).0 ++ handles (fire_rounds three (2 ∷ 2 ∷ [])).1.delegates
    ≡ handles three.delegates
fired_once_example = fired_once three (2 ∷ 2 ∷ [])

-- The second delegate fails in the first round; the third one is called in the second.
two_rounds : (fire_rounds three (2 ∷ 2 ∷ [])).0 ≡ 1 ∷ 2 ∷ 3 ∷ []
unfolding fire_rounds fire fire_and_forget
two_rounds = refl
