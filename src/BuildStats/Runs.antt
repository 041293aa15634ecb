-- ===== src/BuildStats/Runs.antt =====
-- The timer of a node that is built: it pauses for the static dependencies and for the check.
use ppb.Prelude.{◌≡◌, refl, [], ◌∷◌}
use ppb.BuildStats.{start_timer, stop_timer, pause_timer, resume_timer, pauses, start_build_stats}

two_pauses : (stop_timer 30 (pauses ((2, 10) ∷ (25, 28) ∷ []) (start_build_stats 1))).exclusive ≡ 18
unfolding stop_timer pauses pause_timer resume_timer start_build_stats start_timer
two_pauses = refl
