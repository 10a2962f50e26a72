-- ===== src/Config/Setting/Tests.antt =====
-- A variable that is 1, set to 2 and 3 by two threads.
use chord_server.Prelude.{ℕ, ◌≡◌, refl, [], ◌∷◌, ◌==◌}
use chord_server.Config.Setting.{outside, Shared, Interleaves}
use chord_server.Config.Setting.Told.{IsTold, Interleaves-IsTold}
use chord_server.Config.Setting.Races.{first_done, first_done-Interleaves, first_done-races}

first_done-races_example :
    (s : Shared ℕ) × Interleaves ◌==◌ 1 s
    × (s.val ≡ 2)
    × (s.calls ≡ (1, 3) ∷ (1, 2) ∷ [])
    × ((i : ℕ) → s.phase i ≡ outside)
first_done-races_example = first_done-races ◌==◌ 1 2 3 refl refl

Interleaves-IsTold_example : IsTold ◌==◌ 1 (first_done ◌==◌ 1 2 3)
Interleaves-IsTold_example = Interleaves-IsTold ◌==◌ 1 (first_done-Interleaves ◌==◌ 1 2 3 refl refl)
