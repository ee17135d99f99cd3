-- ===== src/Plot/Tests.antt =====
-- A plot of two points.
use device_tester.Prelude.{ℕ, List, ◌≡◌, ◌<◌, ◌⊎◌, [], ◌∷◌, out_of_range}
use device_tester.Plot.{pos, create, add_points, plotted}
use device_tester.Plot.Window.{window, IsNoSize, Shows, add_points-create}

abbrev first : ℕ
first = 5

abbrev rest : List ℕ
rest = 6 ∷ 7 ∷ []

add_points-create_example :
    (plotted {A = ℕ} (create (pos 2)) ≡ out_of_range)
    × (((bound : ℕ) × (pos 2 ≡ pos bound)
          × (0 < bound)
          × Shows {A = ℕ} bound
              (window bound [] (first ∷ rest))
              (add_points (create (pos 2)) (first ∷ rest)))
        ⊎ (IsNoSize (pos 2) × (add_points (create (pos 2)) (first ∷ rest) ≡ out_of_range)))
add_points-create_example = add_points-create (pos 2) first rest
