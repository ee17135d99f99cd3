-- ===== src/Manager/Tests.antt =====
-- A thread enters asio, and the destructor begins while the others have not looked at the flag.
use device_tester.Prelude.{◌≤◌, ◌≡◌, ◌≢◌, ◌⊎◌, refl, false, [], ◌∷◌}
use device_tester.Manager.{
  living, gone, test, inside, clearing, finished, ManagerImpl, start_runners, create, tests, clears,
  Reach, begins, goes,
}
use device_tester.Manager.Runners.{AllOk, IsGone, Reach-runners}
use device_tester.Manager.Progress.{left as steps_left, CanGo, rests, steps, Reach-ends}

abbrev entered : ManagerImpl
entered = record create { runners = inside 1 ∷ start_runners 9 }

abbrev cleared : ManagerImpl
cleared = record entered { run = false; stage = clearing }

abbrev left : ManagerImpl
left = record cleared { runners = inside 1 ∷ finished 0 ∷ start_runners 8 }

left-Reach : Reach left
unfolding create start_runners test
left-Reach =
    goes cleared left
      (goes entered cleared (goes create entered begins (tests [] (start_runners 9) 0 refl))
        (clears refl))
      (tests (inside 1 ∷ []) (start_runners 8) 0 refl)

Reach-runners_example : AllOk left.run left.runners × IsGone left.stage left.runners
Reach-runners_example = Reach-runners left left-Reach

cleared-Reach : Reach cleared
unfolding create start_runners test
cleared-Reach =
    goes entered cleared (goes create entered begins (tests [] (start_runners 9) 0 refl))
      (clears refl)

cleared_begun : cleared.stage ≢ living
cleared_begun e = absurd cc

Reach-ends_example : (1 ≤ steps_left cleared) × ((left.stage ≡ gone) ⊎ CanGo left)
unfolding start_runners test
Reach-ends_example = Reach-ends 1 cleared left cleared-Reach cleared_begun (
    steps 0 cleared cleared left (rests cleared) (tests (inside 1 ∷ []) (start_runners 8) 0 refl)
      tt)
