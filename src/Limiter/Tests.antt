-- ===== src/Limiter/Tests.antt =====
-- Runs of the limiter, and its laws at concrete histories.
use multi_agent_engine.Common.{◌≡◌, refl, List, [], ◌∷◌, ◌++◌}
use multi_agent_engine.Common.Int.{pos}
use multi_agent_engine.Limiter.{
  ConcurrencyLimiter, World, Event, called, settled, new_limiter, step, run, idle,
}
use multi_agent_engine.Limiter.Laws.{Inv, run-idle-Inv, run-settlements-drained}

abbrev two_slots : ConcurrencyLimiter
two_slots = record { max = 2; active = pos 0; waiting = [] }

abbrev history : List Event
history = called 1 ∷ called 2 ∷ called 3 ∷ called 4 ∷ settled 1 ∷ []

-- The third task starts when the second one settles.
third_starts : (run (idle two_slots) history).starts ≡ 1 ∷ 2 ∷ 3 ∷ []
unfolding run step idle
third_starts = refl

run-idle-Inv_example : Inv (run (idle two_slots) history)
unfolding new_limiter
run-idle-Inv_example = run-idle-Inv 2 history refl

busy : World
unfolding run step idle
busy = run (idle two_slots) history

-- The tasks settle in another order than they started, and one is called in between.
abbrev later : List Event
later = settled 1 ∷ called 5 ∷ settled 1 ∷ settled 0 ∷ settled 0 ∷ []

run-settlements-drained_example :
    ((run busy later).running ≡ [])
    × ((run busy later).limiter.waiting ≡ [])
    × ((run busy later).starts ≡ busy.calls ++ 5 ∷ [])
unfolding busy new_limiter step run idle
run-settlements-drained_example =
    run-settlements-drained busy later (run-idle-Inv 2 history refl)
      ((_, refl), ((_, refl), ((_, refl), ((_, refl), tt)))) refl
