-- ===== src/Session/Tests.antt =====
-- Runs of the transition table, and the laws at concrete requests.
use multi_agent_engine.Common.{◌≡◌, refl, [], ◌∷◌}
use multi_agent_engine.Session.{active, paused, completed, known, transition_status, requests}

pause_then_finish : requests (known active) (paused ∷ completed ∷ active ∷ []) ≡ known completed
unfolding requests transition_status
pause_then_finish = refl
