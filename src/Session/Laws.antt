-- ===== src/Session/Laws.antt =====
-- engine/session-state.ts: the transition table, and what follows for any order of requests.
use multi_agent_engine.Common.{◌≡◌, refl, ◌⊎◌, inl, inr, true, false, List, [], ◌∷◌, arith}
use multi_agent_engine.Session.{
  SessionStatus, active, paused, completed, error, Status, known, unknown, transition_status,
  requests,
}

-- The edges of the lifecycle, drawn independently of the table.
pub data Edge : Status → SessionStatus → Type 0 where
  pause : Edge (known active) paused
  resume : Edge (known paused) active
  finish_active : Edge (known active) completed
  finish_paused : Edge (known paused) completed
  fail_active : Edge (known active) error
  fail_paused : Edge (known paused) error

Edge-accepted :
    {s : Status} {n : SessionStatus} → Edge s n → transition_status s n ≡ (known n, true)
unfolding transition_status
Edge-accepted pause = refl
Edge-accepted resume = refl
Edge-accepted finish_active = refl
Edge-accepted finish_paused = refl
Edge-accepted fail_active = refl
Edge-accepted fail_paused = refl

Edge-or-refused : (s : Status) (n : SessionStatus) → Edge s n ⊎ (transition_status s n ≡ (s, false))
unfolding transition_status
Edge-or-refused (known active) paused = inl pause
Edge-or-refused (known active) completed = inl finish_active
Edge-or-refused (known active) error = inl fail_active
Edge-or-refused (known paused) active = inl resume
Edge-or-refused (known paused) completed = inl finish_paused
Edge-or-refused (known paused) error = inl fail_paused
Edge-or-refused _ _ = inr refl

-- A request either follows an edge of the lifecycle, and then its status is the session's and the
-- caller is told `true`, or there is no such edge, the status stays and the caller is told `false`.
pub transition_status-Edge :
    (s : Status) (n : SessionStatus)
    → (Edge s n × (transition_status s n ≡ (known n, true)))
      ⊎ ((¬ Edge s n) × (transition_status s n ≡ (s, false)))
transition_status-Edge s n = elim (Edge-or-refused s n) [
  | inl e ↦ inl (e, Edge-accepted e)
  | inr r ↦ inr ((λ e. cc (Edge-accepted e)), r)
]

pub step_final :
    (s : Status) (n : SessionStatus)
    → (s ≡ known completed) ⊎ ((s ≡ known error) ⊎ (s ≡ unknown))
    → (transition_status s n).0 ≡ s
unfolding transition_status
step_final s n f = ground arith

-- A session that is completed, has failed or holds an unknown text keeps its status whatever is
-- requested afterwards, in any order and from any source.
pub requests-final :
    (s : Status) (ns : List SessionStatus)
    → (s ≡ known completed) ⊎ ((s ≡ known error) ⊎ (s ≡ unknown))
    → requests s ns ≡ s
unfolding requests
requests-final s [] f = refl
requests-final s (n ∷ ns) f = rw (step_final s n f) (requests-final s ns f)
