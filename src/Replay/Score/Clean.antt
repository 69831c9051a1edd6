-- ===== src/Replay/Score/Clean.antt =====
-- engine/replay.ts: the fingerprint of a session that passes.
use multi_agent_engine.Common.{
  ℕ, ◌≡◌, ◌≤◌, ◌⊎◌, Option, none, some, refl, inl, inr, true, false, not, List, [], ◌∷◌, keep, All,
  Bool-cases, ◌∙◌, if◌then◌else◌, arith,
}
use multi_agent_engine.SpawnDecision.{is_empty}
use multi_agent_engine.SpawnDecision.Laws.{keep-nil}
use multi_agent_engine.Replay.{
  TraceEvent, SessionTrace, BehavioralFingerprint, is_type, is_error_level, error_logs, read_event,
  read_events, empty_fingerprint, extract_fingerprint,
}
use multi_agent_engine.Replay.Score.{
  pass, partial, fail, is_completed, checks_of, cost_ok, fails, score_session,
}

read_event-error_count :
    (e : TraceEvent) (f : BehavioralFingerprint)
    → is_type "agent.error" e ≡ false
    → (read_event e f).error_count ≡ f.error_count
unfolding read_event
read_event-error_count e f h = ground (arith, h)

read_events-error_count :
    (es : List TraceEvent) (f : BehavioralFingerprint)
    → All (λ e. is_type "agent.error" e ≡ false) es
    → (read_events es f).error_count ≡ f.error_count
unfolding read_events
read_events-error_count [] f a = refl
read_events-error_count (e ∷ es) f (h, a) =
    read_events-error_count es (read_event e f) a ∙ read_event-error_count e f h

error_logs-none :
    (es : List TraceEvent) → All (λ e. is_error_level e.level ≡ false) es → error_logs es ≡ 0
error_logs-none [] a = refl
error_logs-none (e ∷ es) (h, a) = let ih = error_logs-none es a in ground (arith, h, ih)

pub score_session-fails :
    (t : SessionTrace) → (score_session t).overall ≡ pass → All (λ c. fails c ≡ false) (checks_of t)
unfolding score_session
score_session-fails t h = elim (Bool-cases (is_empty (keep fails (checks_of t)))) [
  | inl n ↦ keep-nil fails (checks_of t) n
  | inr n ↦
      let x : (if is_empty (keep fails (checks_of t))
            then pass
            else if not (is_completed t)
            then fail
            else partial)
          ≡ pass =
        h in
      absurd (ground (arith, x, n))
]

cost_ok-le :
    (cost : Option ℕ)
    → cost_ok cost ≡ true
    → (cost ≡ none) ⊎ ((c : ℕ) × (cost ≡ some c) × (c ≤ 500))
cost_ok-le none h = inl refl
cost_ok-le (some c) h = inr (c, refl, ground (arith, h))

-- The fingerprint of a session that passes has no errors, and where its trace records a cost, that is
-- five dollars at most, in cents; a session without a recorded cost may pass.
pub score_session-error_count :
    (t : SessionTrace)
    → (score_session t).overall ≡ pass
    → ((score_session t).fingerprint.error_count ≡ 0)
      × ((t.total_cost ≡ none) ⊎ ((cost : ℕ) × (t.total_cost ≡ some cost) × (cost ≤ 500)))
unfolding score_session checks_of extract_fingerprint
score_session-error_count t h =
    let (_, (_, (a, (l, (c, _))))) = score_session-fails t h in
    let agents : not (is_empty (keep (is_type "agent.error") t.events)) ≡ false = a in
    let logs : not (is_empty (keep (λ e. is_error_level e.level) t.events)) ≡ false = l in
    let x = keep-nil (is_type "agent.error") t.events (ground (arith, agents)) in
    let y = keep-nil (λ e. is_error_level e.level) t.events (ground (arith, logs)) in
    let p = read_events-error_count t.events empty_fingerprint x in
    let q = error_logs-none t.events y in
    (rw (p, q) refl, cost_ok-le t.total_cost (ground (arith, c)))
