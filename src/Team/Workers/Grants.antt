-- ===== src/Team/Workers/Grants.antt =====
-- engine/team-execution.ts, executeWorkers: what the workers that a lead starts may do.
use multi_agent_engine.Common.{
  ◌≡◌, refl, inl, inr, String, Bool, true, false, some, List, [], ◌∷◌, ◌++◌, keep, All, Memᴰ,
  mem-append_cases,
}
use multi_agent_engine.Pipeline.{Text}
use multi_agent_engine.SpawnDecision.{
  SpawnDecision, Domain, apply_spawn_decision_constraints, has_tool,
  validate_spawn_decision_for_execution,
}
use multi_agent_engine.SpawnDecision.Laws.{
  IsGranted, IsGrantedTool, apply_spawn_decision_constraints-IsGranted,
}
use multi_agent_engine.Team.Data.{TeamMember, TeamConfig}
use multi_agent_engine.Team.ReviewMode.{apply_review_only_options}
use multi_agent_engine.Team.Gates.{plain_rights, worker_rights, paths_of, Rights}
use multi_agent_engine.Team.Workers.{Entry, available_tools, needs_worker, roster}
use multi_agent_engine.Team.Workers.Laws.{IsAuthorized, mem-keep, roster-IsAuthorized}

-- Rights that a decision which asks for a worker grants.
abbrev pub AreGranted : SpawnDecision → List String → Rights → Type 0
AreGranted d tools r =
    ((t : String) → has_tool r.0 t ≡ true → IsGrantedTool d tools tools t)
    × ((p : Text) → Memᴰ p (paths_of r.1) → IsGranted d p)

worker_rights-some :
    (m : TeamMember) (d : SpawnDecision) (review_only : Bool)
    → worker_rights true m (some d) review_only
      ≡ apply_spawn_decision_constraints
          (available_tools m review_only)
          (plain_rights m review_only).1
          d
          review_only
unfolding worker_rights plain_rights available_tools apply_review_only_options
worker_rights-some m d true = refl
worker_rights-some m d false = refl

constraints-AreGranted :
    (d : SpawnDecision) (tools : List String) (domain : Domain) (review_only : Bool)
    → d.need_worker ≡ true
    → validate_spawn_decision_for_execution d tools ≡ []
    → AreGranted d tools (apply_spawn_decision_constraints tools domain d review_only)
constraints-AreGranted d tools domain review_only n v =
    let (ts, read, write, update, _) =
      apply_spawn_decision_constraints-IsGranted d tools tools domain review_only n v in
    let g = (apply_spawn_decision_constraints tools domain d review_only).1 in
    (
      ts,
      λ p m. elim (mem-append_cases g.read (g.write ++ g.update) m) [
        | inl a ↦ read p a
        | inr r ↦ elim (mem-append_cases g.write g.update r) [
          | inl b ↦ (write p b).0
          | inr c ↦ (update p c).0
        ]
      ],
    )

-- What a worker that the lead started has: tools and paths that a decision among the lead's grants.
abbrev pub HasGranted : Bool → List SpawnDecision → Entry → Type 0
HasGranted review_only parsed e =
    (d : SpawnDecision) × Memᴰ d parsed
    × AreGranted d (available_tools e.member review_only)
        (worker_rights true e.member e.decision review_only)

IsAuthorized-HasGranted :
    (team : TeamConfig) (review_only : Bool) (parsed : List SpawnDecision) (e : Entry)
    → IsAuthorized team review_only (keep needs_worker parsed) e
    → HasGranted review_only parsed e
IsAuthorized-HasGranted team review_only parsed e (d, p, m, (_, _, v)) =
    let (i, n) = mem-keep needs_worker parsed m in
    let tools = available_tools e.member review_only in
    let domain = (plain_rights e.member review_only).1 in
    (
      d,
      i,
      rw (p, worker_rights-some e.member d review_only)
          (constraints-AreGranted d tools domain review_only n v),
    )

HasGranted-All :
    (team : TeamConfig) (review_only : Bool) (parsed : List SpawnDecision) (es : List Entry)
    → All (IsAuthorized team review_only (keep needs_worker parsed)) es
    → All (HasGranted review_only parsed) es
HasGranted-All team review_only parsed [] h = tt
HasGranted-All team review_only parsed (e ∷ es) (h, hs) = (
  IsAuthorized-HasGranted team review_only parsed e h,
  HasGranted-All team review_only parsed es hs,
)

-- Every worker that starts in strict mode has only tools that its persona has in this step and that a
-- decision of the lead allows, and may read, write and update only paths of that decision, of which
-- none is unsafe or, read as texts, a forbidden path or above a forbidden one: the same but for slashes
-- at the end, a directory over it, the glob `/**` of it or of such a directory, or the glob `/*` of the
-- directory that it stands in.
pub roster-HasGranted :
    (team : TeamConfig) (review_only : Bool) (parsed : List SpawnDecision) {es : List Entry}
    → roster team true review_only parsed ≡ some es
    → All (HasGranted review_only parsed) es
roster-HasGranted team review_only parsed {es} h =
    HasGranted-All team review_only parsed es (roster-IsAuthorized team review_only parsed h).2
