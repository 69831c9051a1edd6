-- ===== src/Ralph/Laws.antt =====
-- engine/ralph-loop.ts: what a verification leaves on disk, and what an accepted mutation has passed.
use multi_agent_engine.Common.{
  ℕ, suc, ◌+◌, ◌*◌, ◌≤◌, ◌≡◌, refl, ◌⊎◌, inl, inr, String, Bool, true, false, ◌&&◌, Option, none,
  some, List, [], ◌∷◌, ◌==◌, Bool-cases, str_eq, arith,
}
use multi_agent_engine.Ralph.{
  JudgeScores, Golden, Replay, throws, replayed, RatchetConfig, select_goldens, cost_ok, judge_ok,
  test_golden, test_goldens, accepted, rejected, dry_run, Outcome, returns, raises, Trial, Disk,
  write, Body, done, thrown, conclude, try_mutation, recover, restore, ratchet,
}

-- A replay that proves a mutation harmless for a golden trace: no failed check, a cost within the
-- multiple of the golden's where both are known and the golden's is not 0, and no score below the
-- golden's by more than the allowed regression.
abbrev pub CostWithin : ℕ → Option ℕ → Option ℕ → Type 0
CostWithin multiplier none replay = Unit
CostWithin multiplier (some golden) none = Unit
CostWithin multiplier (some golden) (some replay) =
    (golden ≡ 0) ⊎ (1000 * replay ≤ golden * multiplier)

abbrev pub JudgeWithin : RatchetConfig → Option JudgeScores → JudgeScores → Type 0
JudgeWithin c none replay = c.require_scores ≡ false
JudgeWithin c (some golden) replay =
    (golden.overall_quality ≤ replay.overall_quality + c.max_judge_regression)
    × (golden.release_readiness ≤ replay.release_readiness + c.max_judge_regression)

abbrev pub Proves : RatchetConfig → Golden → Replay → Type 0
Proves c g throws = ⊥
Proves c g (replayed failed cost scores) =
    (failed ≡ 0)
    × CostWithin c.max_cost_multiplier g.total_cost cost
    × JudgeWithin c g.scores scores

abbrev pub AllProve : RatchetConfig → (ℕ → Replay) → ℕ → List Golden → Type 0
AllProve c replay k [] = Unit
AllProve c replay k (g ∷ gs) = Proves c g (replay k) × AllProve c replay (suc k) gs

cost_ok-CostWithin :
    (m : ℕ) (golden replay : Option ℕ) → cost_ok m golden replay ≡ true → CostWithin m golden replay
unfolding cost_ok
cost_ok-CostWithin m none replay h = tt
cost_ok-CostWithin m (some g) none h = tt
cost_ok-CostWithin m (some g) (some r) h = ground arith

judge_ok-JudgeWithin :
    (c : RatchetConfig) (golden : Option JudgeScores) (replay : JudgeScores)
    → judge_ok c golden replay ≡ true
    → JudgeWithin c golden replay
unfolding judge_ok
judge_ok-JudgeWithin c none r h = ground arith
judge_ok-JudgeWithin c (some g) r h = (ground arith, ground arith)

both : (a b : Bool) → (a && b) ≡ true → (a ≡ true) × (b ≡ true)
both true true h = (refl, refl)
both true false h = (refl, h)
both false b h = absurd (cc h)

test_golden-Proves :
    (c : RatchetConfig) (g : Golden) (r : Replay) → test_golden c g r ≡ true → Proves c g r
unfolding test_golden
test_golden-Proves c g throws h = cc h
test_golden-Proves c g (replayed failed cost scores) h =
    let (z, rest) =
      both (failed == 0)
        (cost_ok c.max_cost_multiplier g.total_cost cost && judge_ok c g.scores scores) h in
    let (k, j) =
      both (cost_ok c.max_cost_multiplier g.total_cost cost) (judge_ok c g.scores scores) rest in
    (
      ground (arith, z),
      cost_ok-CostWithin c.max_cost_multiplier g.total_cost cost k,
      judge_ok-JudgeWithin c g.scores scores j,
    )

test_goldens-AllProve :
    (c : RatchetConfig) (replay : ℕ → Replay) (k : ℕ) (gs : List Golden)
    → test_goldens c replay k gs ≡ true
    → AllProve c replay k gs
unfolding test_goldens
test_goldens-AllProve c replay k [] h = tt
test_goldens-AllProve c replay k (g ∷ gs) h = elim (Bool-cases (test_golden c g (replay k))) [
  | inl e ↦
      (test_golden-Proves c g (replay k) e, test_goldens-AllProve c replay (suc k) gs (rw e at h))
  | inr e ↦ ground (arith, e, h)
]

-- What a returned status says of the file's new content.
abbrev pub Honest : RatchetConfig → Trial → String → Outcome → String → Type 0
Honest c t before raises content = Unit
Honest c t before (returns accepted) content =
    (content ≡ t.mutate before)
    × (c.dry_run ≡ false)
    × (t.is_valid (t.mutate before) ≡ true)
    × (str_eq before (t.mutate before) ≡ false)
    × AllProve c t.replay 0 (select_goldens c.min_coverage t.loaded)
Honest c t before (returns _) content = content ≡ before

module _ (c : RatchetConfig) (t : Trial) (before : String) where
  abbrev HonestEnd : Body × Disk → Type 0
  HonestEnd b = let r = restore c t before (recover t before b) in Honest c t before r.0 r.1.content

  -- Where the body throws, the status says `rejected` only if the write in `catch` has succeeded.
  thrown-cases :
      (flag : Bool) (d : Disk)
      → let r = restore c t before (recover t before (thrown flag, d)) in
        (r.0 ≡ raises) ⊎ ((r.0 ≡ returns rejected) × (r.1.content ≡ before))
  unfolding recover restore write
  thrown-cases flag d = ground arith

  thrown-Honest : (flag : Bool) (d : Disk) → HonestEnd (thrown flag, d)
  thrown-Honest flag d = elim (thrown-cases flag d) [ inl e ↦ rw e tt | inr (e, f) ↦ rw e f ]

  dry_run-Honest : (d : Disk) → c.dry_run ≡ true → d.content ≡ before → HonestEnd (done dry_run, d)
  unfolding recover restore write
  dry_run-Honest d e f = ground (arith, e, f)

  conclude_dry-Honest : (d : Disk) → c.dry_run ≡ true → HonestEnd (conclude true t before d)
  unfolding conclude write
  conclude_dry-Honest d e = elim (Bool-cases (t.writes d.count)) [
    | inr w ↦ rw w (thrown-Honest true (record d { count = suc d.count }))
    | inl w ↦ elim (Bool-cases t.journals_success) [
      | inl j ↦
          simp (w, j) (dry_run-Honest (record { content = before; count = suc d.count }) e refl)
      | inr j ↦ simp (w, j) (thrown-Honest true (record { content = before; count = suc d.count }))
    ]
  ]

  -- What the body has checked before it accepts.
  abbrev Checked : Type 0
  Checked =
      (t.is_valid (t.mutate before) ≡ true)
      × (str_eq before (t.mutate before) ≡ false)
      × AllProve c t.replay 0 (select_goldens c.min_coverage t.loaded)

  accepted-Honest :
      (d : Disk)
      → c.dry_run ≡ false
      → d.content ≡ t.mutate before
      → Checked
      → HonestEnd (done accepted, d)
  unfolding recover restore
  accepted-Honest d e f k = (rw e f, e, k.0, k.1, k.2)

  conclude_real-Honest :
      (d : Disk)
      → c.dry_run ≡ false
      → d.content ≡ t.mutate before
      → Checked
      → HonestEnd (conclude false t before d)
  unfolding conclude
  conclude_real-Honest d e f k = elim (Bool-cases t.journals_success) [
    | inl j ↦ simp j (accepted-Honest d e f k)
    | inr j ↦ simp j (thrown-Honest true d)
  ]

  conclude-Honest :
      (d : Disk) (dry : Bool)
      → c.dry_run ≡ dry
      → d.content ≡ t.mutate before
      → Checked
      → HonestEnd (conclude dry t before d)
  conclude-Honest d true e f k = conclude_dry-Honest d e
  conclude-Honest d false e f k = conclude_real-Honest d e f k

  try_mutation-Honest :
      let goldens = select_goldens c.min_coverage t.loaded in
      let d : Disk = record { content = before; count = 0 } in
      str_eq before (t.mutate before) ≡ false
      → HonestEnd (try_mutation c t goldens before (t.mutate before) d)
  unfolding try_mutation write
  try_mutation-Honest new =
      let goldens = select_goldens c.min_coverage t.loaded in
      let after = t.mutate before in
      elim (Bool-cases (t.is_valid after)) [
        | inr v ↦ simp v (thrown-Honest false (record { content = before; count = 0 }))
        | inl v ↦ elim (Bool-cases (t.writes 0)) [
          | inr w ↦ simp (v, w) (thrown-Honest false (record { content = before; count = 1 }))
          | inl w ↦ elim (Bool-cases (test_goldens c t.replay 0 goldens)) [
            | inr g ↦ simp (v, w, g) (thrown-Honest false (record { content = after; count = 1 }))
            | inl g ↦
                simp (v, w, g)
                  (conclude-Honest (record { content = after; count = 1 }) c.dry_run refl refl
                    (v, new, test_goldens-AllProve c t.replay 0 goldens g))
          ]
        ]
      ]

-- The ratchet keeps its word, whichever replays, writes of the file and entries of the journal
-- fail. When it returns `accepted`, the run is no dry run, the file holds the mutated text, which
-- differs from the old one and is a valid persona, and every selected golden trace has been replayed
-- without a failed check, an excessive cost or a regression of the judge's scores. When it returns
-- any other status, the file holds what it held before.
pub ratchet-Honest :
    (c : RatchetConfig) (t : Trial) (before : String)
    → let r = ratchet c t before in Honest c t before r.0 r.1
unfolding ratchet
ratchet-Honest c t before = elim (Bool-cases (str_eq before (t.mutate before))) [
  | inl e ↦ rw e refl
  | inr e ↦ rw e (try_mutation-Honest c t before e)
]
