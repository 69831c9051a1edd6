-- ===== src/Limiter/Laws.antt =====
-- engine/concurrency.ts: the cap, no lost wake-up, first come first served, and progress.
use mathlib.Core.List.{append-nil, append_assoc}
use multi_agent_engine.Common.{
  ℕ, zero, suc, ◌+◌, ◌≤◌, ◌<◌, ◌≡◌, refl, sym, ap, ◌∙◌, ◌⊎◌, inl, inr, some, List, [], ◌∷◌, ◌++◌,
  length, length-append, get_elem?, arith, Option-cases,
}
use multi_agent_engine.Common.Int.{pos}
use multi_agent_engine.Limiter.{
  ConcurrencyLimiter, World, Event, called, settled, remove_at, call, settle, step, run, idle,
  new_limiter,
}

pub record Inv (w : World) : Type 0 where
  pub positive : 0 < w.limiter.max
  pub counted : w.limiter.active ≡ pos (length w.running)
  pub capped : length w.running ≤ w.limiter.max
  pub busy : (w.limiter.waiting ≡ []) ⊎ (length w.running ≡ w.limiter.max)
  pub fair : w.calls ≡ w.starts ++ w.limiter.waiting

length-remove_at :
    (xs : List ℕ) (i : ℕ) {x : ℕ}
    → get_elem? xs i ≡ some x
    → suc (length (remove_at xs i)) ≡ length xs
length-remove_at [] i e = ground arith
length-remove_at (x ∷ xs) zero e = refl
length-remove_at (x ∷ xs) (suc i) e = ap suc (length-remove_at xs i e)

List-cases {ℓ} :
    {A : Type ℓ} (xs : List A) → (xs ≡ []) ⊎ ((x : A) × (rest : List A) × (xs ≡ x ∷ rest))
List-cases [] = inl refl
List-cases (x ∷ xs) = inr (x, xs, refl)

call-Inv : (w : World) (task : ℕ) → Inv w → Inv (call w task)
unfolding call
call-Inv w task v = ground (
  arith,
  length-append w.running (task ∷ []),
  append_assoc w.starts w.limiter.waiting (task ∷ []),
  append-nil w.starts,
  append-nil (w.starts ++ task ∷ []),
)

settle-Inv : (w : World) (i : ℕ) {x : ℕ} → get_elem? w.running i ≡ some x → Inv w → Inv (settle w i)
unfolding settle
settle-Inv w i e v = elim (List-cases w.limiter.waiting) [
  | inl none_waits ↦ ground (arith, length-remove_at w.running i e)
  | inr (t, rest, waits) ↦ ground (
    arith,
    length-remove_at w.running i e,
    length-append (remove_at w.running i) (t ∷ []),
    append_assoc w.starts (t ∷ []) rest,
  )
]

step-Inv : (w : World) (e : Event) → Inv w → Inv (step w e)
unfolding step
step-Inv w (called task) v = call-Inv w task v
step-Inv w (settled i) v = elim (Option-cases (get_elem? w.running i)) [
  | inl e ↦ rw e v
  | inr (x, e) ↦ rw e (settle-Inv w i e v)
]

run-Inv : (w : World) (es : List Event) → Inv w → Inv (run w es)
unfolding run
run-Inv w [] v = v
run-Inv w (e ∷ es) v = run-Inv (step w e) es (step-Inv w e v)

idle-Inv : (max : ℕ) {l : ConcurrencyLimiter} → new_limiter max ≡ some l → Inv (idle l)
unfolding new_limiter idle
idle-Inv max e = ground arith

-- Of a limiter that its constructor made, after any calls and settlements in any order: the count
-- is the number of tasks that hold a slot and is within the maximum; a task waits only while every
-- slot is taken; and the tasks that were started are the first of those that were called, in the
-- order of their calls, the rest being the queue.
pub run-idle-Inv :
    (max : ℕ) {l : ConcurrencyLimiter} (es : List Event)
    → new_limiter max ≡ some l
    → Inv (run (idle l) es)
run-idle-Inv max es e = run-Inv _ es (idle-Inv max e)

-- Every settlement is one of a task that runs when it comes.
abbrev pub AreRunning : World → List Event → Type 0
AreRunning w [] = Unit
AreRunning w (called task ∷ es) = AreRunning (step w (called task)) es
AreRunning w (settled i ∷ es) =
    ((task : ℕ) × (get_elem? w.running i ≡ some task)) × AreRunning (step w (settled i)) es

abbrev pub calls_of : List Event → List ℕ
calls_of [] = []
calls_of (called task ∷ es) = task ∷ calls_of es
calls_of (settled i ∷ es) = calls_of es

abbrev pub settlements : List Event → ℕ
settlements [] = 0
settlements (called task ∷ es) = settlements es
settlements (settled i ∷ es) = suc (settlements es)

-- The tasks that run or wait.
abbrev pub pending : World → ℕ
pending w = length w.running + length w.limiter.waiting

call-pending :
    (w : World) (task : ℕ)
    → (pending (step w (called task)) ≡ suc (pending w))
      × ((step w (called task)).calls ≡ w.calls ++ task ∷ [])
unfolding step call
call-pending w task =
    ground (arith, length-append w.running (task ∷ []), length-append w.limiter.waiting (task ∷ []))

settle-pending :
    (w : World) (i : ℕ) {task : ℕ}
    → get_elem? w.running i ≡ some task
    → (suc (pending (step w (settled i))) ≡ pending w) × ((step w (settled i)).calls ≡ w.calls)
unfolding step settle
settle-pending w i e = elim (List-cases w.limiter.waiting) [
  | inl none_waits ↦ ground (arith, e, none_waits, length-remove_at w.running i e)
  | inr (t, rest, waits) ↦ ground (
    arith,
    e,
    waits,
    length-remove_at w.running i e,
    length-append (remove_at w.running i) (t ∷ []),
  )
]

run-pending :
    (w : World) (es : List Event)
    → AreRunning w es
    → (pending (run w es) + settlements es ≡ pending w + length (calls_of es))
      × ((run w es).calls ≡ w.calls ++ calls_of es)
unfolding run
run-pending w [] h = (refl, sym (append-nil w.calls))
run-pending w (called task ∷ es) h =
    let (n, c) = call-pending w task in
    let (k, d) = run-pending (step w (called task)) es h in
    (
      omega (arith, n, k),
      d ∙ ap (λ xs. xs ++ calls_of es) c ∙ append_assoc w.calls (task ∷ []) (calls_of es),
    )
run-pending w (settled i ∷ es) ((task, e), h) =
    let (n, c) = settle-pending w i e in
    let (k, d) = run-pending (step w (settled i)) es h in
    (omega (arith, n, k), d ∙ ap (λ xs. xs ++ calls_of es) c)

drained :
    (w : World)
    → Inv w
    → pending w ≡ 0
    → (w.running ≡ []) × (w.limiter.waiting ≡ []) × (w.starts ≡ w.calls)
drained w v e = elim (List-cases w.running) [
  | inl no_task ↦ elim (List-cases w.limiter.waiting) [
    | inl none_waits ↦ ground (arith, append-nil w.starts)
    | inr (t, rest, waits) ↦ absurd (ground arith)
  ]
  | inr (x, xs, held) ↦ absurd (ground arith)
]

-- From a state that keeps the limiter's invariant, when as many settlements of running tasks have come
-- as there were tasks held, queued or called in between, in whatever order calls and settlements came:
-- every task that was called has been started, in the order of the calls, and none holds a slot or waits.
pub run-settlements-drained :
    (w : World) (es : List Event)
    → Inv w
    → AreRunning w es
    → settlements es ≡ pending w + length (calls_of es)
    → let w' = run w es in
      (w'.running ≡ []) × (w'.limiter.waiting ≡ []) × (w'.starts ≡ w.calls ++ calls_of es)
run-settlements-drained w es v h e =
    let (n, c) = run-pending w es h in
    let (r, q, s) = drained (run w es) (run-Inv w es v) (omega (arith, n, e)) in (r, q, s ∙ c)
