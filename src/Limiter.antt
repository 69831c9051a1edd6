-- ===== src/Limiter.antt =====
-- The semaphore of engine/concurrency.ts, and the tasks that go through its `run`.
pub mod Laws
mod Tests
use multi_agent_engine.Common.{
  ℕ, zero, suc, ◌+◌, Bool, true, false, Option, none, some, List, [], ◌∷◌, ◌++◌, ltb, get_elem?,
  if◌then◌else◌,
}
use multi_agent_engine.Common.Int.{ℤ, pos, increment, decrement, ltb_ℤ}

-- A waiting entry is the closure that takes the slot and resolves its task's promise; the task's
-- number stands for it.
pub record ConcurrencyLimiter : Type 0 where
  pub max : ℕ
  pub active : ℤ
  pub waiting : List ℕ

-- The constructor, which throws for a maximum of 0.
unfoldable pub new_limiter : ℕ → Option ConcurrencyLimiter
new_limiter max =
    if ltb max 1 then none else some (record { max = max; active = pos 0; waiting = [] })

-- Whether the promise is resolved at once.
unfoldable pub acquire : ConcurrencyLimiter → ℕ → ConcurrencyLimiter × Bool
acquire l task =
    if ltb_ℤ l.active l.max
    then (record l { active = increment l.active }, true)
    else (record l { waiting = l.waiting ++ task ∷ [] }, false)

-- `shift` the next closure and call it.
abbrev resume_next : ConcurrencyLimiter → List ℕ → ConcurrencyLimiter × Option ℕ
resume_next l [] = (l, none)
resume_next l (task ∷ rest) = (record l { active = increment l.active; waiting = rest }, some task)

-- The task whose promise is resolved, if one waited.
unfoldable pub release : ConcurrencyLimiter → ConcurrencyLimiter × Option ℕ
release l = resume_next (record l { active = decrement l.active }) l.waiting

-- The limiter with the tasks that hold a slot, and two logs: the calls of `run` and the starts of
-- its `fn`, in order.
pub record World : Type 0 where
  pub limiter : ConcurrencyLimiter
  pub running : List ℕ
  pub calls : List ℕ
  pub starts : List ℕ

pub data Event : Type 0 where
  called : ℕ → Event  -- `run(fn)` for this task
  settled : ℕ → Event  -- `fn` of the running task at this position returns or throws

abbrev start_if : Bool → ℕ → World → World
start_if true task w = record w { running = w.running ++ task ∷ []; starts = w.starts ++ task ∷ [] }
start_if false task w = w

abbrev start_next : Option ℕ → World → World
start_next none w = w
start_next (some task) w = start_if true task w

abbrev pub remove_at : List ℕ → ℕ → List ℕ
remove_at [] i = []
remove_at (x ∷ xs) zero = xs
remove_at (x ∷ xs) (suc i) = x ∷ remove_at xs i

-- The first half of `run`.
call : World → ℕ → World
unfolding acquire
call w task =
    let (l, at_once) = acquire w.limiter task in
    start_if at_once task (record w { limiter = l; calls = w.calls ++ task ∷ [] })

-- Its `finally`.
settle : World → ℕ → World
unfolding release
settle w i =
    let (l, next) = release w.limiter in
    start_next next (record w { limiter = l; running = remove_at w.running i })

abbrev settle_if : Option ℕ → World → ℕ → World
settle_if none w i = w
settle_if (some _) w i = settle w i

-- One event; no task stands at a position out of range, so nothing settles there.
unfoldable pub step : World → Event → World
unfolding call settle
step w (called task) = call w task
step w (settled i) = settle_if (get_elem? w.running i) w i

unfoldable pub run : World → List Event → World
run w [] = w
run w (e ∷ es) = run (step w e) es

unfoldable pub idle : ConcurrencyLimiter → World
idle l = record { limiter = l; running = []; calls = []; starts = [] }
