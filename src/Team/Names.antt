-- ===== src/Team/Names.antt =====
-- Names of workers: workerKey and workerIdFor of engine/team-execution.ts. A lower-case letter or a
-- digit of ASCII is kept and every other run of characters becomes a dash, so that of `toLowerCase`
-- only the characters matter whose lower case has such a letter.
use Prim.Native.Char.{code}
use multi_agent_engine.Common.{
  ℕ, ◌+◌, String, Bool, true, false, ◌&&◌, ◌||◌, [], ◌∷◌, ◌++◌, leb, ◌==◌, if◌then◌else◌,
}
use multi_agent_engine.Pipeline.{Text}

abbrev pub codes : String → Text
codes String.[] = []
codes (String.◌∷◌ c s) = code c ∷ codes s

-- The Kelvin sign gives a `k`, and a capital I with a dot an `i` with a combining dot.
abbrev pub lower : Text → Text
lower [] = []
lower (c ∷ s) =
    if leb b'A' c && leb c b'Z'
    then (c + 32) ∷ lower s
    else if c == 8490
    then b'k' ∷ lower s
    else if c == 304
    then b'i' ∷ 775 ∷ lower s
    else c ∷ lower s

abbrev is_alphanumeric : ℕ → Bool
is_alphanumeric c = (leb b'a' c && leb c b'z') || (leb b'0' c && leb c b'9')

-- `replace(/[^a-z0-9]+/g, "-")`; the flag is set within a run.
abbrev dashes : Bool → Text → Text
dashes inside [] = []
dashes inside (c ∷ s) =
    if is_alphanumeric c
    then c ∷ dashes false s
    else (if inside then [] else b'-' ∷ []) ++ dashes true s

-- `replace(/^-|-$/g, "")`
abbrev without_first : Text → Text
without_first [] = []
without_first (c ∷ s) = if c == b'-' then s else c ∷ s

abbrev without_last : Text → Text
without_last [] = []
without_last (c ∷ []) = if c == b'-' then [] else c ∷ []
without_last (c ∷ d ∷ s) = c ∷ without_last (d ∷ s)

-- `toLowerCase().replace(/[^a-z0-9]+/g, "-")`, as the identifiers of running workers have it.
unfoldable pub dashed : Text → Text
dashed name = dashes false (lower name)

unfoldable pub key_of : Text → Text
unfolding dashed
key_of name = without_last (without_first (dashed name))

unfoldable pub worker_key : String → Text
unfolding key_of
worker_key name = key_of (codes name)

-- `${step.team}-${workerKey(workerName)}`
unfoldable pub worker_id_for : Text → String → Text
unfolding worker_key
worker_id_for team name = team ++ b'-' ∷ worker_key name

-- The identifier that executeWorkers and retryWorker give to a worker.
unfoldable pub running_id : Text → String → Text
unfolding dashed
running_id team name = team ++ b'-' ∷ dashed (codes name)
