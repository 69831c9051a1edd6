-- ===== src/Team/ReviewMode.antt =====
-- engine/review-mode.ts: when a step is for review only, and what its agents may use.
use multi_agent_engine.Common.{
  ℕ, ◌+◌, String, Bool, ◌&&◌, ◌||◌, Option, or_else, List, [], ◌∷◌, any, keep, str_eq, leb,
  if◌then◌else◌,
}
use multi_agent_engine.Pipeline.{Text}
use multi_agent_engine.SpawnDecision.{Domain, is_empty}
use multi_agent_engine.SpawnDecision.Paths.{begins_with}
use multi_agent_engine.Team.Names.{codes}

abbrev pub read_only_names : List String
read_only_names = "read" ∷ "grep" ∷ "glob" ∷ []

abbrev fold_case : ℕ → ℕ
fold_case c = if leb b'A' c && leb c b'Z' then c + 32 else c

abbrev pub folded : Text → Text
folded [] = []
folded (c ∷ s) = fold_case c ∷ folded s

abbrev pub occurs : Text → Text → Bool
occurs [] t = begins_with [] t
occurs (c ∷ s) t = begins_with (c ∷ s) t || occurs s t

-- The regular expression of the module, without regard to case.
unfoldable pub asks_for_review : String → Bool
asks_for_review prompt =
    let text = folded (codes prompt) in
    occurs text (codes "review-only mode")
    || (occurs text (codes "do not edit files") || occurs text (codes "review-only"))

unfoldable pub is_review_only_step : Bool → Option String → Bool
unfolding asks_for_review
is_review_only_step read_only append = read_only || asks_for_review (or_else append "")

-- `[...new Set(tools)]`
unfoldable pub distinct : List String → List String → List String
distinct seen [] = []
distinct seen (t ∷ ts) =
    let rest = distinct (t ∷ seen) ts in if any (str_eq t) seen then rest else t ∷ rest

abbrev pub is_read_only_name : String → Bool
is_read_only_name t = any (str_eq t) read_only_names

unfoldable pub read_only_tools : List String → List String
unfolding distinct
read_only_tools tools =
    let filtered = keep is_read_only_name tools in
    if is_empty filtered then read_only_names else distinct [] filtered

unfoldable pub read_only_domain : Domain → Domain
read_only_domain d = record d { write = []; update = [] }

-- The tools and the domain with which a step runs an agent.
unfoldable pub apply_review_only_options : List String × Domain → Bool → List String × Domain
unfolding read_only_tools read_only_domain
apply_review_only_options (tools, domain) enabled =
    if enabled then (read_only_tools tools, read_only_domain domain) else (tools, domain)
