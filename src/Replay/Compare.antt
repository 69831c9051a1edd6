-- ===== src/Replay/Compare.antt =====
-- compareFingerprints and sequenceSimilarity of engine/replay.ts. A similarity is an exact fraction.
pub mod Sets
pub mod Laws
use multi_agent_engine.Common.{
  ℕ, zero, suc, ◌+◌, ◌*◌, ◌-◌, Bool, true, false, ◌&&◌, List, [], ◌∷◌, ◌++◌, any, keep, length, ltb,
  ◌==◌, if◌then◌else◌,
}
use multi_agent_engine.Pipeline.{Text}
use multi_agent_engine.SpawnDecision.{is_empty}
use multi_agent_engine.SpawnDecision.Paths.{text_eq}
use multi_agent_engine.Replay.{BehavioralFingerprint}

pub record Ratio : Type 0 where
  pub part : ℕ
  pub whole : ℕ

abbrev pub ratio : ℕ → ℕ → Ratio
ratio p w = record { part = p; whole = w }

abbrev pub has : List Text → Text → Bool
has xs x = any (text_eq x) xs

abbrev pub add : Text → List Text → List Text
add x s = if has s x then s else x ∷ s

-- The set of the elements; its order is not observed.
unfoldable pub as_set : List Text → List Text
as_set [] = []
as_set (x ∷ xs) = add x (as_set xs)

unfoldable pub bigrams : List Text → List Text
bigrams [] = []
bigrams (a ∷ []) = []
bigrams (a ∷ b ∷ rest) = (a ++ b'|' ∷ b) ∷ bigrams (b ∷ rest)

abbrev pub alike : Text → Text → Ratio
alike a b = if text_eq a b then ratio 1 1 else ratio 0 1

unfoldable pub common : List Text → List Text → ℕ
common xs ys = length (keep (has ys) xs)

-- The size of the intersection over that of the union.
unfoldable pub jaccard : List Text → List Text → Ratio
unfolding common
jaccard xs ys =
    let union = length xs + length ys - common xs ys in
    if ltb 0 union then ratio (common xs ys) union else ratio 1 1

unfoldable pub sequence_similarity : List Text → List Text → Ratio
unfolding as_set bigrams jaccard
sequence_similarity [] [] = ratio 1 1
sequence_similarity [] (b ∷ t) = ratio 0 1
sequence_similarity (a ∷ s) [] = ratio 0 1
sequence_similarity (a ∷ s) (b ∷ t) =
    let xs = as_set (bigrams (a ∷ s)) in
    let ys = as_set (bigrams (b ∷ t)) in
    if is_empty s && is_empty t
    then alike a b
    else if is_empty xs && is_empty ys
    then alike a b
    else jaccard xs ys

pub data Field : Type 0 where
  agent_count step_count error_count team_sequence status_transitions : Field

-- The parts of the text of a difference, in their order: two counts; the lengths of two sequences of
-- tools, with the similarity that is shown in percent; or two sequences.
pub data Diff : Type 0 where
  counts : Field → ℕ → ℕ → Diff
  tools : ℕ → ℕ → Ratio → Diff
  sequences : Field → List Text → List Text → Diff

pub record FingerprintComparison : Type 0 where
  pub similarity : Ratio
  pub diffs : List Diff

abbrev pub scalar : ℕ → ℕ → Ratio
scalar a b = if a == b then ratio 1 1 else ratio 0 1

abbrev pub diff : Diff → Ratio → List Diff
diff d r = if ltb r.part r.whole then d ∷ [] else []

abbrev pub plus_ratio : Ratio → Ratio → Ratio
plus_ratio a b = ratio (a.part * b.whole + b.part * a.whole) (a.whole * b.whole)

abbrev pub count_check : Field → ℕ → ℕ → Diff × Ratio
count_check f a b = (counts f a b, scalar a b)

abbrev pub tools_check : List Text → List Text → Diff × Ratio
tools_check a b =
    let similarity = sequence_similarity a b in (tools (length a) (length b) similarity, similarity)

abbrev pub sequence_check : Field → List Text → List Text → Diff × Ratio
sequence_check f a b = (sequences f a b, sequence_similarity a b)

-- The checks, each with what is reported where it is not full.
abbrev pub field_checks : BehavioralFingerprint → BehavioralFingerprint → List (Diff × Ratio)
field_checks a b =
    count_check agent_count a.agent_count b.agent_count
    ∷ count_check step_count a.step_count b.step_count
    ∷ count_check error_count a.error_count b.error_count
    ∷ tools_check a.tool_sequence b.tool_sequence
    ∷ sequence_check team_sequence a.team_sequence b.team_sequence
    ∷ sequence_check status_transitions a.status_transitions b.status_transitions
    ∷ []

unfoldable pub match_score : List (Diff × Ratio) → Ratio
match_score [] = ratio 0 1
match_score ((f, r) ∷ rs) = plus_ratio r (match_score rs)

unfoldable pub diffs_of : List (Diff × Ratio) → List Diff
diffs_of [] = []
diffs_of ((f, r) ∷ rs) = diff f r ++ diffs_of rs

-- The mean of the six checks.
unfoldable pub compare_fingerprints :
    BehavioralFingerprint → BehavioralFingerprint → FingerprintComparison
unfolding sequence_similarity match_score diffs_of
compare_fingerprints a b =
    let checks = field_checks a b in
    let s = match_score checks in
    record { similarity = ratio s.part (s.whole * length checks); diffs = diffs_of checks }
