-- ===== src/Replay/Compare/Laws.antt =====
-- engine/replay.ts: how fingerprints compare.
use multi_agent_engine.Common.{
  ℕ, suc, ◌+◌, ◌*◌, ◌≤◌, ◌<◌, ◌≡◌, refl, ap, ◌∙◌, map, inl, inr, ◌↔◌, ◌⊎◌, ◌≢◌, Bool, true, false,
  ◌&&◌, List, [], ◌∷◌, length, ltb, ◌==◌, Bool-cases, if◌then◌else◌, arith,
}
use native.Mathlib.Nat.{mul-le-mul_right, mul-pos}
use multi_agent_engine.Pipeline.{Text}
use multi_agent_engine.SpawnDecision.{is_empty}
use multi_agent_engine.SpawnDecision.Paths.{text_eq}
use multi_agent_engine.SpawnDecision.Paths.Covers.{text_eq_refl}
use multi_agent_engine.Replay.{BehavioralFingerprint}
use multi_agent_engine.Replay.Compare.{
  Ratio, ratio, Diff, counts, tools, sequences, as_set, bigrams, alike, jaccard,
  sequence_similarity, scalar, diff, field_checks, match_score, diffs_of, compare_fingerprints,
}
use multi_agent_engine.Replay.Compare.Sets.{
  text_eq_sym, IsDistinct, as_set-IsDistinct, common_sym, common-le, common_self,
}

-- A number from 0 to 1.
abbrev pub IsRating : Ratio → Type 0
IsRating r = (r.part ≤ r.whole) × (0 < r.whole)

alike_sym : (a b : Text) → alike a b ≡ alike b a
alike_sym a b = rw (text_eq_sym a b) refl

jaccard_sym : (xs ys : List Text) → IsDistinct xs → IsDistinct ys → jaccard xs ys ≡ jaccard ys xs
unfolding jaccard
jaccard_sym xs ys d1 d2 =
    let c = common_sym xs ys d1 d2 in
    let s : length xs + length ys ≡ length ys + length xs = omega arith in rw (c, s) refl

jaccard-IsRating : (xs ys : List Text) → IsDistinct xs → IsDistinct ys → IsRating (jaccard xs ys)
unfolding jaccard
jaccard-IsRating xs ys d1 d2 =
    let a = common-le xs ys in
    let b = common-le ys xs in
    let c = common_sym xs ys d1 d2 in (ground (arith, a, b, c), ground (arith, a, b, c))

jaccard_self : (xs : List Text) → IsDistinct xs → (jaccard xs xs).part ≡ (jaccard xs xs).whole
unfolding jaccard
jaccard_self xs d = let c = common_self xs d in ground (arith, c)

and_sym : (a b : Bool) → (a && b) ≡ (b && a)
and_sym a b = ground arith

pick {ℓ κ} : {A : Type ℓ} (P : A → Type κ) (b : Bool) {x y : A} → P x → P y → P (if b then x else y)
pick P true p q = p
pick P false p q = q

set_of : List Text → List Text
set_of xs = as_set (bigrams xs)

alike-IsRating : (a b : Text) → IsRating (alike a b)
alike-IsRating a b =
    pick IsRating (text_eq a b) (omega arith, omega arith) (omega arith, omega arith)

sequence_similarity_sym : (a b : List Text) → sequence_similarity a b ≡ sequence_similarity b a
unfolding sequence_similarity
sequence_similarity_sym [] [] = refl
sequence_similarity_sym [] (b ∷ t) = refl
sequence_similarity_sym (a ∷ s) [] = refl
sequence_similarity_sym (a ∷ s) (b ∷ t) =
    let xs = as_set (bigrams (a ∷ s)) in
    let ys = as_set (bigrams (b ∷ t)) in
    let j =
      jaccard_sym xs ys (as_set-IsDistinct (bigrams (a ∷ s)))
        (as_set-IsDistinct (bigrams (b ∷ t))) in
    rw (and_sym (is_empty s) (is_empty t), and_sym (is_empty xs) (is_empty ys), alike_sym a b, j)
      refl

sequence_similarity-IsRating : (a b : List Text) → IsRating (sequence_similarity a b)
unfolding sequence_similarity
sequence_similarity-IsRating [] [] = (omega arith, omega arith)
sequence_similarity-IsRating [] (b ∷ t) = (omega arith, omega arith)
sequence_similarity-IsRating (a ∷ s) [] = (omega arith, omega arith)
sequence_similarity-IsRating (a ∷ s) (b ∷ t) =
    let xs = as_set (bigrams (a ∷ s)) in
    let ys = as_set (bigrams (b ∷ t)) in
    let j =
      jaccard-IsRating xs ys (as_set-IsDistinct (bigrams (a ∷ s)))
        (as_set-IsDistinct (bigrams (b ∷ t))) in
    pick IsRating (is_empty s && is_empty t) (alike-IsRating a b)
      (pick IsRating (is_empty xs && is_empty ys) (alike-IsRating a b) j)

IsOne : Ratio → Type 0
IsOne r = r.part ≡ r.whole

alike_self : (a : Text) → IsOne (alike a a)
unfolding IsOne
alike_self a = rw (text_eq_refl a) refl

sequence_similarity_self : (a : List Text) → IsOne (sequence_similarity a a)
unfolding sequence_similarity IsOne
sequence_similarity_self [] = refl
sequence_similarity_self (a ∷ s) =
    let xs = as_set (bigrams (a ∷ s)) in
    let j = jaccard_self xs (as_set-IsDistinct (bigrams (a ∷ s))) in
    pick IsOne (is_empty s && is_empty s) (alike_self a)
      (pick IsOne (is_empty xs && is_empty xs) (alike_self a) j)

scalar_sym : (a b : ℕ) → scalar a b ≡ scalar b a
scalar_sym a b = let e : (a == b) ≡ (b == a) = ground arith in rw e refl

abbrev Rated : List (Diff × Ratio) → Type 0
Rated [] = Unit
Rated ((f, r) ∷ rs) = IsRating r × Rated rs

match_score-IsRating :
    (rs : List (Diff × Ratio))
    → Rated rs
    → ((match_score rs).part ≤ (match_score rs).whole * length rs) × (0 < (match_score rs).whole)
unfolding match_score
match_score-IsRating [] t = (omega arith, omega arith)
match_score-IsRating ((f, r) ∷ rs) ((h, p), t) =
    let m = match_score rs in
    let (k, q) = match_score-IsRating rs t in
    let a = mul-le-mul_right m.whole h in
    let b = mul-le-mul_right r.whole k in (omega (arith, a, b), mul-pos p q)

-- The score is full exactly where there is no difference.
Agrees : List (Diff × Ratio) → Type 0
Agrees rs =
    ((match_score rs).part ≡ (match_score rs).whole * length rs) × (diffs_of rs ≡ [])
    ⊎ ((match_score rs).part < (match_score rs).whole * length rs) × (diffs_of rs ≢ [])

cons_nil : {f : Diff} {fs : List Diff} → f ∷ fs ≢ []
cons_nil e = cc e

match_score-Agrees : (rs : List (Diff × Ratio)) → Rated rs → Agrees rs
unfolding match_score diffs_of Agrees
match_score-Agrees [] t = inl (omega arith, refl)
match_score-Agrees ((f, r) ∷ rs) ((h, p), t) =
    let m = match_score rs in
    let (k, q) = match_score-IsRating rs t in
    let b = mul-le-mul_right r.whole k in
    elim (Bool-cases (ltb r.part r.whole)) [
      | inl e ↦
          let l : suc r.part ≤ r.whole = ground (arith, e) in
          let a = mul-le-mul_right m.whole l in inr (omega (arith, a, b, q), rw e (cons_nil))
      | inr e ↦
          let l : r.part ≡ r.whole = ground (arith, e, h) in
          let y = ap (λ n. n * m.whole) l in
          rw e (elim (match_score-Agrees rs t) [
            | inl (s, d) ↦ let z = ap (λ n. n * r.whole) s in inl (omega (arith, y, z), d)
            | inr (s, d) ↦ let c = mul-le-mul_right r.whole s in inr (omega (arith, y, c, p), d)
          ])
    ]

field_checks-Rated : (a b : BehavioralFingerprint) → Rated (field_checks a b)
field_checks-Rated a b =
    let one : (x y : ℕ) → IsRating (scalar x y) =
      λ x y. pick IsRating (x == y) (omega arith, omega arith) (omega arith, omega arith) in
    (
      one a.agent_count b.agent_count,
      (
        one a.step_count b.step_count,
        (
          one a.error_count b.error_count,
          (
            sequence_similarity-IsRating a.tool_sequence b.tool_sequence,
            (
              sequence_similarity-IsRating a.team_sequence b.team_sequence,
              (sequence_similarity-IsRating a.status_transitions b.status_transitions, tt),
            ),
          ),
        ),
      ),
    )

-- The similarity of two fingerprints is a number from 0 to 1, and it is 1 exactly where no difference is
-- reported.
pub compare_fingerprints-IsRating :
    (a b : BehavioralFingerprint)
    → let c = compare_fingerprints a b in
      IsRating c.similarity × ((c.similarity.part ≡ c.similarity.whole) ↔ (c.diffs ≡ []))
unfolding compare_fingerprints Agrees
compare_fingerprints-IsRating a b =
    let rs = field_checks a b in
    let t = field_checks-Rated a b in
    let (k, q) = match_score-IsRating rs t in
    (
      (k, omega (arith, q)),
      elim (match_score-Agrees rs t) [
        | inl (s, d) ↦ (λ _. d, λ _. s)
        | inr (s, d) ↦ (
          λ e.
              let e' : (match_score rs).part ≡ (match_score rs).whole * length rs = e in
              absurd (omega (arith, s, e')),
          λ e. absurd (d e),
        )
      ],
    )

diff-IsOne : (f : Diff) (r : Ratio) → IsOne r → diff f r ≡ []
unfolding IsOne
diff-IsOne f r h = ground (arith, h)

scalar_self : (a : ℕ) → IsOne (scalar a a)
unfolding IsOne
scalar_self a = ground arith

-- The same difference, the other fingerprint first.
abbrev pub swap : Diff → Diff
swap (counts f a b) = counts f b a
swap (tools a b r) = tools b a r
swap (sequences f a b) = sequences f b a

abbrev swap_check : Diff × Ratio → Diff × Ratio
swap_check (d, r) = (swap d, r)

match_score-swap : (cs : List (Diff × Ratio)) → match_score (map swap_check cs) ≡ match_score cs
unfolding match_score
match_score-swap [] = refl
match_score-swap ((d, r) ∷ cs) = rw (match_score-swap cs) refl

diffs_of-swap : (cs : List (Diff × Ratio)) → diffs_of (map swap_check cs) ≡ map swap (diffs_of cs)
unfolding diffs_of
diffs_of-swap [] = refl
diffs_of-swap ((d, r) ∷ cs) = elim (Bool-cases (ltb r.part r.whole)) [
  | inl e ↦ rw e (ap (λ (ds : List Diff). swap d ∷ ds) (diffs_of-swap cs))
  | inr e ↦ rw e (diffs_of-swap cs)
]

field_checks-swap :
    (a b : BehavioralFingerprint) → field_checks b a ≡ map swap_check (field_checks a b)
field_checks-swap a b =
    rw
      (
        scalar_sym a.agent_count b.agent_count,
        scalar_sym a.step_count b.step_count,
        scalar_sym a.error_count b.error_count,
        sequence_similarity_sym a.tool_sequence b.tool_sequence,
        sequence_similarity_sym a.team_sequence b.team_sequence,
        sequence_similarity_sym a.status_transitions b.status_transitions,
      )
      refl

-- Which fingerprint comes first makes no difference to the similarity, and to the differences only that
-- each of them is written the other way round; and a fingerprint compared with itself has none.
pub compare_fingerprints_sym :
    (a b : BehavioralFingerprint)
    → ((compare_fingerprints b a).similarity ≡ (compare_fingerprints a b).similarity)
      × ((compare_fingerprints b a).diffs ≡ map swap (compare_fingerprints a b).diffs)
      × ((compare_fingerprints a a).diffs ≡ [])
unfolding compare_fingerprints
compare_fingerprints_sym a b =
    let cs = field_checks a b in
    let q = field_checks-swap a b in
    (
      ap (λ (m : Ratio). ratio m.part (m.whole * 6)) (ap match_score q ∙ match_score-swap cs),
      ap diffs_of q ∙ diffs_of-swap cs,
      (rw
          (
            diff-IsOne _ _ (scalar_self a.agent_count),
            diff-IsOne _ _ (scalar_self a.step_count),
            diff-IsOne _ _ (scalar_self a.error_count),
            diff-IsOne _ _ (sequence_similarity_self a.tool_sequence),
            diff-IsOne _ _ (sequence_similarity_self a.team_sequence),
            diff-IsOne _ _ (sequence_similarity_self a.status_transitions),
          )
          refl),
    )
