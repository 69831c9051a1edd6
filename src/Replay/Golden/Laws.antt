-- ===== src/Replay/Golden/Laws.antt =====
-- engine/replay.ts: what the registry of golden traces holds.
use multi_agent_engine.Common.{
  ◌∙◌, ◌≡◌, refl, ap, inl, inr, ◌⊎◌, Bool, true, false, not, ◌&&◌, Option, none, some, List, [],
  ◌∷◌, ◌++◌, All, Bool-cases,
}
use multi_agent_engine.Pipeline.{Text}
use multi_agent_engine.Replay.{SessionTrace}
use multi_agent_engine.Replay.Golden.{
  Verdict, GoldenEntry, Registry, get_golden_traces, is_of, put_entry, golden_entry,
  add_golden_trace, Refusal, not_loaded, without_force, no_llm_call, no_step_start,
  GoldenValidationSummary, is_fail, llm_call, step_start, summary, validate_trace,
  validate_golden_trace, add_validated_golden_trace,
}

-- The entries after one was put: it stands last, where there was none for its session; and otherwise in
-- the place of the first for its session.
abbrev pub Placed : GoldenEntry → List GoldenEntry → List GoldenEntry → Type 0
Placed e before after =
    (All (λ x. is_of e.session_id x ≡ false) before × (after ≡ before ++ e ∷ []))
    ⊎ ((pre : List GoldenEntry) × (old : GoldenEntry) × (post : List GoldenEntry) × (before
          ≡ pre ++ old ∷ post)
        × All (λ x. is_of e.session_id x ≡ false) pre
        × (is_of e.session_id old ≡ true)
        × (after ≡ pre ++ e ∷ post))

put_entry-Placed : (e : GoldenEntry) (xs : List GoldenEntry) → Placed e xs (put_entry e xs)
unfolding put_entry
put_entry-Placed e [] = inl (tt, refl)
put_entry-Placed e (x ∷ xs) = elim (Bool-cases (is_of e.session_id x)) [
  | inl h ↦ let q : put_entry e (x ∷ xs) ≡ e ∷ xs = rw h refl in inr ([], x, xs, refl, tt, h, q)
  | inr h ↦
      let r : put_entry e (x ∷ xs) ≡ x ∷ put_entry e xs = rw h refl in
      let grow : List GoldenEntry → List GoldenEntry = λ ys. x ∷ ys in
      elim (put_entry-Placed e xs) [
        | inl (a, q) ↦ inl ((h, a), r ∙ ap grow q)
        | inr (pre, old, post, p, a, o, q) ↦
            inr (x ∷ pre, old, post, ap grow p, (h, a), o, r ∙ ap grow q)
      ]
]

validate_golden_trace-cases :
    (found : Option SessionTrace) (id : Text) (verdict : Verdict) (force : Bool)
    → ((why : Refusal) × (validate_golden_trace found id verdict force ≡ inl why))
      ⊎ ((t : SessionTrace) × (found ≡ some t)
          × (validate_golden_trace found id verdict force ≡ inr (summary t id verdict))
          × (llm_call t ≡ true)
          × (step_start t ≡ true)
          × (is_fail verdict && not force ≡ false))
unfolding validate_golden_trace validate_trace
validate_golden_trace-cases none id verdict force = inl (not_loaded, refl)
validate_golden_trace-cases (some t) id verdict force =
    elim (Bool-cases (is_fail verdict && not force)) [
      | inl a ↦ inl (without_force, rw a refl)
      | inr a ↦ elim (Bool-cases (llm_call t)) [
        | inr b ↦ inl (no_llm_call, rw (a, b) refl)
        | inl b ↦ elim (Bool-cases (step_start t)) [
          | inr c ↦ inl (no_step_start, rw (a, b, c) refl)
          | inl c ↦ inr (t, refl, rw (a, b, c) refl, b, c, a)
        ]
      ]
    ]

abbrev pub Promoted :
    (Text → Option SessionTrace)
    → Text
    → Verdict
    → Option Text
    → Bool
    → Registry
    → (Refusal ⊎ GoldenValidationSummary) × Registry
    → Type 0
Promoted load id verdict notes force file (answer, after) =
    ((why : Refusal) × (answer ≡ inl why) × (after ≡ file))
    ⊎ ((t : SessionTrace) × (load id ≡ some t)
        × (answer ≡ inr (summary t id verdict))
        × (llm_call t ≡ true)
        × (step_start t ≡ true)
        × (is_fail verdict && not force ≡ false)
        × (entries : List GoldenEntry) × (after ≡ some entries)
        × Placed (golden_entry load id verdict notes) (get_golden_traces file) entries)

-- Promoting a trace either refuses and leaves the registry as it was; or the trace was loaded, has a call
-- of a model and the start of a step, is not a failure unless forced, and then the entry of this session
-- stands in the place of the first that it had, or last where it had none; all other entries are the
-- ones before, in their order.
pub add_validated_golden_trace-Promoted :
    (load : Text → Option SessionTrace) (id : Text) (verdict : Verdict) (notes : Option Text)
    (force : Bool) (file : Registry)
    → Promoted load id verdict notes force file
        (add_validated_golden_trace load id verdict notes force file)
unfolding add_validated_golden_trace
add_validated_golden_trace-Promoted load id verdict notes force file =
    let run = add_validated_golden_trace load id verdict notes force file in
    elim (validate_golden_trace-cases (load id) id verdict force) [
      | inl (why, e) ↦
          let q : run ≡ (inl why, file) = rw (e, add_validated_golden_trace) refl in
          rw q (inl (why, refl, refl))
      | inr (t, f, e, b, c, a) ↦
          let q : run ≡ (inr (summary t id verdict), add_golden_trace load id verdict notes file) =
            rw (e, add_validated_golden_trace) refl in
          rw q (
            inr (
              t,
              f,
              refl,
              b,
              c,
              a,
              put_entry (golden_entry load id verdict notes) (get_golden_traces file),
              refl,
              put_entry-Placed (golden_entry load id verdict notes) (get_golden_traces file),
            ))
    ]
