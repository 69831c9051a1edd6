-- ===== src/Certification/Contract.antt =====
-- The contract of a certification and its comparison with the evidence: parseCertContract and
-- checkContractMatchesEvidence of engine/certification-validator.ts. Of `toLowerCase` only the
-- characters matter whose lower case is in ASCII.
use multi_agent_engine.Common.{
  ℕ, zero, suc, ◌+◌, ◌*◌, ◌-◌, Bool, ◌&&◌, Option, none, some, List, [], ◌∷◌, map, length, leb,
  ◌==◌, if◌then◌else◌,
}
use multi_agent_engine.Pipeline.{Text}
use multi_agent_engine.SpawnDecision.Paths.{text_eq, begins_with, trim, is_nil, skip}
use multi_agent_engine.Team.Names.{codes, lower}

-- What `parseInt` gives: no number, or one with its sign.
pub data Number : Type 0 where
  nan : Number
  plus minus : ℕ → Number

pub record ParsedCertContract : Type 0 where
  pub schema_version : Option Number
  pub verdict : Option Text
  pub p0_count : Option Number
  pub p1_count : Option Number
  pub perspectives_covered : Option (List Text)
  pub blockers : Option Text
  pub failed_teams : Option Text
  pub certification_ready : Option Bool

abbrev is_digit : ℕ → Bool
is_digit c = leb b'0' c && leb c b'9'

-- The digits at the start of a text, after some that were read.
abbrev digits : ℕ → Text → ℕ
digits n [] = n
digits n (c ∷ s) = if is_digit c then digits (10 * n + (c - b'0')) s else n

abbrev unsigned : (ℕ → Number) → Text → Number
unsigned f [] = nan
unsigned f (c ∷ s) = if is_digit c then f (digits 0 (c ∷ s)) else nan

-- `parseInt(val, 10)` of a text without space at its start.
unfoldable pub parse_int : Text → Number
parse_int [] = nan
parse_int (c ∷ s) =
    if c == b'-'
    then unsigned minus s
    else if c == b'+'
    then unsigned plus s
    else unsigned plus (c ∷ s)

abbrev next : Option ℕ → Option ℕ
next none = none
next (some i) = some (suc i)

-- `indexOf`
abbrev pub index_of : Text → Text → Option ℕ
index_of t [] = if is_nil t then some 0 else none
index_of t (c ∷ s) =
    let rest = next (index_of t s) in if begins_with (c ∷ s) t then some 0 else rest

abbrev cut_at : ℕ → Text → Text
cut_at zero s = []
cut_at (suc n) [] = []
cut_at (suc n) (c ∷ s) = c ∷ cut_at n s

abbrev in_front : ℕ → List Text → List Text
in_front c [] = (c ∷ []) ∷ []
in_front c (part ∷ parts) = (c ∷ part) ∷ parts

-- `split(sep)`, where the separator is one character.
abbrev pub split_at : ℕ → Text → List Text
split_at sep [] = [] ∷ []
split_at sep (c ∷ s) = let rest = split_at sep s in if c == sep then [] ∷ rest else in_front c rest

abbrev pub contract_start : Text
contract_start = codes "CERTIFICATION_CONTRACT:"

abbrev pub contract_end : Text
contract_end = codes "END_CERTIFICATION_CONTRACT"

-- The switch over the keys.
set_field : Text → Text → ParsedCertContract → ParsedCertContract
set_field key val c =
    if text_eq key (codes "schema_version")
    then record c { schema_version = some (parse_int val) }
    else if text_eq key (codes "verdict")
    then record c { verdict = some val }
    else if text_eq key (codes "p0_count")
    then record c { p0_count = some (parse_int val) }
    else if text_eq key (codes "p1_count")
    then record c { p1_count = some (parse_int val) }
    else if text_eq key (codes "perspectives_covered")
    then record c { perspectives_covered = some (map trim (split_at b',' val)) }
    else if text_eq key (codes "blockers")
    then record c { blockers = some val }
    else if text_eq key (codes "failed_teams")
    then record c { failed_teams = some val }
    else if text_eq key (codes "certification_ready")
    then record c { certification_ready = some (text_eq val (codes "true")) }
    else c

read_line : Text → ParsedCertContract → ParsedCertContract
unfolding set_field
read_line line c = elim (index_of (b':' ∷ []) (trim line)) [
  | none ↦ c
  | some i ↦
      set_field (lower (trim (cut_at i (trim line)))) (lower (trim (skip (suc i) (trim line)))) c
]

read_lines : List Text → ParsedCertContract → ParsedCertContract
unfolding read_line
read_lines [] c = c
read_lines (l ∷ ls) c = read_lines ls (read_line l c)

abbrev empty_contract : ParsedCertContract
empty_contract = record {
  schema_version = none;
  verdict = none;
  p0_count = none;
  p1_count = none;
  perspectives_covered = none;
  blockers = none;
  failed_teams = none;
  certification_ready = none;
}

read_block : Text → ℕ → ℕ → Option ParsedCertContract
unfolding read_lines
read_block content start end =
    let from = start + length contract_start in
    if leb end start
    then none
    else some (read_lines (split_at b'\n' (cut_at (end - from) (skip from content))) empty_contract)

unfoldable pub parse_cert_contract : Text → Option ParsedCertContract
unfolding read_block
parse_cert_contract content = elim (index_of contract_start content) [
  | none ↦ none
  | some start ↦ elim (index_of contract_end content) [
    | none ↦ none
    | some end ↦ read_block content start end
  ]
]
