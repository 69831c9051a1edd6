-- ===== src/Sandbox.antt =====
-- The pool of sandboxes, engine/sandbox-pool.ts. An agent's id is a text. The HTTP requests that
-- change a sandbox's memory are recorded, newest first; what they do is not part of the pool, and a
-- failure of theirs is only logged.
pub mod Laws
mod Tests
use multi_agent_engine.Common.{
  ℕ, zero, suc, ◌+◌, String, Bool, true, false, Option, none, some, List, [], ◌∷◌, keep, length,
  not, str_eq, if◌then◌else◌,
}

pub record Sandbox : Type 0 where
  pub id : ℕ
  pub vmid : ℕ
  pub subnet : String  -- the address is `subnet`, a point, and `host`
  pub host : ℕ
  pub assigned_to : Option String
  pub active : Bool

pub record SandboxPool : Type 0 where
  pub sandboxes : List Sandbox
  pub has_token : Bool
  pub requests : List (ℕ × ℕ)  -- the vmid and the megabytes

-- The loop of the constructor, from `i`, for `n` more sandboxes.
sandboxes_from : String → ℕ → ℕ → ℕ → List Sandbox
sandboxes_from subnet offset i zero = []
sandboxes_from subnet offset i (suc n) =
    record {
      id = suc i;
      vmid = 800 + suc i;
      subnet = subnet;
      host = offset + i;
      assigned_to = none;
      active = false;
    }
    ∷ sandboxes_from subnet offset (suc i) n

-- The pool size is 4 where the caller does not say.
unfoldable pub new_pool : Bool → String → ℕ → Option ℕ → SandboxPool
unfolding sandboxes_from
new_pool has_token subnet offset none = record {
  sandboxes = sandboxes_from subnet offset 0 4;
  has_token = has_token;
  requests = [];
}
new_pool has_token subnet offset (some size) = record {
  sandboxes = sandboxes_from subnet offset 0 size;
  has_token = has_token;
  requests = [];
}

-- `!sb.assignedTo`: an empty text counts as none.
abbrev pub is_free : Option String → Bool
is_free none = true
is_free (some agent) = str_eq agent ""

abbrev is_assigned : String → Option String → Bool
is_assigned agent none = false
is_assigned agent (some other) = str_eq other agent

-- The first sandbox that passes the test is changed, and given back.
change_first :
    (Option String → Bool) → (Sandbox → Sandbox) → List Sandbox → Option Sandbox × List Sandbox
change_first p f [] = (none, [])
change_first p f (s ∷ ss) =
    let (found, ss') = change_first p f ss in
    if p s.assigned_to then (some (f s), f s ∷ ss) else (found, s ∷ ss')

abbrev set_memory : Bool → ℕ → Option Sandbox → List (ℕ × ℕ) → List (ℕ × ℕ)
set_memory has_token mb none requests = requests
set_memory false mb (some s) requests = requests
set_memory true mb (some s) requests = (s.vmid, mb) ∷ requests

unfoldable pub assign : String → SandboxPool → Option Sandbox × SandboxPool
unfolding change_first
assign agent p =
    let (found, ss) =
      change_first is_free (λ s. record s { assigned_to = some agent; active = true })
        p.sandboxes in
    (found, record p { sandboxes = ss; requests = set_memory p.has_token 4096 found p.requests })

unfoldable pub release : String → SandboxPool → SandboxPool
unfolding change_first
release agent p =
    let (found, ss) =
      change_first (is_assigned agent) (λ s. record s { assigned_to = none; active = false })
        p.sandboxes in
    record p { sandboxes = ss; requests = set_memory p.has_token 512 found p.requests }

find_assigned : String → List Sandbox → Option Sandbox
find_assigned agent [] = none
find_assigned agent (s ∷ ss) =
    let rest = find_assigned agent ss in if is_assigned agent s.assigned_to then some s else rest

unfoldable pub get_assigned : String → SandboxPool → Option Sandbox
unfolding find_assigned
get_assigned agent p = find_assigned agent p.sandboxes

pub record PoolStatus : Type 0 where
  pub total : ℕ
  pub available : ℕ
  pub active : ℕ

abbrev pub is_available : Sandbox → Bool
is_available s = is_free s.assigned_to

abbrev pub is_active : Sandbox → Bool
is_active s = s.active

unfoldable pub status : SandboxPool → PoolStatus
status p = record {
  total = length p.sandboxes;
  available = length (keep is_available p.sandboxes);
  active = length (keep is_active p.sandboxes);
}

pub data Op : Type 0 where
  assigns releases : String → Op

unfoldable pub run : SandboxPool → List Op → SandboxPool
run p [] = p
run p (assigns agent ∷ os) = run (assign agent p).1 os
run p (releases agent ∷ os) = run (release agent p) os
