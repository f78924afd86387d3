-- ===== src/Transaction.antt =====
-- internal/pipeline/transaction.go: the state of one HTTP transaction. The pooled buffers are their
-- contents (their capacity is not modelled); the shared budget stands in the field `budget` as the
-- call in hand sees it, and a nil budget is `none`; `eng_req` holds its headers as a list.
pub mod Body
pub mod Account
use elchi_shield.Prelude.{
  ℕ, suc, ◌+◌, ◌-◌, Bool, true, false, List, [], ◌∷◌, ◌++◌, Option, none, some, ltb, leb, length,
  take, if◌then◌else◌, ◌||◌, ◌&&◌,
}
use elchi_shield.Prelude.Int.{ℤ, pos, ◌+ℤ◌, ◌-ℤ◌, leb_ℤ}
use elchi_shield.Strings.{Text, equal_fold}
use elchi_shield.Decision.{Decision, continue, severity_none}
use elchi_shield.Engine.{Direction, direction_request, direction_response, Header, Request}
use elchi_shield.Policy.{CompiledPolicy}
use elchi_shield.Policy.Resolver.{Resolver}
use elchi_shield.ExtProc.Budget.{BodyBudget, acquire, release}

-- `runtime.Snapshot` as the request path reads it.
pub record Snapshot : Type 0 where
  pub version : Text
  pub resolver : Option Resolver

pub record Transaction : Type 0 where
  pub request_id : Text
  pub direction : Direction
  pub snapshot : Option Snapshot
  pub listener_id : Text
  pub node_id : Text
  pub host : Text
  pub path : Text
  pub method : Text
  pub content_type : Text
  pub source_ip : Text
  pub headers : List Header
  pub policy : Option CompiledPolicy
  pub body_required : Bool
  pub waf_enabled : Bool
  pub body_truncated : Bool
  pub body_inspected : Bool
  pub request_settled : Bool
  pub body_mutated : Bool
  pub anomaly_score : ℤ
  pub anomaly_denied : Bool
  pub body_reserved : ℤ
  pub budget : Option BodyBudget
  pub body : Text
  pub result : Decision
  pub findings : List Decision
  pub eng_req : Request

-- `Header`: the first value of the named header.
unfoldable pub find_header : List Header → Text → Option Text
unfolding equal_fold
find_header [] name = none
find_header (h ∷ hs) name = if equal_fold h.name name then some h.value else find_header hs name

abbrev pub header : Transaction → Text → Option Text
header tx name = find_header tx.headers name

unfoldable pub count_header : List Header → Text → ℕ
unfolding equal_fold
count_header [] name = 0
count_header (h ∷ hs) name =
    let n = count_header hs name in if equal_fold h.name name then suc n else n

-- `HeaderCount`.
abbrev pub header_count : Transaction → Text → ℕ
header_count tx name = count_header tx.headers name

abbrev is_nonempty : Text → Bool
is_nonempty [] = false
is_nonempty (c ∷ s) = true

-- `AppendBody`: the transaction, the bytes stored, and whether the limit was hit.
unfoldable pub append_body : Transaction → Text → ℕ → Transaction × ℕ × Bool
append_body tx chunk max =
    let remaining = max - length tx.body in
    if leb max (length tx.body)
    then (tx, 0, is_nonempty chunk)
    else if ltb remaining (length chunk)
    then (record tx { body = tx.body ++ take remaining chunk }, remaining, true)
    else (record tx { body = tx.body ++ chunk }, length chunk, false)

-- `MutateBody`.
abbrev pub mutate_body : Transaction → Text → Transaction
mutate_body tx b = record tx { body = b; body_mutated = true }

abbrev int_eq : ℤ → ℤ → Bool
int_eq a b = leb_ℤ a b && leb_ℤ b a

-- `ReserveBody`: whether all of the `n` bytes were granted.
unfoldable pub reserve_body : Transaction → ℤ → Transaction × Bool
unfolding acquire
reserve_body tx n = elim tx.budget [
  | none ↦ (tx, true)
  | some b ↦
      let (got, b') = acquire b n in
      if leb_ℤ n (pos 0)
      then (tx, true)
      else (record tx { budget = some b'; body_reserved = tx.body_reserved +ℤ got }, int_eq got n)
]

abbrev id_of : Option CompiledPolicy → Text
id_of none = []
id_of (some p) = p.id

-- `PolicyID`.
abbrev pub policy_id : Transaction → Text
policy_id tx = id_of tx.policy

-- `BeginResponse`, without the release of the budget.
abbrev pub flipped : Transaction → Transaction
flipped tx = record tx {
  direction = direction_response;
  headers = [];
  content_type = [];
  body = [];
  body_truncated = false;
  body_inspected = false;
  body_mutated = false;
  anomaly_score = pos 0;
  anomaly_denied = false;
  body_required = false;
  waf_enabled = false;
}

unfoldable pub begin_response : Transaction → Transaction
unfolding release
begin_response tx = elim tx.budget [
  | none ↦ flipped tx
  | some b ↦
      if leb_ℤ tx.body_reserved (pos 0)
      then flipped tx
      else record (flipped tx) { budget = some (release b tx.body_reserved); body_reserved = pos 0 }
]

-- `engine.Request{}`.
abbrev pub no_request : Request
no_request = record {
  direction = direction_request;
  host = [];
  path = [];
  method = [];
  content_type = [];
  source_ip = [];
  body = [];
  headers = [];
}

-- `decision.Decision{}`.
abbrev pub no_decision : Decision
no_decision = record {
  action = continue;
  reason = [];
  rule_id = [];
  policy_id = [];
  engine = [];
  severity = severity_none;
  status_code = 0;
}

-- What a new pool entry holds.
unfoldable pub fresh : Transaction
fresh = record {
  request_id = [];
  direction = direction_request;
  snapshot = none;
  listener_id = [];
  node_id = [];
  host = [];
  path = [];
  method = [];
  content_type = [];
  source_ip = [];
  headers = [];
  policy = none;
  body_required = false;
  waf_enabled = false;
  body_truncated = false;
  body_inspected = false;
  request_settled = false;
  body_mutated = false;
  anomaly_score = pos 0;
  anomaly_denied = false;
  body_reserved = pos 0;
  budget = none;
  body = [];
  result = no_decision;
  findings = [];
  eng_req = no_request;
}

-- `Reset`, field by field; the result stays.
unfoldable pub reset : Transaction → Transaction
reset tx = record tx {
  request_id = [];
  direction = direction_request;
  snapshot = none;
  listener_id = [];
  node_id = [];
  host = [];
  path = [];
  method = [];
  content_type = [];
  source_ip = [];
  headers = [];
  policy = none;
  body_required = false;
  waf_enabled = false;
  body_truncated = false;
  body_inspected = false;
  body_mutated = false;
  request_settled = false;
  anomaly_score = pos 0;
  anomaly_denied = false;
  body_reserved = pos 0;
  body = [];
  budget = none;
  findings = [];
  eng_req = no_request;
}
