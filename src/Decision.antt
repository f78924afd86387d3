-- ===== src/Decision.antt =====
-- internal/decision/decision.go: the outcome of an inspection. Status codes are natural numbers, 0
-- for unset; a score is an integer.
use elchi_shield.Prelude.{ℕ, Bool, true, false, ◌==◌, if◌then◌else◌, []}
use elchi_shield.Prelude.Int.{ℤ, pos}
use elchi_shield.Strings.{Text}

pub data Action : Type 0 where
  continue allow block detect shadow : Action

pub data Severity : Type 0 where
  severity_none severity_info severity_low severity_medium severity_high severity_critical :
      Severity

-- The number behind a severity.
abbrev pub rank : Severity → ℕ
rank severity_none = 0
rank severity_info = 1
rank severity_low = 2
rank severity_medium = 3
rank severity_high = 4
rank severity_critical = 5

abbrev pub default_block_status : ℕ
default_block_status = 403

pub record Decision : Type 0 where
  pub action : Action
  pub reason : Text
  pub rule_id : Text
  pub policy_id : Text
  pub engine : Text
  pub severity : Severity
  pub status_code : ℕ

pub record Verdict : Type 0 where
  pub action : Action
  pub reason : Text
  pub rule_id : Text
  pub engine : Text
  pub severity : Severity
  pub status_code : ℕ
  pub score : ℤ

-- `a == Block`.
abbrev pub blocking : Action → Bool
blocking block = true
blocking _ = false

-- `IsBlock` on a decision that is not nil.
abbrev pub is_block : Decision → Bool
is_block d = blocking d.action

-- `decision.Verdict{}`.
abbrev pub no_verdict : Verdict
no_verdict = record {
  action = continue;
  reason = [];
  rule_id = [];
  engine = [];
  severity = severity_none;
  status_code = 0;
  score = pos 0;
}

unfoldable pub allowed : Text → Decision
allowed policy_id = record {
  action = allow;
  reason = [];
  rule_id = [];
  policy_id = policy_id;
  engine = [];
  severity = severity_none;
  status_code = 0;
}

unfoldable pub blocked : Text → Verdict → Decision
blocked policy_id v = record {
  action = block;
  reason = v.reason;
  rule_id = v.rule_id;
  policy_id = policy_id;
  engine = v.engine;
  severity = v.severity;
  status_code = if v.status_code == 0 then default_block_status else v.status_code;
}
