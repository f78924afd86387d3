-- ===== src/Policy/Resolved.antt =====
-- FromResolved of internal/policy/policy.go: the policy of the request path from the resolved
-- configuration.
use elchi_shield.Prelude.{ℕ, ◌&&◌, [], ltb, ◌==◌, if◌then◌else◌}
use elchi_shield.Prelude.Int.{pos_part}
use elchi_shield.Strings.{Text, lit, text_eq}
use elchi_shield.Config.{ResolvedPolicy}
use elchi_shield.Policy.{
  CompiledChecks, CompiledPolicy, Mode, mode_block, mode_detect, mode_shadow, mode_off, FailMode,
  fail_open, fail_close, compile_checks,
}

-- The modes by their names. The policy only asks whether its mode is "block", "shadow" or "off" and
-- whether its fail mode is "fail_open".
unfoldable pub mode_of : Text → Mode
unfolding text_eq lit
mode_of m =
    if text_eq m (lit "block")
    then mode_block
    else if text_eq m (lit "shadow")
    then mode_shadow
    else if text_eq m (lit "off")
    then mode_off
    else mode_detect

unfoldable pub fail_mode_of : Text → FailMode
unfolding text_eq lit
fail_mode_of m = if text_eq m (lit "fail_open") then fail_open else fail_close

-- The cap of a header's value: that of the policy, where the checks set none.
abbrev with_header_cap : ℕ → CompiledChecks → CompiledChecks
with_header_cap cap checks =
    if checks.max_header_value_bytes == 0 && ltb 0 cap
    then record checks { max_header_value_bytes = cap }
    else checks

-- `FromResolved`. Lengths are not negative: the validation of a policy sees to it.
unfoldable pub from_resolved : {E F : Type 0} → Text → ResolvedPolicy E F → CompiledPolicy
unfolding compile_checks mode_of fail_mode_of
from_resolved id r = record {
  id = id;
  mode = mode_of r.mode;
  fail_mode = fail_mode_of r.fail_mode;
  inspect_request_body = r.inspect_request_body;
  inspect_response_body = r.inspect_response_body;
  max_request_body_bytes = pos_part r.max_request_body_bytes;
  max_response_body_bytes = pos_part r.max_response_body_bytes;
  timeout = pos_part r.timeout;
  anomaly_threshold = r.anomaly_threshold;
  checks = with_header_cap (pos_part r.max_header_bytes) (compile_checks r.checks);
  engines = [];
  request_order = r.request_order;
  response_order = r.response_order;
  skip_checks = r.skip_checks;
}
