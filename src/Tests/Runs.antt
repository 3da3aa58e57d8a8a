-- ===== src/Tests/Runs.antt =====
-- What the code answers on inputs of its own tests: scripts/source/classifier_test.go,
-- recovery_policy_test.go, runner_test.go, memory_guard_test.go and events of daemon_test.go.
use codex_auto_retry.Prelude.{◌*◌, ◌≡◌, refl}
use codex_auto_retry.Model.{class_server, class_none, class_rate_limit}
use codex_auto_retry.Config.{default_config}
use codex_auto_retry.Text.{to_lower, trim_space}
use codex_auto_retry.Classifier.{classify_failure, classify_text, contains_any, classify_by_status}
use codex_auto_retry.Classifier.CcSwitch.{is_cc_switch_upstream_failure}
use codex_auto_retry.Classifier.Status.{extract_status}
use codex_auto_retry.Daemon.Memory.{memory_bytes_to_mb}
use codex_auto_retry.Tests.Data.{no_json}

half_megabyte_rounds_up : memory_bytes_to_mb (512 * 1024) ≡ 1
unfolding memory_bytes_to_mb
half_megabyte_rounds_up = refl

class_of_503 :
    (classify_failure no_json "unexpected status 503 service unavailable"
      default_config).failure_class
    ≡ class_server
unfolding classify_failure classify_text to_lower trim_space contains_any
    is_cc_switch_upstream_failure classify_by_status extract_status
class_of_503 = refl

class_of_429 :
    (classify_failure no_json "HTTP 429 too many requests" default_config).failure_class
    ≡ class_rate_limit
unfolding classify_failure classify_text to_lower trim_space contains_any
    is_cc_switch_upstream_failure classify_by_status extract_status
class_of_429 = refl

class_of_cancel :
    (classify_failure no_json "turn cancelled by user" default_config).failure_class ≡ class_none
unfolding classify_failure classify_text to_lower trim_space contains_any
class_of_cancel = refl
