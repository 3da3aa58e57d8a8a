-- ===== src/Classifier/Laws.antt =====
-- What the classification of scripts/source/classifier.go promises to the retry state machine.
use codex_auto_retry.Prelude.{ℕ, ◌≡◌, ◌≢◌, if◌then◌else◌, true, false, not, Option, arith, String}
use codex_auto_retry.Text.{Text, is_blank, codes, to_lower, trim_space}
use codex_auto_retry.Model.{RelevantEvent, RetryDecision, class_none, class_empty_response}
use codex_auto_retry.Config.{Config}
use codex_auto_retry.Policy.{class_ceiling, retry_limits, retry_limits_for_decision}
use codex_auto_retry.Classifier.{
  classify_by_words, classify_by_status, classify_text, classify_failure,
  classify_completion_failure, completion_succeeded, contains_any, cancellations,
}
use codex_auto_retry.Classifier.Status.{extract_status}
use codex_auto_retry.Classifier.CcSwitch.{Json}

-- A decision carries its class's ceiling and nothing else, and refuses exactly the class `none`.
pub record IsClassified (config : Config) (d : RetryDecision) : Type 0 where
  pub ceiling : d.max_attempts ≡ class_ceiling d.failure_class config
  pub no_consecutive : d.max_consecutive ≡ 0
  pub retried : d.retry ≡ true → d.failure_class ≢ class_none
  pub refused : d.retry ≡ false → d.failure_class ≡ class_none

classify_by_words-IsClassified :
    (t : Text) (status : ℕ) (config : Config)
    → IsClassified config (classify_by_words t status config)
unfolding classify_by_words
classify_by_words-IsClassified t status config = ground arith

classify_by_status-IsClassified :
    (t : Text) (status : ℕ) (config : Config)
    → IsClassified config (classify_by_status t status config)
unfolding classify_by_status
classify_by_status-IsClassified t status config =
    ground (arith, classify_by_words-IsClassified t status config)

module _ (decode : Text → Option Json) (config : Config) where
  classify_text-IsClassified : (t : Text) → IsClassified config (classify_text decode t config)
  unfolding classify_text
  classify_text-IsClassified t =
      ground (arith, classify_by_status-IsClassified t (extract_status t) config)

  -- Every completion gets a decision that carries exactly the ceiling of its class, no consecutive
  -- ceiling of its own, and is a refusal exactly if its class is `none`.
  pub classify_completion_failure-IsClassified :
      (event : RelevantEvent)
      → IsClassified config (classify_completion_failure decode event config)
  unfolding classify_completion_failure classify_failure
  classify_completion_failure-IsClassified event =
      ground (arith, classify_text-IsClassified (to_lower (trim_space (codes event.error_text))))

  -- The limits computed when a failure is scheduled are the limits that a reload of the same
  -- configuration recomputes from the failure's class alone.
  pub retry_limits-agree :
      (event : RelevantEvent)
      → let d = classify_completion_failure decode event config in
        retry_limits_for_decision d config ≡ retry_limits d.failure_class config
  unfolding retry_limits_for_decision retry_limits
  retry_limits-agree event = ground (arith, classify_completion_failure-IsClassified event)

  -- A completion without an error text is retried exactly if it does not count as successful, and then as
  -- an empty response.
  pub completion_succeeded-decision :
      (event : RelevantEvent)
      → is_blank event.error_text ≡ true
      → let d = classify_completion_failure decode event config in
        (d.retry ≡ not (completion_succeeded event))
        × (d.failure_class
            ≡ (if completion_succeeded event then class_none else class_empty_response))
  unfolding completion_succeeded classify_completion_failure
  completion_succeeded-decision event blank = ground (arith, blank)

  -- A text that names a cancellation by the user is never retried, whatever else it says.
  pub cancellation_refused :
      (error_text : String)
      → contains_any (to_lower (trim_space (codes error_text))) cancellations ≡ true
      → (classify_failure decode error_text config).retry ≡ false
  unfolding classify_failure classify_text
  cancellation_refused error_text h = ground arith
