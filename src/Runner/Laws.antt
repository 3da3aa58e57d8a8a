-- ===== src/Runner/Laws.antt =====
-- What scripts/source/runner.go guarantees of a dispatch result and of a reason.
use codex_auto_retry.Prelude.{
  ◌≡◌, ◌≢◌, ◌⊎◌, Bool, true, false, some, arith, String, ◌≤◌, length, eq_iff,
}
use codex_auto_retry.Text.{codes}
use codex_auto_retry.Runner.{
  DispatchResult, validate_dispatch_result, validate_dispatch_result_for_job, safe_reason_code,
  is_dispatched, is_goal_block, all_reason_runes,
}

-- A validated result is the result itself; a dispatched one has the goal-block action exactly for a
-- goal-block job, and its reason is empty or a safe code.
pub validate_dispatch_result_for_job-fits :
    (for_goal_block : Bool) (r v : DispatchResult)
    → validate_dispatch_result_for_job for_goal_block r ≡ some v
    → (v ≡ r)
      × ((is_dispatched v.outcome ≡ false) ⊎ (is_goal_block v.action ≡ for_goal_block))
      × ((v.reason ≡ "") ⊎ (safe_reason_code v.reason ≢ ""))
unfolding validate_dispatch_result_for_job validate_dispatch_result
validate_dispatch_result_for_job-fits for_goal_block r v h =
    ground (arith, eq_iff v.reason "", eq_iff (safe_reason_code v.reason) "")

-- A reason code is empty, or at most 64 characters that are lower-case letters, digits, `_` or `-`.
pub safe_reason_code-safe :
    (value : String)
    → (safe_reason_code value ≡ "")
      ⊎ ((length (codes (safe_reason_code value)) ≤ 64)
          × (all_reason_runes (codes (safe_reason_code value)) ≡ true))
unfolding safe_reason_code
safe_reason_code-safe value = ground arith
