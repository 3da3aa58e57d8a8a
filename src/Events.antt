-- ===== src/Events.antt =====
-- The parser of a rollout line in scripts/source/events.go, from the line's payload on: the decoding of JSON
-- is outside, `lower` is `strings.ToLower`, and `thread_id_from_path` is the pattern of a rollout's name.
pub mod Laws
pub mod Notices
pub mod Noticed
use Prim.Native.String.{◌++◌}
use codex_auto_retry.Prelude.{
  ℕ, zero, suc, ◌+◌, ◌*◌, ◌/◌, String, Bool, true, false, not, ◌&&◌, ◌||◌, List, [], ◌∷◌, Option,
  none, some, ltb, leb, ◌==◌, if◌then◌else◌, length, Time, second,
}
use codex_auto_retry.Text.{is_blank}
use codex_auto_retry.Model.{RelevantEvent}
use codex_auto_retry.Runner.{trim_string}

-- What `json.Unmarshal` puts into an `any`, `scalar` a number or a Boolean.
mutual
  pub data Value : Type 0 where
    null scalar : Value
    text : String → Value
    array : Values → Value
    object : Members → Value

  pub data Values : Type 0 where
    no_value : Values
    element : Value → Values → Values

  pub data Members : Type 0 where
    no_member : Members
    member : String → Value → Members → Members

-- `updatedAt` is a count of seconds or of milliseconds since 1970, 0 for any that is not positive.
pub record GoalPayload : Type 0 where
  pub thread_id : String
  pub status : String
  pub updated_at : ℕ

-- `none` is a field that is not there.
pub record EventPayload : Type 0 where
  pub kind : String
  pub thread_id : String
  pub turn_id : String
  pub error : Option Value
  pub last_agent_message : Option Value
  pub reason : String
  pub goal : Option GoalPayload

-- `known, present`
abbrev pub completion_message_state : Option Value → Bool × Bool
completion_message_state none = (false, false)
completion_message_state (some null) = (true, false)
completion_message_state (some (text t)) = (true, not (is_blank t))
completion_message_state (some _) = (true, true)

abbrev pub completed : RelevantEvent → Bool × Bool → RelevantEvent
completed event (known, present) = record event { final_known = known; final_present = present }

-- 1 January 1970.
abbrev pub unix_epoch : Time
unix_epoch = 62135596800 * second

unfoldable pub persisted_goal_time : ℕ → Time → Time
persisted_goal_time zero fallback = fallback
persisted_goal_time (suc n) fallback =
    if ltb 10000000000 (suc n)
    then unix_epoch + suc n * (second / 1000)
    else unix_epoch + suc n * second

unfoldable pub find_member : Members → String → Option Value
find_member no_member name = none
find_member (member key value rest) name = if key == name then some value else find_member rest name

abbrev pub max_parts : ℕ
max_parts = 12

abbrev pub error_keys : List String
error_keys = "type" ∷ "code" ∷ "message" ∷ "error" ∷ "detail" ∷ "reason" ∷ []

abbrev pub Collector : Type 0
Collector = Value → List String → List String

abbrev pub each_value : Collector → Values → List String → List String
each_value collect no_value parts = parts
each_value collect (element value rest) parts = each_value collect rest (collect value parts)

abbrev pub collect_found : Collector → Option Value → List String → List String
collect_found collect none parts = parts
collect_found collect (some value) parts = collect value parts

unfoldable pub each_member : Collector → Members → List String → List String → List String
unfolding find_member
each_member collect members [] parts = parts
each_member collect members (key ∷ keys) parts =
    each_member collect members keys (collect_found collect (find_member members key) parts)

abbrev pub append_part : String → List String → List String
append_part t [] = t ∷ []
append_part t (part ∷ parts) = part ∷ append_part t parts

-- The case of a value, where `collect` goes one level deeper.
unfoldable pub collect_value : Collector → Value → List String → List String
unfolding each_member
collect_value collect (text t) parts = if is_blank t then parts else append_part t parts
collect_value collect (array values) parts = each_value collect values parts
collect_value collect (object members) parts = each_member collect members error_keys parts
collect_value collect _ parts = parts

-- `collectErrorStrings`, by the number of levels that are left: the source's depth d is 5 - d here.
unfoldable pub collect_error_strings : ℕ → Value → List String → List String
unfolding collect_value
collect_error_strings zero value parts = parts
collect_error_strings (suc levels) value parts =
    if leb max_parts (length parts)
    then parts
    else collect_value (collect_error_strings levels) value parts

-- `strings.Join(parts, " ")`
abbrev pub join : List String → String
join [] = ""
join (t ∷ []) = t
join (t ∷ rest) = t ++ " " ++ join rest

unfoldable pub extract_error_text : Option Value → String
unfolding collect_error_strings
extract_error_text none = ""
extract_error_text (some null) = ""
extract_error_text (some (text t)) = t
extract_error_text (some value) = join (collect_error_strings 5 value [])

unfoldable pub message_event : Time → EventPayload → RelevantEvent
unfolding extract_error_text
message_event timestamp payload = record {
  kind = payload.kind;
  thread_id = "";
  turn_id = payload.turn_id;
  timestamp = timestamp;
  error_text = extract_error_text payload.error;
  final_known = false;
  final_present = false;
  abort_reason = trim_string payload.reason;
  goal_status = "";
  goal_updated_at = 0;
  parent_thread_id = "";
  recovery_event_id = "";
}

module _ (lower thread_id_from_path : String → String) where
  abbrev normalized : String → String
  normalized id = lower (trim_string id)

  -- The thread of a goal, if its identifier is one.
  abbrev pub goal_thread_id : String → String → Option String
  goal_thread_id own goals =
      let id = if normalized own == "" then normalized goals else normalized own in
      if id == "" || not (thread_id_from_path (id ++ ".jsonl") == id) then none else some id

  abbrev pub with_goal : RelevantEvent → EventPayload → Option GoalPayload → Option RelevantEvent
  with_goal event payload none = none
  with_goal event payload (some goal) =
      if is_blank goal.status
      then none
      else elim (goal_thread_id payload.thread_id goal.thread_id) [
        | none ↦ none
        | some id ↦ some (record event {
          thread_id = id;
          goal_status = trim_string goal.status;
          goal_updated_at = persisted_goal_time goal.updated_at event.timestamp;
        })
      ]

  -- The event of an `event_msg` line with that time.
  unfoldable pub parse_event_message : Time → EventPayload → Option RelevantEvent
  unfolding message_event persisted_goal_time
  parse_event_message timestamp payload =
      let event = message_event timestamp payload in
      if payload.kind == "user_message"
      then some (record event { kind = "task_user_input" })
      else if payload.kind == "task_complete"
      then some (completed event (completion_message_state payload.last_agent_message))
      else if payload.kind == "thread_goal_updated"
      then with_goal event payload payload.goal
      else if payload.kind == "task_started" || payload.kind == "turn_aborted"
      then some event
      else none
