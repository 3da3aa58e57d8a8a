-- ===== src/Daemon/Memory.antt =====
-- The memory limits: `checkSharedAppServerMemory`, `recordMemorySample` and `handleMemoryLimit` of
-- scripts/source/daemon.go, and `memoryBytesToMB` of memory_guard.go. Sizes are Go's `uint64`.
use codex_auto_retry.Prelude.{
  ℕ, ◌+◌, ◌-◌, ◌*◌, ◌/◌, ◌%◌, ◌^◌, Bool, true, not, ◌&&◌, ◌||◌, ltb, eqb, if◌then◌else◌, Time,
  second, is_zero,
}
use codex_auto_retry.Daemon.{Daemon}
use codex_auto_retry.Daemon.Controller.{FailOpen, fail_open_shared_backend, set_controller_state}

abbrev pub memory_check_interval : ℕ
memory_check_interval = 5 * second

abbrev pub uint64 : ℕ → ℕ
uint64 n = n % 2 ^ 64

unfoldable pub memory_bytes_to_mb : ℕ → ℕ
memory_bytes_to_mb bytes =
    if eqb bytes 0 then 0 else uint64 (bytes + 1024 * 1024 - 1) / (1024 * 1024)

-- The answer of `SharedBackendMemory`.
pub data MemoryReading : Type 0 where
  no_reader unreadable : MemoryReading
  sample : ℕ → MemoryReading

unfoldable pub skips_memory_check : Time → Daemon → Bool
skips_memory_check now d =
    not d.config.shared_app_server_enabled
    || d.shared_memory_guard_triggered
    || (not (is_zero d.last_shared_memory_check)
        && ltb (now - d.last_shared_memory_check) memory_check_interval)

-- The first locked part.
unfoldable pub note_memory_check : Time → Daemon → Daemon
note_memory_check now d = record d { last_shared_memory_check = now }

abbrev pub limit_bytes : ℕ → ℕ
limit_bytes limit_mb = uint64 (limit_mb * 1024 * 1024)

abbrev pub is_within_limit : ℕ → ℕ → Daemon → Bool
is_within_limit limit_mb bytes d =
    ltb bytes (limit_bytes limit_mb) || d.shared_memory_guard_triggered

-- The second locked part; the guard stays triggered.
unfoldable pub note_memory_sample : ℕ → ℕ → Daemon → Daemon
note_memory_sample limit_mb bytes d =
    let noted = record d { shared_memory_bytes = bytes } in
    if is_within_limit limit_mb bytes d then noted else record noted {
      shared_memory_guard_triggered = true;
      controller_state = "shared_app_server_memory_limit_exceeded";
      last_error = "shared_app_server_memory_limit_exceeded";
    }

unfoldable pub apply_memory_sample : ℕ → ℕ → FailOpen → Daemon → Daemon
unfolding note_memory_sample set_controller_state
apply_memory_sample limit_mb bytes result d =
    let noted = note_memory_sample limit_mb bytes d in
    if is_within_limit limit_mb bytes d
    then noted
    else set_controller_state
        (fail_open_shared_backend result "shared_app_server_memory_limit_exceeded") noted

-- `checkSharedAppServerMemory`
unfoldable pub check_shared_memory : Time → MemoryReading → FailOpen → Daemon → Daemon
unfolding note_memory_check apply_memory_sample
check_shared_memory now no_reader result d =
    if skips_memory_check now d then d else note_memory_check now d
check_shared_memory now unreadable result d =
    if skips_memory_check now d then d else note_memory_check now d
check_shared_memory now (sample bytes) result d =
    let limit_mb = d.config.shared_app_server_memory_limit_mb in
    let noted = note_memory_check now d in
    if skips_memory_check now d
    then d
    else if eqb limit_mb 0
    then noted
    else apply_memory_sample limit_mb bytes result noted

unfoldable pub record_memory_sample : ℕ → Daemon → Daemon
record_memory_sample bytes d = record d { memory_usage_bytes = bytes }

-- `written` tells whether the status file could be written.
unfoldable pub handle_memory_limit : Bool → ℕ → Daemon → Daemon
unfolding record_memory_sample
handle_memory_limit written bytes d =
    let sampled = record_memory_sample bytes d in
    if d.memory_guard_triggered then sampled else record sampled {
      memory_guard_triggered = true;
      controller_state = "memory_limit_exceeded";
      last_error = "memory_limit_exceeded";
      status_write_deferred = not written;
    }
