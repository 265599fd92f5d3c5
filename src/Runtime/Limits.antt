-- ===== src/Runtime/Limits.antt =====
-- `limits_valid` of runtime.c.
use Prim.Native.Nat.{bit_and}
use esp_container.Common.{ℕ, Bool, not, ◌&&◌, ltb, leb, ◌==◌, if◌then◌else◌}
use esp_container.Wasm.Names.{cap_log, cap_timer}
use esp_container.Runtime.Types.{Limits, timer_capacity}

-- `capabilities & capability`, as a test.
unfoldable pub allows : ℕ → ℕ → Bool
allows capabilities capability = not (bit_and capabilities capability == 0)

-- The complement of ECONTAINER_CAP_ALL in 32 bits.
abbrev unknown_capabilities : ℕ
unknown_capabilities = 0xffff_fff8

unfoldable pub log_limit_valid : Limits → Bool
log_limit_valid l =
    if allows l.allowed_capabilities cap_log
    then ltb 0 l.max_log_bytes && leb l.max_log_bytes 256
    else l.max_log_bytes == 0

unfoldable pub timer_limit_valid : Limits → Bool
timer_limit_valid l =
    if allows l.allowed_capabilities cap_timer
    then ltb 0 l.max_timers && leb l.max_timers timer_capacity && leb 16 l.max_event_bytes
    else l.max_timers == 0

unfoldable pub limits_valid : Limits → Bool
limits_valid l =
    ltb 0 l.max_wasm_bytes
    && ltb 0 l.max_memory_pages
    && ltb 0 l.stack_size_bytes
    && ltb 0 l.heap_size_bytes
    && ltb 0 l.max_event_bytes
    && leb l.max_event_bytes l.heap_size_bytes
    && not (allows l.allowed_capabilities unknown_capabilities)
    && log_limit_valid l
    && timer_limit_valid l
    && ltb 0 l.init_instruction_budget
    && ltb 0 l.event_instruction_budget
    && ltb 0 l.stop_instruction_budget
    && ltb 0 l.max_entry_duration_ms
