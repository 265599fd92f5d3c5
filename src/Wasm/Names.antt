-- ===== src/Wasm/Names.antt =====
-- The names that wasm_scan.c compares with.
use esp_container.Common.{ℕ, Bool, ◌||◌, List, [], ◌∷◌, if◌then◌else◌}
use esp_container.Common.Bytes.{bytes_eq}

abbrev post_instantiate : List ℕ
post_instantiate =
    b'_' ∷ b'_' ∷ b'p' ∷ b'o' ∷ b's' ∷ b't' ∷ b'_' ∷ b'i' ∷ b'n' ∷ b's' ∷ b't' ∷ b'a' ∷ b'n' ∷ b't'
    ∷ b'i' ∷ b'a' ∷ b't' ∷ b'e' ∷ []

abbrev call_ctors : List ℕ
call_ctors =
    b'_' ∷ b'_' ∷ b'w' ∷ b'a' ∷ b's' ∷ b'm' ∷ b'_' ∷ b'c' ∷ b'a' ∷ b'l' ∷ b'l' ∷ b'_' ∷ b'c' ∷ b't'
    ∷ b'o' ∷ b'r' ∷ b's' ∷ []

abbrev initialize_name : List ℕ
initialize_name = b'_' ∷ b'i' ∷ b'n' ∷ b'i' ∷ b't' ∷ b'i' ∷ b'a' ∷ b'l' ∷ b'i' ∷ b'z' ∷ b'e' ∷ []

abbrev pub econtainer : List ℕ
econtainer = b'e' ∷ b'c' ∷ b'o' ∷ b'n' ∷ b't' ∷ b'a' ∷ b'i' ∷ b'n' ∷ b'e' ∷ b'r' ∷ []

abbrev monotonic_ms : List ℕ
monotonic_ms =
    b'm' ∷ b'o' ∷ b'n' ∷ b'o' ∷ b't' ∷ b'o' ∷ b'n' ∷ b'i' ∷ b'c' ∷ b'_' ∷ b'm' ∷ b's' ∷ []

abbrev log : List ℕ
log = b'l' ∷ b'o' ∷ b'g' ∷ []

abbrev timer_start : List ℕ
timer_start = b't' ∷ b'i' ∷ b'm' ∷ b'e' ∷ b'r' ∷ b'_' ∷ b's' ∷ b't' ∷ b'a' ∷ b'r' ∷ b't' ∷ []

abbrev pub timer_cancel : List ℕ
timer_cancel =
    b't' ∷ b'i' ∷ b'm' ∷ b'e' ∷ b'r' ∷ b'_' ∷ b'c' ∷ b'a' ∷ b'n' ∷ b'c' ∷ b'e' ∷ b'l' ∷ []

unfoldable pub dangerous_export : List ℕ → Bool
dangerous_export name =
    bytes_eq name post_instantiate || bytes_eq name call_ctors || bytes_eq name initialize_name

-- `ECONTAINER_CAP_MONOTONIC_TIME`, `ECONTAINER_CAP_LOG`, `ECONTAINER_CAP_TIMER`
abbrev pub cap_monotonic_time : ℕ
cap_monotonic_time = 1

abbrev pub cap_log : ℕ
cap_log = 2

abbrev pub cap_timer : ℕ
cap_timer = 4

-- The capability that an imported function needs, 0 for an unknown one.
unfoldable pub capability_of : List ℕ → ℕ
capability_of field =
    if bytes_eq field monotonic_ms
    then cap_monotonic_time
    else if bytes_eq field log
    then cap_log
    else if bytes_eq field timer_start || bytes_eq field timer_cancel
    then cap_timer
    else 0
