-- ===== src/Runtime.antt =====
-- components/esp_container/src/runtime.c: the instances of a container over the WAMR interpreter.
pub mod Types
pub mod Limits
pub mod Timers
pub mod Host
pub mod Ended
pub mod Entry
pub mod Calls
pub mod Steps
pub mod Guest
pub mod Table
pub mod Start
pub mod Frame
pub mod Framed
pub mod Invoke
pub mod Settled
pub mod Effects
pub mod Due
pub mod Events
pub mod Rearm
pub mod Bodies
pub mod Poll
pub mod Stop
pub mod Sequence
pub mod Expiry
pub mod Delivery
pub mod Prompt
pub mod Handles
pub mod Quiet
pub mod Fresh
pub mod Abi
pub mod Open
pub mod Release
pub mod Leaks
