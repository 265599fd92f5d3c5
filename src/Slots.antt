-- ===== src/Slots.antt =====
-- components/esp_container/src/slots.c and include/esp_container_slots.h: three package slots in
-- Flash, one state blob in NVS, and the operations that move a package from reservation to
-- confirmation.
pub mod Types
pub mod Geometry
pub mod Valid
pub mod Codec
pub mod Io
pub mod Flash
pub mod Firmware
pub mod Store
pub mod Write
pub mod Operations
pub mod Boot
pub mod Steps
pub mod Refine
pub mod History
pub mod Progress
pub mod Machine
