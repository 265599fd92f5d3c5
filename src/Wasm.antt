-- ===== src/Wasm.antt =====
-- components/esp_container/src/wasm_scan.c: the scan of a module before it is loaded.
pub mod Read
pub mod Names
pub mod Sections
pub mod Imports
pub mod Scan
pub mod Bounds
