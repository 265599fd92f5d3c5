-- ===== src/Idf.antt =====
-- components/esp_container/src/slots_idf.c: the callbacks of slots.c over NVS and a Flash partition.
pub mod Names
pub mod Types
pub mod Provider
pub mod Bind
pub mod Laws
pub mod Blob
pub mod Flash
pub mod Provides
pub mod Ready
