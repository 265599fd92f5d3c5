-- ===== src/Lib.antt =====
-- ESP-Container: a verification of the storage core of components/esp_container.
--
-- The program runs signed WebAssembly packages on an ESP32. Packages live in three Flash slots; a
-- 288-byte state blob in NVS says which slot holds the package that is confirmed for each bootable
-- firmware, and how far the one package on its way has got. The parts:
--   * components/esp_container/src/slots.c with include/esp_container_slots.h: the slots and their
--     state machine, over callbacks for the lock, the blob and the Flash. It is modelled here.
--   * components/esp_container/src/package_crypto.c: SHA-256 over the PSA API, which slots.c uses
--     to check what is stored.
--   * components/esp_container/src/slots_idf.c with include/esp_container_slots_idf.h: the callbacks
--     over NVS and a Flash partition of ESP-IDF. It is modelled here.
--   * components/esp_container/src/package_stream.c, package_wasm.c, package_slot.c: the validator
--     that slots.c calls on a written package. To slots.c it is a function; here it is an argument.
--   * components/esp_container/src/wasm_scan.c: the scan of a module before it is loaded. It is
--     modelled here.
--   * components/esp_container/src/runtime.c with runtime_internal.h: an instance of a container over
--     the WAMR interpreter, with its timers, its log and its deadlines. It is modelled here.
--
-- The files:
--   * Common, Common/Tests, Common/Lists, Common/Bytes: tests on numbers, lists and byte strings
--     (all_zero, store_u32, load_u32, memcmp).
--   * Crypto: econtainer_package_digest_start, update, finish, abort over a record of PSA calls.
--   * Slots/Types: the structs and constants of esp_container_slots.h. Slots/Geometry:
--     econtainer_slots_geometry_valid. Slots/Valid: binding_valid, operation_valid, state_valid.
--   * Slots/Codec: encode_state, decode_state, blob_crc32; Codec/Layout has the lengths and the
--     fields of the parts, Codec/RoundTrip the whole blob, Codec/Sized its bytes.
--   * Slots/Io: econtainer_slots_io_t as functions on a world, the result type and its monad;
--     Io/Post: what holds at the end of a computation.
--   * Slots/Flash: flash_relative_read, hash_flash, check_references; Flash/Laws says what the
--     callbacks and the digest are relied on for; Flash/Hash has the proofs.
--   * Slots/Firmware: binding_for_firmware, firmware_set_valid, firmware_set_matches.
--   * Slots/Store: load_locked, persist_locked, commit_next, begin_locked and the lock around an
--     operation; Store/Commit has the proofs.
--   * Slots/Write: the write loop of write_and_prepare and the call of the validator.
--   * Slots/Operations: load, reserve, write_and_prepare, begin_trial, mark_healthy, confirm,
--     abandon. Slots/Boot: initialize and reconcile.
--   * Slots/Steps: the state machine as a relation on states, and what may be committed.
--     Slots/Refine and its children: the operations implement it. Slots/History: any sequence of
--     calls. Slots/Machine: what a step changes. Slots/Progress: the stored state from call to call.
--   * Wasm/Read: read_u32 and read_name of wasm_scan.c. Wasm/Names: the names and capabilities.
--     Wasm/Sections: the walk over the sections with the exports. Wasm/Imports: the imports and
--     import_type_matches. Wasm/Scan: scan_module, econtainer_wasm_check, imported_capabilities,
--     memory_within_limit. Wasm/Bounds has the proofs.
--   * Idf/Types: the ESP-IDF calls as a record, and the structs of esp_container_slots_idf.h.
--     Idf/Names: name_valid. Idf/Provider: range_valid and the provider_ functions. Idf/Bind:
--     econtainer_slots_idf_bind. Idf/Laws: what is relied on of ESP-IDF. Idf/Blob, Idf/Flash and
--     Idf/Provides: the callbacks keep the laws of Slots/Flash/Laws. Idf/Ready: what bind promises.
--   * Runtime/Types: the structs, and the engine as a record. Runtime/Limits: limits_valid.
--     Runtime/Timers: the loops over the timer table. Runtime/Host: monotonic_ms, native_owner,
--     native_monotonic_ms, native_log, native_timer_start, native_timer_cancel. Runtime/Entry:
--     invoke, expire_entry, call_event. Runtime/Calls: claim_call and the calls of the owner.
--     Runtime/Fresh: the runtime that open allocates. Runtime/Abi: module_abi_matches. Runtime/Open:
--     econtainer_runtime_open, release_runtime, econtainer_runtime_close.
--   * Runtime/Steps: what a guest can do to its host, as a relation; Runtime/Guest: it does no
--     more. Runtime/Table, Start, Frame, Framed, Invoke and Ended: what an entry keeps, and how it
--     ends. Runtime/Settled, Effects, Events, Bodies, Poll, Stop and Sequence: what each call keeps,
--     and any sequence of calls. Runtime/Expiry, Delivery, Prompt, Due, Rearm, Handles and Quiet:
--     deadlines, timers, handles and the end. Runtime/Release and Leaks: what open and close hold.
--   * Examples: the callbacks over a device in memory, a run of all steps of one package on it
--     (Examples/Runs), and the theorems on it.
--
-- How the code is read. A world W stands for everything that a callback may read or change, and a
-- callback is a function from W; SlotsIoLaws and PsaLaws (Slots/Flash/Laws) say what is relied on:
-- a blob write replaces the whole blob or nothing, and one that answers true has replaced it; an
-- erase or a write touches its own range only, whatever it answers; a read that succeeds gives the
-- bytes that are there, 288 of them for a blob; the lock, reads and the digest leave blob and Flash
-- alone; a finished digest is that of the bytes it was given. SHA-256 is an argument: equal digests
-- are all that is claimed. A NULL argument has no counterpart. An enum value that the decoder casts
-- from a byte is a number, as are integers, which stay within 32 bits by StateIsSized; sums that
-- the code takes in 64 bits are not cut off. An array of two bindings or three regions is a field
-- for each element. The padding of an operation is zero in the code and absent here.
--
-- ESP-IDF is a record of functions on a world, too; IdfLaws says what is relied on, for handles that
-- are open on the provider's namespace: a value that is set may be stored at once or with the commit,
-- and a commit that answers true has stored it. A guest with its interpreter is a tree: it ends, or
-- calls an imported function and goes on with the answer; budgets, memory and arithmetic are inside
-- the tree, and theorems hold for every tree and every clock. An exception is one of those that
-- runtime.c sets, the one it looks for, or another one. The timer table has its eight elements, of
-- which the loops visit the first max_timers. Milliseconds and handles are numbers; where the code
-- tests for a sum beyond 64 bits, so does the model, and the next handle wraps to 0. The call_active
-- flag is read and set in one step, as the compare-and-exchange does. What open takes from the
-- allocator and from WAMR is one of eight resources, and a loader hands them out and takes them back;
-- a pointer that is not NULL is a true answer for its resource.
--
-- Loops over Flash (hash_flash, write_and_prepare) run on fuel, which is the package's size: a
-- round takes at least one byte, so it does not run out before the end; the proof that all bytes
-- are hashed includes it. The scan of a module runs on fuel too, the module's length, and a section
-- takes at least two bytes. Loops over two bindings or three slots are written out.
--
-- Not modelled: the package parser (package_stream.c), the check of a module in it (package_wasm.c),
-- their use as a validator (package_slot.c) and the signature. The host half of package_crypto.c
-- differs from the device's in its library only.
pub mod Common
pub mod Crypto
pub mod Examples
pub mod Idf
pub mod Runtime
pub mod Slots
pub mod Wasm
