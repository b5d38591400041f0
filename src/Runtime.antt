-- ===== src/Runtime.antt =====
-- internal/runtime.
pub mod AddressBook
