-- ===== src/Symkey.antt =====
-- The symmetric-key variant: src/e4symclient.c over a storage, and its storages
-- src/e4c_store_mem.c and src/e4c_store_file.c.
pub mod Storage
pub mod Client
pub mod Unprotect
pub mod Session
pub mod MemStore
pub mod FileStore
mod FileTests
mod StoreTests
mod Tests
