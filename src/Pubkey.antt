-- ===== src/Pubkey.antt =====
-- The public-key variant: src/e4pkcclient.c and src/e4c_pk_store_mem.c.
pub mod Curves
pub mod Storage
pub mod Client
pub mod Unprotect
pub mod MemStore
pub mod FileStore
mod Clients
mod MessageTests
mod StoreTests
mod FileTests
