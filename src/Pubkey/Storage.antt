-- ===== src/Pubkey/Storage.antt =====
-- What src/e4pkcclient.c asks of a storage (include/e4/storage.h). A function that fills a buffer
-- returns it, with the result code if the client looks at it; one that changes the storage
-- returns the result code and the storage.
use libe.Common.{List, Option, length, ℕ, ◌≡◌}
use libe.Common.Int.{ℤ}

pub record PkStorage : Type 1 where
  pub Store : Type 0
  -- what a storage that is in order satisfies
  pub IsStore : Store → Type 0
  pub gettopicindex : Store → List ℕ → ℤ
  -- the key at an index; `none` is an error code, and the buffer is left as it was
  pub gettopickey : Store → ℤ → Option (List ℕ)
  pub is_device_ctrltopic : Store → List ℕ → ℤ
  pub get_id : Store → List ℕ
  pub getdeviceindex : Store → List ℕ → ℤ
  pub getdevicekey : Store → ℤ → Option (List ℕ)
  pub get_c2sharedsecret : Store → ℤ × List ℕ
  -- a pointer into the storage, or NULL
  pub get_idpubkey_cached : Store → Option (List ℕ)
  pub get_idseckey_cached : Store → Option (List ℕ)
  pub get_idpubkey : Store → ℤ × List ℕ
  pub get_idseckey : Store → ℤ × List ℕ
  pub set_idseckey : Store → List ℕ → ℤ × Store
  pub set_topic_key : Store → List ℕ → List ℕ → ℤ × Store
  pub remove_topic : Store → List ℕ → ℤ × Store
  pub reset_topics : Store → ℤ × Store
  pub set_device_key : Store → List ℕ → List ℕ → ℤ × Store
  pub remove_device : Store → List ℕ → ℤ × Store
  pub reset_devices : Store → ℤ × Store
  pub length-get_id : (s : Store) → IsStore s → length (get_id s) ≡ 16
