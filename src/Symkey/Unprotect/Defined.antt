-- ===== src/Symkey/Unprotect/Defined.antt =====
-- src/e4symclient.c: when e4c_symkey_unprotect_message returns.
use libe.Common.{Option, none, some, ◌≡◌}
use libe.Crypto.Cipher.{Cipher}
use libe.Symkey.Storage.{SymStorage}

-- There is a result.
abbrev pub IsDefined {ℓ} : {A : Type ℓ} → Option A → Type ℓ
IsDefined {A} o = (a : A) × (o ≡ some a)

module _ (c : Cipher) (st : SymStorage) where
  open st use {Store}

  -- The storage, if the pointer is not NULL, is in order.
  abbrev pub IsStoreOrNull : Option Store → Type 0
  IsStoreOrNull none = Unit
  IsStoreOrNull (some s) = st.IsStore s
