-- ===== src/Pubkey/FileStore/Agreed.antt =====
-- src/e4c_pk_store_file.c: the secret that a loaded storage shares with the server.
use libe.Common.{
  Bool-cases, List, Option, arith, inl, inr, none, refl, replicate, some, ℕ, ◌==◌, ◌≡◌,
}
use libe.Common.Int.{is_zero}
use libe.Common.Memory.{c_string}
use libe.Protocol.{result_ok}
use libe.Util.{zerocheck}
use libe.Disk.{path_or_default}
use libe.Pubkey.Curves.{Curves}
use libe.Pubkey.MemStore.{Pubkey}
use libe.Pubkey.MemStore.Secret.{IsAgreed, derivestore_lem, shared_secret}
use libe.Pubkey.FileStore.{configure_storage, load, load_content, load_opened, load_secret}

module _ (keccak_f1600 : List ℕ → List ℕ) (cv : Curves) where
  -- Only the shared secret changes, and it fits the keys then.
  pub load_secret-IsAgreed :
      (s : Pubkey)
      → (key : List ℕ) × (load_secret keccak_f1600 cv s ≡ record s { c2sharedkey = key })
        × IsAgreed keccak_f1600 cv (record s { c2sharedkey = key })
  unfolding load_secret
  load_secret-IsAgreed s =
      let cleared : Pubkey = record s { c2sharedkey = replicate 32 0 } in
      elim (Bool-cases (zerocheck s.c2key == 0)) [
        | inl no_key ↦ (replicate 32 0, rw no_key, inr (inl (ground arith)))
        | inr key ↦ elim (Bool-cases (zerocheck s.privkey == 0)) [
          | inl no_privkey ↦ (replicate 32 0, rw (key, no_privkey), inl (ground arith))
          | inr privkey ↦ (
            shared_secret keccak_f1600 cv s.privkey s.c2key,
            rw (key, privkey, derivestore_lem keccak_f1600 cv cleared key),
            inr (inr refl),
          )
        ]
      ]

  opened-IsAgreed :
      (s : Pubkey) (file : Option (List ℕ))
      → (load_opened keccak_f1600 cv s file).0 ≡ result_ok
      → IsAgreed keccak_f1600 cv (load_opened keccak_f1600 cv s file).1
  unfolding load_opened
  opened-IsAgreed s none ok = cc
  opened-IsAgreed s (some file) ok =
      let (r, s') = load_content keccak_f1600 s file in
      elim (Bool-cases (is_zero r)) [
        | inl read ↦ let (key, same, agreed) = load_secret-IsAgreed s' in rw (read, same) agreed
        | inr failed ↦ cc (rw failed at ok, failed)
      ]

  -- Whatever is in the file, a load that reports OK leaves a storage whose shared secret is that of
  -- its private key and the key of the server, unless one of the two is zero.
  pub load-IsAgreed :
      (files : List ℕ → Option (List ℕ)) (s : Pubkey) (path : Option (List ℕ))
      → (load keccak_f1600 cv files s path).0 ≡ result_ok
      → IsAgreed keccak_f1600 cv (load keccak_f1600 cv files s path).1
  unfolding load
  load-IsAgreed files s path ok =
      let s' = (configure_storage s (path_or_default path)).1 in
      opened-IsAgreed s' (files (c_string s'.filepath)) ok
