-- ===== src/Pubkey/MemStore/Secret.antt =====
-- src/e4c_pk_store_mem.c: the secret that the device shares with the server.
use libe.Common.{Bool-cases, List, arith, false, inl, inr, refl, take, ℕ, ◌==◌, ◌≡◌, ◌⊎◌}
use libe.Util.{zerocheck}
use libe.Crypto.Sha3.{sha3}
use libe.Protocol.{result_ok}
use libe.Pubkey.Curves.{Curves}
use libe.Pubkey.Client.{e4c_pubkey_c2sharedsecret_derive}
use libe.Pubkey.MemStore.{
  Pubkey, store_derived, get_c2_pubkey, set_c2sharedsecret, e4c_pubkey_c2sharedsecret_derivestore,
  e4c_set_c2_pubkey, set_idseckey, get_idseckey,
}

module _ (keccak_f1600 : List ℕ → List ℕ) (cv : Curves) where
  -- SHA3-256 of the X25519 point of the device's key and the key of the server.
  abbrev pub shared_secret : List ℕ → List ℕ → List ℕ
  shared_secret privkey c2key =
      take 32
        (sha3 keccak_f1600 (cv.curve25519 (cv.xed25519_convert_ed2c_private privkey) c2key) 32)

  -- One of the two keys is not there yet, or the secret of both is stored.
  abbrev pub IsAgreed : Pubkey → Type 0
  IsAgreed s =
      (zerocheck s.privkey ≡ 0)
      ⊎ ((zerocheck s.c2key ≡ 0) ⊎ (s.c2sharedkey ≡ shared_secret s.privkey s.c2key))

  -- With a key of the server there, deriving stores the secret of both keys.
  pub derivestore_lem :
      (s : Pubkey)
      → (zerocheck s.c2key == 0) ≡ false
      → e4c_pubkey_c2sharedsecret_derivestore keccak_f1600 cv s
        ≡ (result_ok, record s { c2sharedkey = shared_secret s.privkey s.c2key })
  unfolding e4c_pubkey_c2sharedsecret_derivestore store_derived get_c2_pubkey get_idseckey
      set_c2sharedsecret e4c_pubkey_c2sharedsecret_derive
  derivestore_lem s there = rw there

  -- Storing a private key keeps the key of the server, and afterwards the shared secret is that of
  -- both keys unless one of them is zero.
  set_idseckey-IsAgreed :
      (s : Pubkey) (key : List ℕ)
      → let (r, s') = set_idseckey keccak_f1600 cv s key in
        (r ≡ result_ok) × (s'.privkey ≡ take 64 key) × (s'.c2key ≡ s.c2key) × IsAgreed s'
  unfolding set_idseckey get_idseckey e4c_pubkey_c2sharedsecret_derive
  set_idseckey-IsAgreed s key =
      let s1 : Pubkey = record s { privkey = take 64 key } in
      elim (Bool-cases (zerocheck s.c2key == 0)) [
        | inl absent ↦ rw absent (refl, refl, refl, inr (inl (ground arith)))
        | inr there ↦ rw there (refl, refl, refl, inr (inr refl))
      ]

  -- Storing a public key of the server keeps the private key, and afterwards the shared secret is that
  -- of both keys unless one of them is zero.
  e4c_set_c2_pubkey-IsAgreed :
      (s : Pubkey) (key : List ℕ)
      → let (r, s') = e4c_set_c2_pubkey keccak_f1600 cv s key in
        (r ≡ result_ok) × (s'.c2key ≡ take 32 key) × (s'.privkey ≡ s.privkey) × IsAgreed s'
  unfolding e4c_set_c2_pubkey get_idseckey e4c_pubkey_c2sharedsecret_derive
  e4c_set_c2_pubkey-IsAgreed s key =
      let s1 : Pubkey = record s { c2key = take 32 key } in
      elim (Bool-cases (zerocheck s.privkey == 0)) [
        | inl absent ↦ rw absent (refl, refl, refl, inl (ground arith))
        | inr there ↦ rw there (elim (Bool-cases (zerocheck s1.c2key == 0)) [
          | inl empty ↦ rw empty (refl, refl, refl, inr (inl (ground arith)))
          | inr full ↦ rw full (refl, refl, refl, inr (inr refl))
        ])
      ]
