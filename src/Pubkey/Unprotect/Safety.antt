-- ===== src/Pubkey/Unprotect/Safety.antt =====
-- src/e4pkcclient.c: what a message must be before it is accepted or changes the storage.
use libe.Common.{
  Bool, Bool-cases, List, Option, Option-cases, arith, bit_and, drop, false, inl, inr, length, ltb,
  none, refl, some, some_injective, take, true, ℕ, ◌-◌, ◌==◌, ◌||◌, ◌∙◌, ◌≡◌, ◌≢◌, ◌≤◌, ◌⊎◌,
}
use libe.Common.Int.{ℤ-cases, is_zero, pos, negsuc, ℤ, is_zero_sound}
use libe.Symkey.Client.{chosen, missing, unreadable, Choice}
use libe.Pubkey.Client.{topic_choice}
use libe.Pubkey.Unprotect.{
  check_sender, check_signature, missing_pubkey, control_gate, decrypting, gate, stopped,
  topic_gate, Gate,
}
use libe.Protocol.{result_ok}
use libe.Pubkey.Curves.{Curves}
use libe.Pubkey.Storage.{PkStorage}
use libe.Crypto.Cipher.{Cipher}

module _ (c : Cipher) (cv : Curves) (st : PkStorage) where
  open st use {Store}

  -- The id in the message is that of a device whose public key verifies the signature, or of one
  -- that is not known, which the options let pass.
  abbrev pub Signed : ℕ → Store → List ℕ → ℕ → Type 0
  Signed opts s cptr clen =
      ((i : ℕ) × (pubkey : List ℕ) × (st.getdeviceindex s (take 16 (drop 8 cptr)) ≡ pos i)
        × (st.getdevicekey s (pos i) ≡ some pubkey)
        × (cv.ed25519_verify (take 64 (drop (clen - 64) cptr)) (take (clen - 64) cptr) pubkey ≡ 1))
      ⊎ ((n : ℕ) × (st.getdeviceindex s (take 16 (drop 8 cptr)) ≡ negsuc n) × (bit_and opts 2 ≢ 0))

  check_sender-Signed :
      (opts clen : ℕ) (s : Store) (cptr : List ℕ) (r : ℤ)
      → check_sender c cv st opts s cptr clen ≡ some r
      → is_zero r ≡ true
      → Signed opts s cptr clen
  unfolding check_sender check_signature missing_pubkey
  check_sender-Signed opts clen s cptr r e ok = elim (Bool-cases (ltb (length cptr) 24)) [
    | inl past ↦ cc (rw (past, check_sender) at e)
    | inr named ↦ elim (ℤ-cases (st.getdeviceindex s (take 16 (drop 8 cptr)))) [
      | inl (i, at) ↦ elim (Option-cases (st.getdevicekey s (pos i))) [
        | inl no_key ↦ cc (rw (named, at, no_key, check_sender, check_signature) at e)
        | inr (pubkey, key) ↦
            let signature = take 64 (drop (clen - 64) cptr) in
            let verified = cv.ed25519_verify signature (take (clen - 64) cptr) pubkey in
            elim (Bool-cases (ltb (length cptr) clen)) [
              | inl past ↦ cc (rw (named, at, key, past, check_sender, check_signature) at e)
              | inr whole ↦ elim (Bool-cases (verified == 1)) [
                | inl valid ↦ inl (i, pubkey, at, key, ground arith)
                | inr forged ↦
                    cc (rw (named, at, key, whole, forged, check_sender, check_signature) at e, ok)
              ]
            ]
      ]
      | inr (n, at) ↦ elim (Bool-cases (bit_and opts 2 == 0)) [
        | inl strict ↦ cc (rw (named, at, strict, check_sender) at e, ok)
        | inr lenient ↦ inr (n, at, ground arith)
      ]
    ]
  ]

  -- What the checks before the decryption establish.
  abbrev pub Passed : ℕ → Store → List ℕ → ℕ → List ℕ → Bool → List ℕ → ℕ → ℕ → Type 0
  Passed opts s cptr clen topic control key offset size =
      ((control ≡ true)
        × (is_zero (st.is_device_ctrltopic s topic) ≡ true)
        × (st.get_c2sharedsecret s ≡ (result_ok, key))
        × (24 ≤ clen)
        × (offset ≡ 8)
        × (size ≡ clen - 8))
      ⊎ ((control ≡ false)
          × (is_zero (st.is_device_ctrltopic s topic) ≡ false)
          × ((choice : Bool) × (topic_choice c cv st s topic ≡ chosen choice key))
          × Signed opts s cptr clen
          × (104 ≤ clen)
          × (offset ≡ 24)
          × (size ≡ clen - 24 - 64))

  control_gate-Passed :
      (opts clen : ℕ) (s : Store) (cptr topic : List ℕ) (secret : ℤ × List ℕ) (control : Bool)
      (key : List ℕ) (offset size : ℕ)
      → 24 ≤ clen
      → is_zero (st.is_device_ctrltopic s topic) ≡ true
      → st.get_c2sharedsecret s ≡ secret
      → control_gate c cv st clen secret ≡ some (decrypting control key offset size)
      → Passed opts s cptr clen topic control key offset size
  unfolding control_gate
  control_gate-Passed opts clen s cptr topic (r, own) control key offset size long at_control shared
        e =
      elim (Bool-cases (is_zero r)) [
        | inl ok ↦
            let i : decrypting true own 8 (clen - 8) ≡ decrypting control key offset size =
              some_injective (rw ok at e) in
            let zero_code = is_zero_sound r ok in inl (cc, at_control, cc, long, cc, cc)
        | inr failed ↦ cc (rw failed at e)
      ]

  topic_gate-Passed :
      (opts clen : ℕ) (s : Store) (cptr topic : List ℕ) (sender : Option ℤ) (choice : Choice)
      (control : Bool) (key : List ℕ) (offset size : ℕ)
      → 104 ≤ clen
      → is_zero (st.is_device_ctrltopic s topic) ≡ false
      → check_sender c cv st opts s cptr clen ≡ sender
      → topic_choice c cv st s topic ≡ choice
      → topic_gate c cv st clen sender choice ≡ some (decrypting control key offset size)
      → Passed opts s cptr clen topic control key offset size
  unfolding topic_gate
  topic_gate-Passed opts clen s cptr topic none choice control key offset size long topical from k
        e =
      cc
  topic_gate-Passed opts clen s cptr topic (some r) missing control key offset size long topical
        from k e =
      cc
  topic_gate-Passed opts clen s cptr topic (some r) unreadable control key offset size long topical
        from k e =
      ground arith
  topic_gate-Passed opts clen s cptr topic (some r) (chosen found own) control key offset size long
        topical from k e =
      elim (Bool-cases (is_zero r)) [
        | inl ok ↦
            let i : decrypting false own 24 (clen - 24 - 64) ≡ decrypting control key offset size =
              some_injective (rw ok at e) in
            let same : own ≡ key = cc in
            let signed = check_sender-Signed opts clen s cptr r from ok in
            inr (cc, topical, (found, rw (← same) k), signed, long, cc, cc)
        | inr failed ↦ cc (rw failed at e)
      ]

  pub gate-Passed :
      (opts mmax clen : ℕ) (s : Store) (cptr topic : List ℕ) (control : Bool) (key : List ℕ)
      (offset size : ℕ)
      → gate c cv st opts s mmax cptr clen topic ≡ some (decrypting control key offset size)
      → Passed opts s cptr clen topic control key offset size
  unfolding gate
  gate-Passed opts mmax clen s cptr topic control key offset size e =
      elim (Bool-cases (is_zero (st.is_device_ctrltopic s topic))) [
        | inl at_control ↦ elim (Bool-cases (ltb clen 24 || ltb mmax (clen - 24))) [
          | inl short ↦ cc (rw (at_control, short) at e)
          | inr long ↦
              control_gate-Passed opts clen s cptr topic (st.get_c2sharedsecret s) control key
                offset size (ground arith) at_control refl (rw (at_control, long) at e)
        ]
        | inr topical ↦ elim (Bool-cases (ltb clen 104 || ltb mmax (clen - 104))) [
          | inl short ↦ cc (rw (topical, short) at e)
          | inr long ↦
              topic_gate-Passed opts clen s cptr topic (check_sender c cv st opts s cptr clen)
                (topic_choice c cv st s topic) control key offset size (ground arith) topical refl
                refl (rw (topical, long) at e)
        ]
      ]

  -- What the checks before the decryption refuse, they refuse with another code than OK.
  nonzero : (r : ℤ) → is_zero r ≡ false → r ≢ result_ok
  nonzero r failed ok = cc (ok, failed)

  stopped-injective :
      (code r : ℤ)
      → is_zero code ≡ false
      → ◌≡◌ {A = Option Gate} (some (stopped code)) (some (stopped r))
      → r ≢ result_ok
  stopped-injective code r failed e ok = let same : code ≡ r = cc in nonzero code failed (same ∙ ok)

  control_gate-stopped :
      (clen : ℕ) (secret : ℤ × List ℕ) (r : ℤ)
      → control_gate c cv st clen secret ≡ some (stopped r)
      → r ≢ result_ok
  unfolding control_gate
  control_gate-stopped clen (code, own) r e = elim (Bool-cases (is_zero code)) [
    | inl ok ↦ λ _. cc (rw ok at e)
    | inr failed ↦ stopped-injective code r failed (rw failed at e)
  ]

  topic_gate-stopped :
      (clen : ℕ) (sender : Option ℤ) (choice : Choice) (r : ℤ)
      → topic_gate c cv st clen sender choice ≡ some (stopped r)
      → r ≢ result_ok
  unfolding topic_gate
  topic_gate-stopped clen none choice r e = cc
  topic_gate-stopped clen (some code) missing r e = elim (Bool-cases (is_zero code)) [
    | inl ok ↦ λ good. cc (rw ok at e)
    | inr failed ↦ stopped-injective code r failed (rw failed at e)
  ]
  topic_gate-stopped clen (some code) unreadable r e = elim (Bool-cases (is_zero code)) [
    | inl ok ↦ cc (rw ok at e)
    | inr failed ↦ stopped-injective code r failed (rw failed at e)
  ]
  topic_gate-stopped clen (some code) (chosen control key) r e = elim (Bool-cases (is_zero code)) [
    | inl ok ↦ cc (rw ok at e)
    | inr failed ↦ stopped-injective code r failed (rw failed at e)
  ]

  pub gate-stopped :
      (opts mmax clen : ℕ) (s : Store) (cptr topic : List ℕ) (r : ℤ)
      → gate c cv st opts s mmax cptr clen topic ≡ some (stopped r)
      → r ≢ result_ok
  unfolding gate
  gate-stopped opts mmax clen s cptr topic r e =
      elim (Bool-cases (is_zero (st.is_device_ctrltopic s topic))) [
        | inl at_control ↦ elim (Bool-cases (ltb clen 24 || ltb mmax (clen - 24))) [
          | inl short ↦ λ ok. cc (rw (at_control, short) at e)
          | inr long ↦
              control_gate-stopped clen (st.get_c2sharedsecret s) r (rw (at_control, long) at e)
        ]
        | inr topical ↦ elim (Bool-cases (ltb clen 104 || ltb mmax (clen - 104))) [
          | inl short ↦ λ ok. cc (rw (topical, short) at e)
          | inr long ↦
              topic_gate-stopped clen (check_sender c cv st opts s cptr clen)
                (topic_choice c cv st s topic) r (rw (topical, long) at e)
        ]
      ]
