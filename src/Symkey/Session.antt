-- ===== src/Symkey/Session.antt =====
-- src/e4symclient.c: a client that receives messages one after another.
use libe.Common.{
  Bool-cases, List, Option, [], ap, arith, drop, get_or, inl, inr, length, length-append,
  length-drop, length-take, ltb, overwrite, refl, some, some_injective, take, true, ℕ, ◌++◌, ◌+◌,
  ◌<◌, ◌==◌, ◌^◌, ◌∷◌, ◌≡◌, ◌≤◌, ◌⊎◌,
}
use mathlib.Core.Path.{subst}
use libe.Common.Int.{ℤ, is_zero}
use libe.Symkey.Client.{Unprotected, refused, opened, run_command}
use libe.Symkey.Storage.{SymStorage}
use libe.Symkey.Unprotect.{e4c_symkey_unprotect_message}
use libe.Symkey.Unprotect.Safety.{Authentic, unprotect-changes-Authentic}
use libe.Crypto.Cipher.{Cipher}

-- A message as it is given to e4c_symkey_unprotect_message: what a buffer is said to hold is there.
pub record Received : Type 0 where
  pub opts : ℕ
  pub now : ℕ
  pub mptr : List ℕ
  pub mmax : ℕ
  pub cptr : List ℕ
  pub clen : ℕ
  pub topic : List ℕ
  pub inside : clen ≤ length cptr
  pub small : length cptr < 2 ^ 64

piece : (v : List ℕ) (n k : ℕ) → n + k ≤ length v → length (take n (drop k v)) ≡ n
piece v n k h = omega (arith, length-take n (drop k v), length-drop k v)

module _ (c : Cipher) (st : SymStorage) where
  open st use {Store}

  unfoldable pub receive : Received → Store → Option (Unprotected Store)
  receive m s =
      e4c_symkey_unprotect_message c st m.opts m.now (some m.mptr) m.mmax (some m.cptr) m.clen
        (some m.topic) (some s)

  -- The storages that a client can get to from one by the messages that it receives, in their
  -- order.
  pub data Session : List Received → Store → Store → Type 0 where
    done : {s : Store} → Session [] s s
    refuses :
        {ms : List Received} {s s' : Store} (m : Received) (r : ℤ)
        → receive m s ≡ some (refused r)
        → Session ms s s'
        → Session (m ∷ ms) s s'
    opens :
        {ms : List Received} {s s' s'' : Store} (m : Received) (r : ℤ) (out : List ℕ) (mlen : ℕ)
        → receive m s ≡ some (opened r out mlen s')
        → Session ms s' s''
        → Session (m ∷ ms) s s''

  -- The messages up to one leave the storage as it is; that one is authentic under the device's key,
  -- in time and for its control topic, and the command in it leaves the storage that the messages
  -- after it start from.
  abbrev pub Commanded : List Received → Store → Store → Type 0
  Commanded ms s s' =
      (before : List Received) × (m : Received) × (after : List Received) × (ms
        ≡ before ++ m ∷ after)
      × Session before s s
      × ((message : List ℕ) × (code : ℤ) × (s1 : Store) × (is_zero
              (st.is_device_ctrltopic s m.topic)
            ≡ true)
          × Authentic c st m.opts m.now s m.cptr m.clen m.topic true (st.get_idkey s) message
          × (run_command c st s (overwrite message m.mptr) (length message) ≡ some (code, s1))
          × Session after s1 s')

  later :
      {ms : List Received} {s s' : Store} (m : Received)
      → ((before : List Received) → Session before s s → Session (m ∷ before) s s)
      → (s' ≡ s) ⊎ Commanded ms s s'
      → (s' ≡ s) ⊎ Commanded (m ∷ ms) s s'
  later m step (inl same) = inl same
  later m step (inr (before, m', after, split, unchanged, rest)) =
      inr (m ∷ before, m', after, ap (◌∷◌ m) split, step before unchanged, rest)

  -- Whatever messages a client receives, its storage is as it was at the start, or one of them was
  -- received while it was, is authentic under the key that the device had then, in time, and for its
  -- control topic, and the storage is the one that the command in it and the messages behind
  -- it leave.
  pub Session-Authentic :
      {ms : List Received} {s s' : Store} → Session ms s s' → (s' ≡ s) ⊎ Commanded ms s s'
  unfolding receive
  Session-Authentic done = inl refl
  Session-Authentic (refuses m r e rest) =
      later m (λ before unchanged. refuses m r e unchanged) (Session-Authentic rest)
  Session-Authentic {s} {s'} (opens {ms} {s' = s1} m r out mlen e rest) =
      elim (unprotect-changes-Authentic c st m.opts m.now m.mmax m.clen m.mptr m.cptr m.topic s
        m.inside m.small r out mlen s1 e) [
          | inl same ↦
              later m (λ before unchanged. opens m r out mlen (rw same at e) unchanged)
                (rw (← same) (Session-Authentic rest))
          | inr (message, code, control, auth, front, count, ran, _) ↦ inr (
            [],
            m,
            ms,
            refl,
            done,
            (message, code, s1, control, auth, rw (front, count) at ran, rest),
          )
        ]

  -- The storage that a command leaves is one of those that the laws speak of.
  ended-IsStore :
      (p : ℤ × Store) (code : ℤ) (s' : Store)
      → some p ≡ some (code, s')
      → st.IsStore p.1
      → st.IsStore s'
  ended-IsStore p code s' e ok = subst (λ (q : ℤ × Store). st.IsStore q.1) (some_injective e) ok

  run_command-IsStore :
      (s : Store) (mptr : List ℕ) (mlen : ℕ) (code : ℤ) (s' : Store)
      → mlen ≤ length mptr
      → st.IsStore s
      → run_command c st s mptr mlen ≡ some (code, s')
      → st.IsStore s'
  unfolding run_command
  run_command-IsStore s mptr mlen code s' h v e =
      let op = get_or mptr 0 0 in
      elim (Bool-cases (mlen == 0)) [
        | inl empty ↦ ended-IsStore _ code s' (rw empty at e) v
        | inr some_bytes ↦ elim (Bool-cases (op == 0)) [
          | inl remove ↦ elim (Bool-cases (ltb (length mptr) 17)) [
            | inl short ↦ cc (rw (some_bytes, remove, short) at e)
            | inr long ↦
                ended-IsStore _ code s' (rw (some_bytes, remove, long) at e)
                  (st.remove_topic-IsStore s _ (piece mptr 16 1 (ground arith)) v)
          ]
          | inr not_remove ↦ elim (Bool-cases (op == 1)) [
            | inl reset ↦ elim (Bool-cases (mlen == 1)) [
              | inl one ↦
                  ended-IsStore _ code s' (rw (some_bytes, not_remove, reset, one) at e)
                    (st.reset_topics-IsStore s v)
              | inr more ↦ ended-IsStore _ code s' (rw (some_bytes, not_remove, reset, more) at e) v
            ]
            | inr not_reset ↦ elim (Bool-cases (op == 2)) [
              | inl set_key ↦ elim (Bool-cases (mlen == 33)) [
                | inl sized ↦
                    ended-IsStore _ code s'
                      (rw (some_bytes, not_remove, not_reset, set_key, sized) at e)
                      (st.set_idkey-IsStore s _ (piece mptr 32 1 (ground arith)) v)
                | inr other ↦
                    ended-IsStore _ code s'
                      (rw (some_bytes, not_remove, not_reset, set_key, other) at e) v
              ]
              | inr not_key ↦ elim (Bool-cases (op == 3)) [
                | inl set_topic ↦ elim (Bool-cases (mlen == 49)) [
                  | inl sized ↦
                      ended-IsStore _ code s'
                        (rw (some_bytes, not_remove, not_reset, not_key, set_topic, sized) at e)
                        (st.set_topic_key-IsStore s _ _ (piece mptr 16 33 (ground arith))
                          (piece mptr 32 1 (ground arith)) v)
                  | inr other ↦
                      ended-IsStore _ code s'
                        (rw (some_bytes, not_remove, not_reset, not_key, set_topic, other) at e) v
                ]
                | inr unknown ↦
                    ended-IsStore _ code s'
                      (rw (some_bytes, not_remove, not_reset, not_key, unknown) at e) v
              ]
            ]
          ]
        ]
      ]

  -- Whatever messages a client receives, a storage that is in order stays in order.
  pub Session-IsStore :
      {ms : List Received} {s s' : Store} → Session ms s s' → st.IsStore s → st.IsStore s'
  unfolding receive
  Session-IsStore done v = v
  Session-IsStore (refuses m r e rest) v = Session-IsStore rest v
  Session-IsStore {s} {s'} (opens {s' = s1} m r out mlen e rest) v =
      Session-IsStore rest
        (elim (unprotect-changes-Authentic c st m.opts m.now m.mmax m.clen m.mptr m.cptr m.topic s
          m.inside m.small r out mlen s1 e) [
            | inl same ↦ rw same v
            | inr (message, code, _, _, front, count, ran, _) ↦
                let n : mlen ≤ length out =
                  rw (front, count)
                    (omega (arith, length-append message (drop (length message) m.mptr))) in
                run_command-IsStore s out mlen code s1 n v ran
          ])
