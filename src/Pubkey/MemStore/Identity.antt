-- ===== src/Pubkey/MemStore/Identity.antt =====
-- src/e4c_pk_store_mem.c: the id of a device and its control topic.
use libe.Common.{List, ap, arith, refl, replicate, take, ℕ, ◌++◌, ◌≡◌}
use libe.Common.Int.{pos, ℤ}
use libe.Common.Memory.{c_string, memcmp_self}
use libe.Protocol.{result_ok}
use libe.Util.{e4c_derive_control_topic}
use libe.Util.Hex.{hex}
use libe.Util.Names.{prefix, c_string-e4c_derive_control_topic, e4c_derive_topichash_lem}
use libe.Pubkey.MemStore.{Pubkey, set_id, set_id_topic, is_device_ctrltopic}

module _ (keccak_f1600 : List ℕ → List ℕ) where
  -- Setting the id of a device reports OK and stores its first 16 bytes, and from then on the
  -- device takes a topic for its control topic if it is "e4/" with the id in hexadecimal.
  set_id-pk_is_device_ctrltopic :
      (s : Pubkey) (id topic : List ℕ)
      → c_string topic ≡ prefix ++ hex (take 16 id)
      → let (r, s') = set_id keccak_f1600 s id in
        (r ≡ result_ok) × (s'.id ≡ take 16 id) × (is_device_ctrltopic keccak_f1600 s' topic ≡ pos 0)
  unfolding set_id set_id_topic is_device_ctrltopic
  set_id-pk_is_device_ctrltopic s id topic e =
      let control = e4c_derive_control_topic (replicate 36 0) 36 id in
      let named = c_string-e4c_derive_control_topic (replicate 36 0) 36 id (omega arith) in
      let derived : control ≡ (result_ok, control.1) = ap (λ (r : ℤ). (r, control.1)) named.0 in
      rw
        (
          derived,
          e4c_derive_topichash_lem keccak_f1600 control.1,
          e4c_derive_topichash_lem keccak_f1600 topic,
          named.1,
          e,
        )
        (refl, refl, memcmp_self _)
