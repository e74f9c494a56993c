-- ===== src/Pubkey/MemStore/Instance.antt =====
-- src/e4c_pk_store_mem.c as the storage of src/e4pkcclient.c.
use libe.Common.{List, length, ℕ, ◌≡◌}
use libe.Pubkey.Curves.{Curves}
use libe.Pubkey.Storage.{PkStorage}
use libe.Pubkey.MemStore.{
  Pubkey, gettopicindex, gettopickey, is_device_ctrltopic, get_id, getdeviceindex, getdevicekey,
  get_c2sharedsecret, get_idpubkey_cached, get_idseckey_cached, get_idpubkey, get_idseckey,
  set_idseckey, set_topic_key, remove_topic, reset_topics, set_device_key, remove_device,
  reset_devices,
}

module _ (keccak_f1600 : List ℕ → List ℕ) (cv : Curves) where
  pub length-get_id : (s : Pubkey) → length s.id ≡ 16 → length (get_id s) ≡ 16
  unfolding get_id
  length-get_id s n = n

  abbrev pub pk_mem_store : PkStorage
  pk_mem_store = record {
    Store = Pubkey;
    IsStore = λ s. length s.id ≡ 16;
    gettopicindex = gettopicindex keccak_f1600;
    gettopickey = gettopickey;
    is_device_ctrltopic = is_device_ctrltopic keccak_f1600;
    get_id = get_id;
    getdeviceindex = getdeviceindex;
    getdevicekey = getdevicekey;
    get_c2sharedsecret = get_c2sharedsecret;
    get_idpubkey_cached = get_idpubkey_cached;
    get_idseckey_cached = get_idseckey_cached;
    get_idpubkey = get_idpubkey;
    get_idseckey = get_idseckey;
    set_idseckey = set_idseckey keccak_f1600 cv;
    set_topic_key = set_topic_key;
    remove_topic = remove_topic;
    reset_topics = reset_topics;
    set_device_key = set_device_key;
    remove_device = remove_device;
    reset_devices = reset_devices;
    length-get_id = length-get_id;
  }
