-- ===== src/Pubkey/FileStore/Instance.antt =====
-- src/e4c_pk_store_file.c as the storage of src/e4pkcclient.c.
use libe.Common.{Bool, List, length, ℕ, ◌≡◌}
use libe.Disk.{Filed}
use libe.Pubkey.Curves.{Curves}
use libe.Pubkey.Storage.{PkStorage}
use libe.Pubkey.MemStore.{Pubkey}
use libe.Pubkey.FileStore.Operations.{
  get_c2sharedsecret, get_id, get_idpubkey, get_idpubkey_cached, get_idseckey, get_idseckey_cached,
  getdeviceindex, getdevicekey, gettopicindex, gettopickey, is_device_ctrltopic, remove_device,
  remove_topic, reset_devices, reset_topics, set_device_key, set_idseckey, set_topic_key,
}

length-get_id_filed : (f : Filed Pubkey) → length f.store.id ≡ 16 → length (get_id f) ≡ 16
unfolding get_id
length-get_id_filed f n = n

module _ (keccak_f1600 : List ℕ → List ℕ) (cv : Curves) (opens : ℕ → Bool) (accepted : ℕ → ℕ) where
  abbrev pk_file_store : PkStorage
  pk_file_store = record {
    Store = Filed Pubkey;
    IsStore = λ f. length f.store.id ≡ 16;
    gettopicindex = gettopicindex keccak_f1600;
    gettopickey = gettopickey;
    is_device_ctrltopic = is_device_ctrltopic keccak_f1600;
    get_id = get_id;
    getdeviceindex = getdeviceindex;
    getdevicekey = getdevicekey;
    get_c2sharedsecret = get_c2sharedsecret;
    get_idpubkey_cached = get_idpubkey_cached;
    get_idseckey_cached = get_idseckey_cached;
    get_idpubkey = get_idpubkey;
    get_idseckey = get_idseckey;
    set_idseckey = set_idseckey opens accepted keccak_f1600 cv;
    set_topic_key = set_topic_key opens accepted;
    remove_topic = remove_topic opens accepted;
    reset_topics = reset_topics opens accepted;
    set_device_key = set_device_key opens accepted;
    remove_device = remove_device opens accepted;
    reset_devices = reset_devices opens accepted;
    length-get_id = length-get_id_filed;
  }
