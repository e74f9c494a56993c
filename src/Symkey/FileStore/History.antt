-- ===== src/Symkey/FileStore/History.antt =====
-- src/e4c_store_file.c: any sequence of the operations that commands call, and the load that
-- follows.
use libe.Common.{
  Bool, List, Option, [], ap, arith, if◌then◌else◌, length, length-take, none, refl, some, take, ℕ,
  ◌∙◌, ◌∷◌, ◌≡◌, ◌≤◌,
}
use mathlib.Core.Path.{fun_ext}
use libe.Protocol.{result_ok}
use libe.Table.Maps.{same_name}
use libe.Disk.{Filed, path_or_default}
use libe.Symkey.MemStore.{Symkey}
use libe.Symkey.MemStore.Keys.{key_of}
use libe.Symkey.FileStore.{
  cleared, remove_topic, reset_topics, set_idkey, set_topic_key, synced, configure_storage, load,
}
use libe.Symkey.FileStore.Roundtrip.{IsSized}
use libe.Symkey.FileStore.Saved.{
  IsSaved, load_saved, remove_topic-IsSaved, reset_topics-IsSaved, set_topic_key-IsSaved,
}
use libe.Common.Memory.{c_string}

-- What a command asks of the storage.
pub data Operation : Type 0 where
  setting : List ℕ → List ℕ → Operation
  removing : List ℕ → Operation
  resetting : Operation
  keying : List ℕ → Operation

-- The specification: a storage is a map from hashes to keys.
abbrev Keys : Type 0
Keys = List ℕ → Option (List ℕ)

unfoldable pub after : Operation → Keys → Keys
after (setting hash key) k other = if same_name hash other then some (take 32 key) else k other
after (removing hash) k other = if same_name hash other then none else k other
after resetting k other = none
after (keying key) k other = k other

unfoldable pub after_all : List Operation → Keys → Keys
after_all [] k = k
after_all (op ∷ ops) k = after_all ops (after op k)

module _ (opens : ℕ → Bool) (accepted : ℕ → ℕ) where
  unfoldable pub apply : Filed Symkey → Operation → Filed Symkey
  apply f (setting hash key) = (set_topic_key opens accepted f hash key).1
  apply f (removing hash) = (remove_topic opens accepted f hash).1
  apply f resetting = (reset_topics opens accepted f).1
  apply f (keying key) = (set_idkey f key).1

  unfoldable pub apply_all : Filed Symkey → List Operation → Filed Symkey
  apply_all f [] = f
  apply_all f (op ∷ ops) = apply_all (apply f op) ops

  -- The operation has arguments of the right sizes and reports OK, or, where it drops the result of
  -- its sync, the sync does.
  abbrev Succeeds : Filed Symkey → Operation → Type 0
  Succeeds f (setting hash key) =
      (16 ≤ length hash)
      × (32 ≤ length key)
      × ((set_topic_key opens accepted f hash key).0 ≡ result_ok)
  Succeeds f (removing hash) = (remove_topic opens accepted f hash).0 ≡ result_ok
  Succeeds f resetting = (synced opens accepted f (cleared f.store)).0 ≡ result_ok
  Succeeds f (keying key) = 32 ≤ length key

  abbrev pub AllSucceed : Filed Symkey → List Operation → Type 0
  AllSucceed f [] = Unit
  AllSucceed f (op ∷ ops) = Succeeds f op × AllSucceed (apply f op) ops

  -- One operation: its effect on the map.
  apply-IsSaved :
      (f : Filed Symkey) (op : Operation)
      → IsSaved f
      → Succeeds f op
      → IsSaved (apply f op)
        × ((other : List ℕ) → key_of (apply f op).store other ≡ after op (key_of f.store) other)
  unfolding apply after set_idkey
  apply-IsSaved f (setting hash key) h (n, m, ok) =
      set_topic_key-IsSaved opens accepted f h.sized h.table hash key n m ok
  apply-IsSaved f (removing hash) h ok =
      remove_topic-IsSaved opens accepted f h.sized h.table hash ok
  apply-IsSaved f resetting h ok = reset_topics-IsSaved opens accepted f h.sized h.table ok
  apply-IsSaved f (keying key) h n = (
    record {
      sized = record {
        id = h.sized.id;
        key = omega (arith, length-take 32 key, n);
        table = h.sized.table;
      };
      table = h.table;
      saved = h.saved;
    },
    λ other. refl,
  )

  apply_all-IsSaved :
      (ops : List Operation) (f : Filed Symkey)
      → IsSaved f
      → AllSucceed f ops
      → IsSaved (apply_all f ops)
        × (key_of (apply_all f ops).store ≡ after_all ops (key_of f.store))
  unfolding apply_all after_all
  apply_all-IsSaved [] f h done = (h, refl)
  apply_all-IsSaved (op ∷ ops) f h (ok, rest) =
      let (saved, step) = apply-IsSaved f op h ok in
      let (end, keys) = apply_all-IsSaved ops (apply f op) saved rest in
      (end, keys ∙ ap (after_all ops) (fun_ext step))

  -- A storage whose file holds its topics goes through any sequence of the operations that commands
  -- call, setting and removing topic keys, resetting the topics and setting the device's key. If each
  -- reports OK, and so do the syncs whose result is dropped, then a storage that loads the file reports
  -- OK and has the topic keys that the specification gives, in which a storage is a map of them and the
  -- device's key is left out.
  pub load-apply_all :
      (keccak_f1600 : List ℕ → List ℕ) (files : List ℕ → Option (List ℕ)) (r : Symkey)
      (path : Option (List ℕ)) (f : Filed Symkey) (ops : List Operation)
      → IsSized r
      → IsSaved f
      → AllSucceed f ops
      → files (c_string (configure_storage r (path_or_default path)).1.filepath)
        ≡ (apply_all f ops).file
      → let (code, r') = load keccak_f1600 files r path in
        (code ≡ result_ok)
        × ((hash : List ℕ) → key_of r' hash ≡ after_all ops (key_of f.store) hash)
  load-apply_all keccak_f1600 files r path f ops w h done same =
      let (saved, keys) = apply_all-IsSaved ops f h done in
      let (code, loaded) = load_saved keccak_f1600 (apply_all f ops) files r path saved w same in
      (code, λ hash. loaded hash ∙ ap (λ (k : Keys). k hash) keys)
