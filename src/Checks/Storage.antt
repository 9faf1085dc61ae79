-- ===== src/Checks/Storage.antt =====
-- A small file system: a directory and a file, made by the storage's own operations.
use vtfs.Base.{◌≡◌, refl, Option, none, some, false, []}
use vtfs.Base.Int.{ℤ, pos, negsuc}
use vtfs.Base.Strings.{Bytes, codes, clip}
use vtfs.Storage.State.{
  Ptr, Store, Env, Cmd, pure, ◌>>=◌, ◌>>◌, dir_mode, file_mode, change, free_entry_at,
}
use vtfs.Storage.Path.{build_path}
use vtfs.Storage.Search.{vtfs_storage_lookup}
use vtfs.Storage.Create.{
  vtfs_storage_init, vtfs_storage_create_entry, create_entry_internal, link_entry, announce,
  choose_ino,
}
use vtfs.Storage.Remove.{vtfs_storage_delete_entry, unlink_entry, drop_links, discard}
use vtfs.Storage.Contents.{vtfs_storage_read, vtfs_storage_write, reserve, fill}

abbrev env : Ptr → Ptr → Env
env e b = record {
  new_entry = e;
  new_block = b;
  uninit = λ i. 165;
  now = 7;
  server_url = codes "http://127.0.0.1:8080";
}

abbrev zeroed : Store
zeroed = record {
  entry = λ p. none;
  block = λ p. none;
  root = 0;
  all_entries = [];
  next_ino = 0;
  locked = false;
  sent = [];
}

-- The value of a run that ends without a fault.
abbrev result : {A : Type 0} → Option (A × Store) → Option A
result none = none
result (some (a, s)) = some a

script : Cmd (ℤ × Bytes × ℤ × ℤ × Bytes)
unfolding vtfs_storage_init vtfs_storage_create_entry vtfs_storage_write vtfs_storage_read
    vtfs_storage_delete_entry build_path
script = do
  vtfs_storage_init (env 1 0)
  d ← vtfs_storage_create_entry (env 2 0) 1 (codes "dir") dir_mode 0
  f ← vtfs_storage_create_entry (env 3 0) d (codes "file") file_mode 0
  n ← vtfs_storage_write (env 0 9) f (codes "hello") 0
  r ← vtfs_storage_read (env 0 0) f 10 1
  busy ← vtfs_storage_delete_entry (env 0 0) d
  gone ← vtfs_storage_delete_entry (env 0 0) f
  path ← build_path d 512
  pure (n, r.1, busy, gone, path)

result-script : result (script zeroed) ≡ some (pos 5, codes "ello", negsuc 38, pos 0, codes "/dir")
unfolding script change choose_ino create_entry_internal vtfs_storage_lookup link_entry announce
    clip reserve fill unlink_entry drop_links discard free_entry_at
result-script = refl
