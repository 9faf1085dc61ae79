-- ===== src/Ops/File/RoundTrip.antt =====
-- A read through the VFS after a write through the VFS, without a server.
use vtfs.Base.{ℕ, ◌+◌, ◌≤◌, ◌<◌, max, ◌≡◌, Bool, true, false, if◌then◌else◌}
use vtfs.Base.Lists.{length, mem}
use vtfs.Base.Strings.{Bytes}
use vtfs.Storage.State.{Ptr, Entry, Store, Env, max_file_size, use_remote_server}
use vtfs.Storage.Tree.{IsTree}
use vtfs.Storage.Search.First.{first, has_ino}
use vtfs.Storage.Contents.File.{IsFile, IsFresh}
use vtfs.Ops.File.{Buffers, FileInode}

-- Buffers that the kernel gives and that can be copied.
abbrev pub fine : Buffers
fine = record { has_memory = true; copied = true }

module _ (env : Env) (s : Store) (p : Ptr) (e : Entry) (inode : FileInode) (bytes : Bytes)
    (offset : ℕ) (append : Bool) (t : IsTree s) (m : mem p s.all_entries ≡ true) (f : IsFile s p e)
    (found : first (has_ino s inode.ino) s.all_entries ≡ p) (fresh : IsFresh env s e)
    (limit : offset + length bytes ≤ max_file_size)
    (fits : (if append then e.size else offset) + length bytes ≤ max_file_size)
    (some_bytes : 0 < length bytes) (alone : use_remote_server env ≡ false) where
  -- where the bytes go
  abbrev start : ℕ
  start = if append then e.size else offset

  -- the kernel's inode when the write returns
  abbrev pub after_write : FileInode
  after_write = record inode {
    size = max e.size (start + length bytes);
    mtime = env.now;
    ctime = env.now;
  }
