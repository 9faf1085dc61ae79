-- ===== src/Ops/File.antt =====
-- `vtfs_read` and `vtfs_write`, module/file_ops.c. The kernel's buffers are given: whether `kmalloc` has
-- memory, and whether the copy from or to the user succeeds. A read from the server is
-- `vtfs_http_read` of Http/Remote, with what the client has to ask with.
pub mod RoundTrip
use vtfs.Base.{
  ℕ, ◌+◌, ◌%◌, ◌^◌, Bool, not, Option, none, some, List, [], ◌∷◌, ◌==◌, ltb, leb, if◌then◌else◌,
}
use vtfs.Base.Int.{ℤ, pos, negsuc, neg, is_neg, enoent, eisdir, enomem, efault, efbig}
use vtfs.Base.Lists.{length}
use vtfs.Base.Strings.{Bytes}
use vtfs.Storage.State.{
  Ptr, Entry, Env, Cmd, pure, fault, ◌>>=◌, ◌>>◌, load, send, write_request, is_reg, max_file_size,
  use_remote_server,
}
use vtfs.Storage.Path.{build_path}
use vtfs.Storage.Search.{vtfs_storage_get_by_ino}
use vtfs.Storage.Contents.{vtfs_storage_read, vtfs_storage_write}
use vtfs.Http.Server.{Server}
use vtfs.Http.Call.{Net}
use vtfs.Http.Remote.{vtfs_http_read}

pub record Buffers : Type 0 where
  pub has_memory : Bool
  pub copied : Bool

-- The number that a result adds to the offset.
abbrev pub count : ℤ → ℕ
count (pos n) = n
count (negsuc n) = 0

-- What the client has to ask with: its server and token, and what the kernel gives to the call.
pub record Client : Type 0 where
  pub server : Server
  pub token : Bytes
  pub net : Net

-- An access behind the end of a buffer is a fault of the whole call.
abbrev of_call : Option (ℤ × Bytes) → Cmd (ℤ × Bytes)
of_call none = fault
of_call (some answer) = pure answer

-- What the server gives, or -1 without a server.
unfoldable pub remote_read : Env → Client → Ptr → (len offset : ℕ) → Cmd (ℤ × Bytes)
remote_read env client entry len offset =
    if not (use_remote_server env) then pure (negsuc 0, []) else do
      path ← build_path entry 256
      of_call (vtfs_http_read client.server client.net client.token path len (pos offset))

-- `struct inode`, as far as the two calls use it.
pub record FileInode : Type 0 where
  pub ino : ℕ
  pub size : ℕ
  pub mtime : ℕ
  pub ctime : ℕ

-- The result, the bytes that the user gets, the new offset, and the kernel's inode.
unfoldable pub vtfs_read :
    Env → Buffers → Client → FileInode → (len offset : ℕ) → Cmd (ℤ × Bytes × ℕ × FileInode)
unfolding remote_read
vtfs_read env buffers client inode len offset = do
  entry ← vtfs_storage_get_by_ino inode.ino
  if entry == 0 then pure (neg enoent, [], offset, inode) else do
    e ← load entry
    if not (is_reg e.mode)
        then pure (neg eisdir, [], offset, inode)
        else if leb e.size offset
        then pure (pos 0, [], offset, inode)
        else if not buffers.has_memory
        then pure (neg enomem, [], offset, inode)
        else do
          remote ← remote_read env client entry len offset
          got ← (if is_neg remote.0 then vtfs_storage_read env entry len offset else pure remote)
          if is_neg got.0
              then pure (got.0, [], offset, inode)
              else if not buffers.copied
              then pure (neg efault, [], offset, inode)
              else do
                now ← load entry
                pure (got.0, got.1, offset + count got.0, record inode { size = now.size })

-- The request that `vtfs_write` itself makes, after the storage has made its own.
unfoldable pub remote_write : Env → Ptr → Bytes → ℕ → Cmd (Unit {0})
remote_write env entry bytes offset =
    if not (use_remote_server env)
    then pure tt
    else do path ← build_path entry 256; send (write_request path bytes offset)

-- The result, the new offset, and the kernel's inode. `append` is O_APPEND; the limit is tested before it moves the
-- offset.
unfoldable pub vtfs_write :
    Env → Buffers → (append : Bool) → FileInode → Bytes → (offset : ℕ) → Cmd (ℤ × ℕ × FileInode)
unfolding remote_write
vtfs_write env buffers append inode bytes offset = do
  entry ← vtfs_storage_get_by_ino inode.ino
  if entry == 0 then pure (neg enoent, offset, inode) else do
    e ← load entry
    if not (is_reg e.mode)
        then pure (neg eisdir, offset, inode)
        else if ltb max_file_size ((offset + length bytes) % 2 ^ 64)
        then pure (neg efbig, offset, inode)
        else do
          let start = if append then e.size else offset
          if not buffers.has_memory
              then pure (neg enomem, start, inode)
              else if not buffers.copied
              then pure (neg efault, start, inode)
              else do
                written ← vtfs_storage_write env entry bytes start
                if is_neg written then pure (written, start, inode) else do
                  remote_write env entry bytes start
                  now ← load entry
                  pure (
                    written,
                    start + count written,
                    record inode { size = now.size; mtime = env.now; ctime = env.now },
                  )
