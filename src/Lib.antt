-- ===== src/Lib.antt =====
-- vtfs, a Linux kernel module with a small file system that lives in memory and, when the module
-- is given a URL, is mirrored by an HTTP server.
--
-- The program's parts, all in the directory module/ of the repository:
--   * storage.c, storage.h: the tree of entries, their data, their link counts, under one spin lock.
--     A change is announced to the server after (for a deletion: with its path taken before) the
--     change in memory.
--   * http.c, http.h: the client: requests with percent-encoded values, base64 for data.
--   * inode_ops.c, file_ops.c, dir_ops.c, vtfs_main.c: the calls of the kernel's VFS, which use the
--     storage or, with a URL, the client.
--
-- How the files model it:
--   * Base: tests on numbers, lists over the native numbers, errno values, bit operations, and the
--     kernel's string functions on lists of bytes.
--   * Storage/State: `struct vtfs_entry` is the record Entry, `struct vtfs_storage` the record Store.
--     A pointer is a number, 0 is NULL. Store also holds what the pointers point to (`entry` for
--     entries, `block` for data) and the requests that the server has been sent, newest first. A chain
--     of `list_head`s is the list of the addresses of its entries. An operation of the source is a
--     function of the same name from a Store to a result and a Store, or to none: a fault, that is a
--     load through a bad pointer, an access out of a block, a second lock, a second free. Env is what
--     the kernel gives to one call: the addresses that the allocator returns (0 when it fails), the
--     bytes that fresh memory holds, the time, and the URL of the server.
--   * Storage/Path, Search, Create, Remove, Contents, Cleanup: the operations of storage.c.
--   * Storage/Tree: IsTree, the well-formedness of a storage: every entry in the list of
--     all entries is allocated, listed once and older than its children; an entry is in the list of
--     children of its parent, once, and nowhere else; the lock is free.
--   * Storage/Sound: storages in which the tree, the files and the memory agree, and which sequences of
--     operations reach: `Op` is one operation on listed entries, `Reached` a sequence.
--   * Storage/Spec: the storage without its chains, memory and lock: nodes under handles, each with its
--     directory and its contents, and what each call may answer and leave (`Does`, `Plays`). `view` is
--     what it sees of a Store.
--   * Http/Base64, Http/Url: `bytes_to_base64`, `base64_decode` and `url_encode`.
--   * Http/Text: the kernel's functions on strings that http.c calls, as their documentation says:
--     strstr, strchr, simple_strtoul, kstrtoint, kstrtoll and the printing of numbers.
--   * Http/Server: the three static variables, `parse_url` and the calls that set them.
--   * Http/Response: `parse_http_response`. A buffer is the list of all its bytes, what stands behind
--     the NUL included; an access behind its end is none.
--   * Http/Json: `extract_json_field` and `extract_json_number`.
--   * Http/Call: `vtfs_http_call` with `create_connection`, `socket_send` and `socket_recv`. The record
--     Net is what the kernel gives: memory, the calls of the network stack, and what comes in.
--     Http/Call/Query reads a query as a server does.
--   * Http/Remote: `vtfs_http_create`, `vtfs_http_write`, `vtfs_http_read`, `vtfs_http_delete` and
--     `vtfs_http_stat`.
--   * Ops/Dir: `vtfs_iterate`; the reader of the directory is a parameter, `accept`.
--   * Ops/File: `vtfs_read` and `vtfs_write`; the kernel's buffers are parameters, its inode is the record
--     FileInode, and what the client has to ask with is the record Client.
--   * Ops/Inode: `vtfs_create`, `vtfs_mkdir`, `vtfs_unlink`, `vtfs_rmdir` and `vtfs_link`, with the
--     calls that they make of the kernel as a list beside the result.
--   * Ops/Lookup: `vtfs_lookup` and `fetch_from_remote`, in the same way, with what the client has to ask
--     with as the record Remote.
--   * Module: `vtfs_get_inode`, `vtfs_fill_super`, `vtfs_mount`, `vtfs_kill_sb`, `vtfs_init` and `vtfs_exit`;
--     the state is the client's variables beside the storage, and `mount_nodev` a parameter.
--   * Checks: runs on small inputs, and the theorems at inputs that meet their hypotheses.
--
-- Bounds and fuel: `build_path` climbs on fuel, one more than the number of entries, which is
-- enough in a well-formed storage, since a parent is listed behind its children. Inode numbers and
-- sizes wrap at 64 bits, link counts at 32, as in the source. Strings are lists of bytes without
-- NUL, but in the response, which is a buffer. The loop over the chunks of a response runs on one
-- more than the size of the body, since each chunk makes the body longer. The cleanup recurs on the
-- number of entries, which is enough since a child is younger than its directory.
--
-- Not modelled: the interrupt flags of the lock and the interleaving of calls (an operation runs
-- from lock to lock without another), what happens inside the calls by which the storage and
-- `vtfs_write` tell the server of a change (each is a request in the list `sent`, and ends without
-- a fault), paths in buffers of less than two bytes (the callers have 256 and 512), the release of
-- sockets, the kernel's VFS structures but for the fields named above, the tables of functions, and
-- the server in server/.
pub mod Base
pub mod Storage
pub mod Ops
pub mod Http
pub mod Module
pub mod Checks
