-- ===== src/Storage/Create/Announce.antt =====
-- What the server is told of a new entry.
use vtfs.Base.{ℕ, ◌≡◌, Bool, true, not, ◌&&◌, some, List, ◌∷◌, arith, if◌then◌else◌}
use vtfs.Base.Lists.{mem}
use vtfs.Base.Strings.{Bytes, clip}
use vtfs.Storage.State.{Ptr, Store, Env, Request, create_request, use_remote_server}
use vtfs.Storage.Tree.{IsTree}
use vtfs.Storage.Path.{build_path}
use vtfs.Storage.Path.Full.{IsPath, build_path-IsPath}
use vtfs.Storage.Create.{kind_of, announce}

-- The announcement to the server, for an entry of a well-formed storage.
module _ (env : Env) (skip_sync : Bool) (entry : Ptr) (mode : ℕ) (s : Store) where
  abbrev pub announced : Bytes → List Request
  announced path =
      if not skip_sync && use_remote_server env
      then create_request (clip 512 path) (kind_of mode) ∷ s.sent
      else s.sent

  announce_run :
      (path : Bytes)
      → build_path entry 512 s ≡ some (clip 512 path, s)
      → announce env skip_sync entry mode s ≡ some (tt, record s { sent = announced path })
  unfolding announce
  announce_run path run = ground arith

  pub announce_lem :
      IsTree s
      → mem entry s.all_entries ≡ true
      → (path : Bytes) × (n : ℕ) × IsPath s entry path n
        × (announce env skip_sync entry mode s ≡ some (tt, record s { sent = announced path }))
  announce_lem t m =
      let (path, n, is, run) = build_path-IsPath s entry 512 t m in
      (path, n, is, announce_run path run)
