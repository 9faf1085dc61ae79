-- ===== src/Module/Life.antt =====
-- How `vtfs_init` and `vtfs_exit` end.
use vtfs.Base.{
  ◌≡◌, refl, ap, ◌∙◌, true, false, Option, none, some, [], ◌==◌, arith, if◌then◌else◌, Bool-cases,
  inl, inr,
}
use vtfs.Base.Int.{ℤ, pos, neg, is_zero, enomem}
use vtfs.Base.Strings.{Bytes}
use vtfs.Storage.State.{Store, Env}
use vtfs.Storage.Tree.{IsTree}
use vtfs.Storage.Create.{vtfs_storage_init}
use vtfs.Storage.Create.Init.{fresh, init-IsTree}
use vtfs.Storage.Cleanup.Shrunk.{Owned}
use vtfs.Storage.Sound.Runs.{fresh-Owned}
use vtfs.Storage.Cleanup.All.{Cleaned, cleanup-Cleaned}
use vtfs.Storage.Sound.Reached.{Reached, Reached-Cleaned}
use vtfs.Http.Server.{Server, vtfs_http_init}
use vtfs.Module.{has_url, stop_client, cleaned_up, with_storage, vtfs_init, vtfs_exit}

-- The client once it is started.
abbrev pub started : Option Bytes → Server → Server
started url server = if has_url url then (vtfs_http_init url server).1 else server

started_lem : (url : Option Bytes) (server : Server) → (vtfs_http_init url server).0 ≡ pos 0
unfolding vtfs_http_init
started_lem none server = refl
started_lem (some u) server = refl

module _ (env : Env) (url : Option Bytes) (registered : ℤ) (server : Server) (s : Store) where
  -- From the storage's initialisation on.
  storage_part :
      vtfs_init env url registered (server, s)
      ≡ with_storage url registered (started url server) (vtfs_storage_init env s)
  unfolding vtfs_init
  storage_part = elim (Bool-cases (has_url url)) [
    | inl some_url ↦ rw some_url (rw (started_lem url server) refl)
    | inr no_url ↦ rw no_url refl
  ]

  abbrev stopped : Server
  stopped = stop_client url (started url server)

  -- How the start of the module ends: without memory for the root with -ENOMEM and no storage; where
  -- the kernel refuses to register the file system with the kernel's result, and the storage freed;
  -- else with 0 and a well-formed storage of the root alone, which can be freed. A client that was
  -- started is stopped again when the start fails.
  pub data Init : Type 0 where
    no_memory :
        (env.new_entry == 0) ≡ true
        → (s' : Store) → vtfs_init env url registered (server, s) ≡ some (neg enomem, (stopped, s'))
        → s'.root ≡ 0
        → s'.all_entries ≡ []
        → Init
    refused :
        (got : (env.new_entry == 0) ≡ false)
        → is_zero registered ≡ false
        → (s' : Store) → vtfs_init env url registered (server, s) ≡ some (registered, (stopped, s'))
        → Cleaned (fresh env s got) s'
        → Init
    running :
        (got : (env.new_entry == 0) ≡ false)
        → is_zero registered ≡ true
        → vtfs_init env url registered (server, s)
          ≡ some (pos 0, (started url server, fresh env s got))
        → IsTree (fresh env s got)
        → Owned (fresh env s got)
        → Init

  -- the storage without a root
  abbrev bare : Store
  bare = record s { locked = false; all_entries = []; next_ino = 1001; root = 0 }

  without_memory : (env.new_entry == 0) ≡ true → vtfs_storage_init env s ≡ some (neg enomem, bare)
  unfolding vtfs_storage_init
  without_memory none_left = ground arith

  by_register : (got : (env.new_entry == 0) ≡ false) → Init
  by_register got =
      let (run, tree) = init-IsTree env s got in
      let started_storage : vtfs_init env url registered (server, s)
          ≡ with_storage url registered (started url server) (some (pos 0, fresh env s got)) =
        storage_part ∙ ap (with_storage url registered (started url server)) run in
      let (s', freed, clean) = cleanup-Cleaned (fresh env s got) tree (fresh-Owned env s got) in
      elim (Bool-cases (is_zero registered)) [
        | inl done ↦ running got done (started_storage ∙ rw done refl) tree (fresh-Owned env s got)
        | inr error ↦
            refused got error s'
              (started_storage
                ∙ rw error (ap (cleaned_up registered url (started url server)) freed))
              clean
      ]

  -- For any URL, memory, result of the registration and state before: `vtfs_init` ends without a
  -- fault, as `Init` says.
  pub vtfs_init-Init : Init
  vtfs_init-Init = elim (Bool-cases (env.new_entry == 0)) [
    | inl none_left ↦
        no_memory none_left bare
          (storage_part
            ∙ ap (with_storage url registered (started url server)) (without_memory none_left))
          refl refl
    | inr got ↦ by_register got
  ]

-- After any sequence of operations from an initialisation on, as in Storage/Sound/Reached: `vtfs_exit`
-- ends without a fault, with all entries and their data freed, and a client that was started stopped.
pub vtfs_exit-Cleaned :
    (url : Option Bytes) (server : Server) {s : Store}
    → Reached s
    → (s' : Store) × (vtfs_exit url (server, s) ≡ some (pos 0, (stop_client url server, s')))
      × Cleaned s s'
unfolding vtfs_exit
vtfs_exit-Cleaned url server r =
    let (s', run, clean) = Reached-Cleaned r in (s', ap (cleaned_up (pos 0) url server) run, clean)
