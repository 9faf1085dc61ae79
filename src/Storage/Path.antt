-- ===== src/Storage/Path.antt =====
-- `build_path`, module/storage.c. It climbs by the parent pointers, here on fuel: the number of the
-- entries is given, and `Path.Full` is about that number.
pub mod Full
use vtfs.Base.{ℕ, zero, suc, not, ◌&&◌, List, [], ◌∷◌, ◌++◌, ◌==◌, if◌then◌else◌}
use vtfs.Base.Lists.{length}
use vtfs.Base.Strings.{Bytes, codes, strlcat, clip}
use vtfs.Storage.State.{Ptr, Entry, Store, Cmd, pure, fault, gets, ◌>>=◌, load}

abbrev pub slash : Bytes
slash = codes "/"

climb : ℕ → Ptr → ℕ → Cmd Bytes
climb zero entry size = fault
climb (suc n) entry size = gets (λ s. s.root) >>= λ root.
    if entry == 0
    then pure (clip size slash)
    else if entry == root
    then pure (clip size slash)
    else (load entry >>= λ e.
        if not (e.parent == 0) && not (e.parent == root)
        then (climb n e.parent size >>= λ path.
            pure (strlcat (strlcat path slash size) e.name size))
        else pure (clip size (slash ++ e.name)))

unfoldable pub build_path : Ptr → ℕ → Cmd Bytes
unfolding climb
build_path entry size s = climb (suc (length s.all_entries)) entry size s
