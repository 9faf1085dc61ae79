-- ===== src/Storage/Spec/Refines.antt =====
-- The calls of the storage against its specification, one by one and in sequences.
use vtfs.Base.{
  ◌≡◌, ◌⊎◌, ap, sym, ◌∙◌, false, Option, none, some, List, [], ◌∷◌, ◌==◌, refl, inl, inr, fun_ext,
  Bool-cases,
}
use mathlib.Core.Path.{subst}
use vtfs.Base.Int.{ℤ}
use vtfs.Base.Strings.{Bytes}
use vtfs.Storage.State.{Store, Env}
use vtfs.Storage.Contents.{vtfs_storage_read, vtfs_storage_write}
use vtfs.Storage.Create.{create_entry_internal}
use vtfs.Storage.Create.Init.{fresh}
use vtfs.Storage.Remove.{vtfs_storage_delete_entry}
use vtfs.Storage.Search.{vtfs_storage_lookup}
use vtfs.Storage.Tree.{at}
use vtfs.Storage.Sound.{IsSound}
use vtfs.Storage.Sound.Reached.{
  Op, state_of, create, delete, write, starved_create, starved_write, read, lookup, run, Reached,
  start, next, Reached-IsSound,
}
use vtfs.Storage.State.{is_reg}
use vtfs.Storage.Create.Refuse.{refuse_create}
use vtfs.Storage.Sound.Cases.{
  create_cases, delete_cases, delete_root, delete_full, write_cases, write_other, write_too_big,
  read_other,
}
use vtfs.Storage.Spec.{
  Call, create_call, delete_call, write_call, read_call, lookup_call, Reply, handle, result,
  create_without_memory, write_without_memory, starves_create, starves_write, refuses_write,
  refuses_size, refuses_read, Does, Plays, over, plays, new_file_system,
}
use vtfs.Storage.Sound.Starved.{numbered, create_starved, write_starved}
use vtfs.Storage.Spec.View.{view, view_listed, node_of}
use vtfs.Storage.Spec.Steps.{
  create_refused, root_refused, full_refused, create-Does, delete-Does, lookup-Does,
}
use vtfs.Storage.Spec.Files.{write-Does, read-Does}

-- The call that an operation makes.
abbrev pub call_of : {s : Store} → Op s → Call
call_of (create env home name mode skip_sync m got unused) = create_call home name mode
call_of (delete env entry m) = delete_call entry
call_of (write env p bytes offset m got free fits) = write_call p bytes offset
call_of (starved_create env home name mode skip_sync m none_left) =
    create_without_memory home name mode
call_of (starved_write env p bytes offset m none_left short fits) =
    write_without_memory p bytes offset
call_of (read env p len offset m) = read_call p len offset
call_of (lookup home name m) = lookup_call home name

abbrev with_reply : {A : Type 0} → (A → Reply) → Option (A × Store) → Option (Reply × Store)
with_reply f none = none
with_reply f (some (a, s)) = some (f a, s)

abbrev of_read : ℤ × Bytes → Reply
of_read (n, bytes) = result n bytes

abbrev of_code : ℤ → Reply
of_code n = result n []

-- What an operation answers, and the storage that it leaves; `none` is a fault.
abbrev pub answer : (s : Store) → Op s → Option (Reply × Store)
answer s (create env home name mode skip_sync m got unused) =
    with_reply handle (create_entry_internal env home name mode 0 skip_sync s)
answer s (delete env entry m) = with_reply of_code (vtfs_storage_delete_entry env entry s)
answer s (write env p bytes offset m got free fits) =
    with_reply of_code (vtfs_storage_write env p bytes offset s)
answer s (starved_create env home name mode skip_sync m none_left) =
    with_reply handle (create_entry_internal env home name mode 0 skip_sync s)
answer s (starved_write env p bytes offset m none_left short fits) =
    with_reply of_code (vtfs_storage_write env p bytes offset s)
answer s (read env p len offset m) = with_reply of_read (vtfs_storage_read env p len offset s)
answer s (lookup home name m) = with_reply handle (vtfs_storage_lookup home name s)

-- An operation answers with what the specification allows.
abbrev pub Allowed : (s : Store) → Op s → Type 0
Allowed s o =
    (r : Reply) × (s' : Store) × (answer s o ≡ some (r, s')) × Does (view s) (call_of o) r (view s')

-- A creation without memory leaves what the storage shows.
starved_view : (s s' : Store) → (s' ≡ s) ⊎ (s' ≡ numbered s) → view s' ≡ view s
starved_view s s' (inl same) = ap view same
starved_view s s' (inr next_number) = ap view next_number

allowed : (s : Store) → IsSound s → (o : Op s) → Allowed s o
allowed s sound (create env home name mode skip_sync m got unused) =
    elim (create_cases s home name m) [
      | inl bad ↦ (
        _,
        s,
        ap (with_reply handle) (refuse_create env s home name mode 0 skip_sync sound.tree m bad),
        create_refused s sound home name mode m bad,
      )
      | inr (dir, unnamed) ↦
          let (s', runs, does) =
            create-Does s sound env home name mode skip_sync m dir unnamed got unused in
          (_, s', ap (with_reply handle) runs, does)
    ]
allowed s sound (delete env entry m) = elim (delete_cases s sound.tree entry) [
  | inl root ↦ (
    _,
    s,
    ap (with_reply of_code) (delete_root s sound.tree env entry root),
    root_refused s sound entry root,
  )
  | inr (away, inr (q, child)) ↦ (
    _,
    s,
    ap (with_reply of_code) (delete_full s sound.tree env entry q m away child),
    full_refused s sound entry q m away child,
  )
  | inr (away, inl childless) ↦
      let (s', runs, does) = delete-Does s sound env entry m away childless in
      (_, s', ap (with_reply of_code) runs, does)
]
allowed s sound (write env p bytes offset m got free fits) =
    let shown = view_listed s p m in
    elim (write_cases s p bytes offset) [
      | inl other ↦ (
        _,
        s,
        ap (with_reply of_code) (write_other s sound p m env bytes offset other),
        refuses_write p (node_of s (at s p)) bytes offset shown other,
      )
      | inr (reg, inr big) ↦ (
        _,
        s,
        ap (with_reply of_code) (write_too_big s sound p m env bytes offset reg fits big),
        refuses_size p (node_of s (at s p)) bytes offset shown reg big,
      )
      | inr (reg, inl small) ↦
          let (s', runs, does) = write-Does s sound env p bytes offset m reg got free small in
          (_, s', ap (with_reply of_code) runs, does)
    ]
allowed s sound (starved_create env home name mode skip_sync m none_left) =
    let (s', runs, done, left) = create_starved s sound env home name mode skip_sync m none_left in
    let does = starves_create home mode name (node_of s (at s home)) (view_listed s home m) in
    (
      _,
      s',
      ap (with_reply handle) runs,
      subst (Does (view s) (create_without_memory home name mode) (handle 0))
          (sym (starved_view s s' left)) does,
    )
allowed s sound (starved_write env p bytes offset m none_left short fits) =
    let (code, runs, why) = write_starved s sound env p bytes offset m none_left short fits in
    (
      _,
      s,
      ap (with_reply of_code) runs,
      starves_write p (node_of s (at s p)) bytes offset code (view_listed s p m) why,
    )
allowed s sound (read env p len offset m) = elim (Bool-cases (is_reg (at s p).mode)) [
  | inl reg ↦
      let (s', runs, does) = read-Does s sound env p len offset m reg in
      (_, s', ap (with_reply of_read) runs, does)
  | inr other ↦ (
    _,
    s,
    ap (with_reply of_read) (read_other s sound p m env len offset other),
    refuses_read p (node_of s (at s p)) len offset (view_listed s p m) other,
  )
]
allowed s sound (lookup home name m) =
    let (p, runs, does) = lookup-Does s sound home name m in
    (_, s, ap (with_reply handle) runs, does)

-- After any sequence of operations as in Storage/Sound/Reached (without hard links, with memory or not,
-- at addresses from the allocator that are not in use or grow a file in place, and with each write's
-- end below 2 ^ 64), each further one ends without a fault, and its answer and what the storage shows
-- then are such as the specification allows for the call.
pub Reached-Does : {s : Store} → Reached s → (o : Op s) → Allowed s o
Reached-Does {s} r o = allowed s (Reached-IsSound r) o

-- A sequence of operations, with the calls that they make and the answers that they get.
pub data Session : Store → List (Call × Reply) → Store → Type 0 where
  done : (s : Store) → Session s [] s
  call :
      {s s' s'' : Store} {reply : Reply} {rest : List (Call × Reply)} (o : Op s)
      → answer s o ≡ some (reply, s')
      → Session s' rest s''
      → Session s ((call_of o, reply) ∷ rest) s''

abbrev state_after : Option (Reply × Store) → Option Store
state_after none = none
state_after (some (r, s)) = some s

state_after-reply :
    {A : Type 0} (f : A → Reply) (x : Option (A × Store))
    → state_after (with_reply f x) ≡ state_of x
state_after-reply f none = refl
state_after-reply f (some (a, s)) = refl

-- The answer and the run are of one operation.
answer-run : (s : Store) (o : Op s) → state_after (answer s o) ≡ run s o
answer-run s (create env home name mode skip_sync m got unused) =
    state_after-reply handle (create_entry_internal env home name mode 0 skip_sync s)
answer-run s (delete env entry m) =
    state_after-reply of_code (vtfs_storage_delete_entry env entry s)
answer-run s (write env p bytes offset m got free fits) =
    state_after-reply of_code (vtfs_storage_write env p bytes offset s)
answer-run s (starved_create env home name mode skip_sync m none_left) =
    state_after-reply handle (create_entry_internal env home name mode 0 skip_sync s)
answer-run s (starved_write env p bytes offset m none_left short fits) =
    state_after-reply of_code (vtfs_storage_write env p bytes offset s)
answer-run s (read env p len offset m) =
    state_after-reply of_read (vtfs_storage_read env p len offset s)
answer-run s (lookup home name m) = state_after-reply handle (vtfs_storage_lookup home name s)

abbrev Matches : (s : Store) → Op s → Option (Reply × Store) → Type 0
Matches s o none = Unit
Matches s o (some (reply, s')) = Does (view s) (call_of o) reply (view s')

Session-Plays :
    {s s' : Store} {trace : List (Call × Reply)}
    → Reached s
    → Session s trace s'
    → Plays (view s) trace (view s')
Session-Plays r (done s) = over (view s)
Session-Plays r (call {s} o e rest) =
    let (reply, s2, e2, does) = allowed s (Reached-IsSound r) o in
    plays (subst (Matches s o) (sym e2 ∙ e) does)
      (Session-Plays (next r o (sym (answer-run s o) ∙ ap state_after e)) rest)

module _ (env : Env) (s : Store) (got : (env.new_entry == 0) ≡ false) where
  view-fresh : view (fresh env s got) ≡ new_file_system env.new_entry
  view-fresh = fun_ext (λ q. elim (Bool-cases (q == env.new_entry)) [
    | inl same ↦ rw same refl
    | inr other ↦ rw other refl
  ])

  -- The storage refines its specification. For a sequence of operations as in Storage/Sound/Reached
  -- (without hard links, with memory or not, at addresses from the allocator that are not in use or grow
  -- a file in place, and with each write's end below 2 ^ 64), from an initialisation with memory for
  -- the root on, its calls with their answers are a sequence that the specification allows from
  -- the file system with the root alone to what the storage then shows.
  pub fresh-Plays :
      {s' : Store} {trace : List (Call × Reply)}
      → Session (fresh env s got) trace s'
      → Plays (new_file_system env.new_entry) trace (view s')
  fresh-Plays {s'} {trace} session =
      subst (λ fs. Plays fs trace (view s')) view-fresh (Session-Plays (start env s got) session)
