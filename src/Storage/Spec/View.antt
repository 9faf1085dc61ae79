-- ===== src/Storage/Spec/View.antt =====
-- What the specification sees of a storage: its listed entries.
use vtfs.Base.{
  ◌≡◌, refl, ap, ◌∙◌, inl, inr, true, false, Option, none, some, ◌==◌, arith, if◌then◌else◌, [],
  fun_ext, Bool-cases, ==→eq,
}
use vtfs.Base.Lists.{mem}
use vtfs.Base.Strings.{Bytes}
use vtfs.Storage.State.{Ptr, Entry, Store, is_reg, update}
use vtfs.Storage.Tree.{at}
use vtfs.Storage.Contents.{slice}
use vtfs.Storage.Contents.File.{IsFile, byte_at}
use vtfs.Storage.Sound.{IsSound, Alike}
use vtfs.Storage.Spec.{Node, FileSystem}
use vtfs.Storage.Spec.Slices.{slice_same}

-- The bytes of a regular file; they are in its memory up to its size.
abbrev pub contents_of : Store → Entry → Bytes
contents_of s e = if is_reg e.mode then slice (byte_at s e) 0 e.size else []

abbrev pub node_of : Store → Entry → Node
node_of s e = record {
  name = e.name;
  ino = e.ino;
  mode = e.mode;
  parent = e.parent;
  contents = contents_of s e;
}

abbrev pub view : Store → FileSystem
view s p = if mem p s.all_entries then some (node_of s (at s p)) else none

pub view_listed :
    (s : Store) (p : Ptr) → mem p s.all_entries ≡ true → view s p ≡ some (node_of s (at s p))
view_listed s p m = rw m

-- What the view shows under a handle is a listed entry.
pub view-some :
    (s : Store) (p : Ptr) (n : Node)
    → view s p ≡ some n
    → (mem p s.all_entries ≡ true) × (node_of s (at s p) ≡ n)
view-some s p n e = elim (Bool-cases (mem p s.all_entries)) [
  | inl listed ↦ (listed, cc (e, view_listed s p listed))
  | inr other ↦ let none_there : view s p ≡ none = rw other in absurd (cc (e, none_there))
]

module _ (s s' : Store) (q : Ptr) (a : Alike s s' q) where
  contents-Alike :
      (is_reg (at s q).mode ≡ true → IsFile s q (at s q))
      → contents_of s' (at s' q) ≡ contents_of s (at s q)
  contents-Alike file = elim (Bool-cases (is_reg (at s q).mode)) [
    | inl reg ↦ rw a.mode (rw reg (rw a.size (same_bytes (file reg))))
    | inr other ↦ rw a.mode (rw other refl)
  ]
    where
      no_bytes : (f : IsFile s q (at s q)) → (at s q).buffer ≡ 0 → (at s q).size ≡ 0
      no_bytes f null = elim f.backed [
        | inl (z, zero_capacity) ↦ omega (arith, f.size_le)
        | inr (b, some_data, eb, len) ↦ absurd (ground arith)
      ]

      same_bytes :
          IsFile s q (at s q)
          → slice (byte_at s' (at s' q)) 0 (at s q).size
            ≡ slice (byte_at s (at s q)) 0 (at s q).size
      same_bytes f = elim a.block [
        | inl null ↦ rw (no_bytes f null) refl
        | inr same ↦
            slice_same (byte_at s' (at s' q)) (byte_at s (at s q)) 0 (at s q).size
              (λ k lo hi. cc (a.buffer, same))
      ]

  pub node_of-Alike :
      (is_reg (at s q).mode ≡ true → IsFile s q (at s q))
      → node_of s' (at s' q) ≡ node_of s (at s q)
  node_of-Alike file =
      let contents = contents-Alike file in cc (a.name, a.ino, a.mode, a.parent, contents)

module _ (s s' : Store) (sound : IsSound s) where
  -- A handle whose entry is as it was shows what it showed.
  pub view-Alike :
      (q : Ptr)
      → mem q s'.all_entries ≡ mem q s.all_entries
      → (mem q s.all_entries ≡ true → Alike s s' q)
      → view s' q ≡ view s q
  view-Alike q same alike = elim (Bool-cases (mem q s.all_entries)) [
    | inl listed ↦
        let shown = node_of-Alike s s' q (alike listed) (sound.files q listed) in
        rw same (rw listed (ap some shown))
    | inr other ↦ rw same (rw other refl)
  ]

-- A storage that shows the same but under one handle.
pub view-update :
    (s s' : Store) (p : Ptr) (v : Option Node)
    → view s' p ≡ v
    → ((q : Ptr) → (q == p) ≡ false → view s' q ≡ view s q)
    → view s' ≡ update (view s) p v
view-update s s' p v here others = fun_ext (λ q. elim (Bool-cases (q == p)) [
  | inl same ↦ rw same (ap (view s') (==→eq q p same) ∙ here)
  | inr other ↦ rw other (others q other)
])
