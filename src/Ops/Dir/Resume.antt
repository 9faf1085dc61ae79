-- ===== src/Ops/Dir/Resume.antt =====
-- A reader that stops and comes back to a directory.
use vtfs.Base.{
  ℕ, zero, suc, ◌+◌, ◌≡◌, refl, sym, ap, ◌∙◌, Bool, true, Option, some, List, [], ◌∷◌, ◌++◌,
  append_assoc, arith, Bool-cases, inl, inr,
}
use vtfs.Base.Int.{ℤ}
use vtfs.Base.Lists.{length, drop, mem}
use vtfs.Storage.State.{Ptr, Store, is_dir}
use vtfs.Storage.Tree.{at, IsTree}
use vtfs.Storage.Search.First.{first, has_ino}
use vtfs.Ops.Dir.{Dirent, Ctx, vtfs_iterate}
use vtfs.Ops.Dir.Listing.{listing, taken, after, iterate-taken}

-- The reader that takes all that there is.
abbrev pub always : List Dirent → Dirent → Bool
always seen d = true

taken-always : (seen ds : List Dirent) → taken always seen ds ≡ ds
taken-always seen [] = refl
taken-always seen (d ∷ ds) = ap (λ r. d ∷ r) (taken-always (seen ++ d ∷ []) ds)

-- What is taken is a front of what is there.
taken-drop :
    (accept : List Dirent → Dirent → Bool) (seen ds : List Dirent)
    → taken accept seen ds ++ drop (length (taken accept seen ds)) ds ≡ ds
taken-drop accept seen [] = refl
taken-drop accept seen (d ∷ ds) = elim (Bool-cases (accept seen d)) [
  | inl takes ↦ rw takes (ap (λ r. d ∷ r) (taken-drop accept (seen ++ d ∷ []) ds))
  | inr stops ↦ rw stops
]

drop-nil : (k : ℕ) → drop {A = Dirent} k [] ≡ []
drop-nil zero = refl
drop-nil (suc k) = refl

drop-add : (m n : ℕ) (ds : List Dirent) → drop (m + n) ds ≡ drop n (drop m ds)
drop-add zero n ds = ap (λ (k : ℕ). drop k ds) (omega arith)
drop-add (suc m) n [] = drop-nil (suc m + n) ∙ sym (drop-nil n)
drop-add (suc m) n (d ∷ ds) =
    let e : suc m + n ≡ suc (m + n) = omega arith in
    ap (λ (k : ℕ). drop k (d ∷ ds)) e ∙ drop-add m n ds

module _ (accept : List Dirent → Dirent → Bool) (s : Store) (dir : Ptr) (t : IsTree s)
    (m : mem dir s.all_entries ≡ true) (ino : ℕ) (up : Option ℕ) (ctx : Ctx)
    (found : first (has_ino s ino) s.all_entries ≡ dir) (d : is_dir (at s dir).mode ≡ true) where
  abbrev first_part : List Dirent
  first_part = taken accept ctx.emitted (drop ctx.position (listing s dir ino up))

  abbrev stopped : Ctx
  stopped = (after accept 0 ctx first_part).1

  second_part :
      taken always stopped.emitted (drop stopped.position (listing s dir ino up))
      ≡ drop (length first_part) (drop ctx.position (listing s dir ino up))
  second_part =
      taken-always stopped.emitted (drop stopped.position (listing s dir ino up))
      ∙ drop-add ctx.position (length first_part) (listing s dir ino up)

  -- In a well-formed storage, for a listed directory that is the first entry with its inode number:
  -- wherever a first call of `vtfs_iterate` stops, a second call with its context and a reader that
  -- takes everything leaves all items from the first position on with the reader, each once and in
  -- order.
  pub iterate-resume :
      (r1 r2 : ℤ) × (ctx1 ctx2 : Ctx) × (vtfs_iterate accept ino up ctx s ≡ some ((r1, ctx1), s))
      × (vtfs_iterate always ino up ctx1 s ≡ some ((r2, ctx2), s))
      × (ctx2.emitted ≡ ctx.emitted ++ drop ctx.position (listing s dir ino up))
  iterate-resume =
      let rest = taken always stopped.emitted (drop stopped.position (listing s dir ino up)) in
      let last = after always 0 stopped rest in
      (
        (after accept 0 ctx first_part).0,
        last.0,
        stopped,
        last.1,
        iterate-taken accept s dir t m ino up ctx found d,
        iterate-taken always s dir t m ino up stopped found d,
        append_assoc ctx.emitted first_part rest
            ∙ ap (λ r. ctx.emitted ++ r)
                (ap (λ r. first_part ++ r) second_part
                  ∙ taken-drop accept ctx.emitted (drop ctx.position (listing s dir ino up))),
      )
