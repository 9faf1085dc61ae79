-- ===== src/Storage/Remove/Links.antt =====
-- What the loop over the other links does.
use vtfs.Base.{
  ℕ, ◌+◌, ◌≡◌, refl, true, false, Option, some, List, [], ◌∷◌, ◌==◌, arith, inl, inr, Bool-cases,
  if◌then◌else◌, ap, ◌∙◌,
}
use vtfs.Base.Lists.{mem, Distinct}
use vtfs.Storage.State.{Ptr, Entry, Store, put_entry, load_lem, change_lem}
use vtfs.Storage.Tree.{at, Live}
use vtfs.Storage.Tree.Marked.{Marked, stepped, stepped-Live, stepped-Marked, stepped-ino}
use vtfs.Storage.Remove.{dec_nlink, drop_links}

-- how many entries of a chain have the inode number
abbrev pub links : Store → ℕ → List Ptr → ℕ
links s ino [] = 0
links s ino (p ∷ ps) = (if (at s p).ino == ino then 1 else 0) + links s ino ps

abbrev pub one_less : Entry → Entry
one_less e = record e { nlink = dec_nlink e.nlink }

abbrev pub Dropped : ℕ → List Ptr → Store → Store → Type 0
Dropped = Marked one_less

module _ (ino : ℕ) where
  -- the first entry of a chain, and the rest
  drop_step :
      (s : Store) (p : Ptr) (ps : List Ptr) (count : ℕ)
      → (p == 0) ≡ false
      → s.entry p ≡ some (at s p)
      → drop_links ino (p ∷ ps) count s ≡ (
          if (at s p).ino == ino
          then drop_links ino ps (count + 1) (put_entry p (some (one_less (at s p))) s)
          else drop_links ino ps count s)
  unfolding drop_links
  drop_step s p ps count p0 live =
      rw (load_lem p s (at s p) p0 live) (elim (Bool-cases ((at s p).ino == ino)) [
        | inl hit ↦ rw hit (rw (change_lem p one_less s (at s p) p0 live))
        | inr miss ↦ rw miss
      ])

  drop_nil : (s : Store) (count : ℕ) → drop_links ino [] count s ≡ some (count + 0, s)
  unfolding drop_links
  drop_nil s count = ground arith

  pub links-same :
      (s s' : Store) (ps : List Ptr)
      → ((q : Ptr) → mem q ps ≡ true → (at s' q).ino ≡ (at s q).ino)
      → links s' ino ps ≡ links s ino ps
  links-same s s' [] h = refl
  links-same s s' (p ∷ ps) h =
      ground (arith, h p (ground arith), links-same s s' ps (λ q m. h q (ground arith)))

  at_count :
      (s : Store) (m n : ℕ) → m ≡ n → ◌≡◌ {A = Option (ℕ × Store)} (some (m, s)) (some (n, s))
  at_count s m n e = ap (λ (k : ℕ). some (k, s)) e

  pub drop_lem :
      (ps : List Ptr) (s : Store) (count : ℕ)
      → Live s ps
      → Distinct ps
      → (s' : Store) × (drop_links ino ps count s ≡ some (count + links s ino ps, s'))
        × Dropped ino ps s s'
  drop_lem [] s count live distinct =
      (s, drop_nil s count, record { entry = λ q. refl; rest = refl })
  drop_lem (p ∷ ps) s count (p0, ep, live) (out, distinct) =
      elim (Bool-cases ((at s p).ino == ino)) [
        | inl hit ↦
            let s1 = stepped one_less ino s p ps live out ep hit in
            let (s', run, d) =
              drop_lem ps s1 (count + 1) (stepped-Live one_less ino s p ps live out ep hit)
                distinct in
            let same = links-same s s1 ps (stepped-ino one_less ino s p ps live out ep hit) in
            (
              s',
              drop_step s p ps count p0 ep
                  ∙ rw hit (
                      run
                      ∙ at_count s' (count + 1 + links s1 ino ps) (count + (1 + links s ino ps))
                          (omega arith)),
              stepped-Marked one_less ino s p ps live out ep hit s' d,
            )
        | inr miss ↦
            let (s', run, d) = drop_lem ps s count live distinct in
            (
              s',
              drop_step s p ps count p0 ep
                  ∙ rw miss (
                      run
                      ∙ at_count s' (count + links s ino ps) (count + (0 + links s ino ps))
                          (omega arith)),
              record { entry = λ q. ground (arith, d.entry q); rest = d.rest },
            )
      ]
