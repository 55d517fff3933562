-- ===== src/Servers/Directory/Examples.antt =====
-- tools/mkfs.c: the directory "bin/".
use egos.Base.{ℕ, ◌≡◌, refl, some, List, [], ◌∷◌, arith}
use egos.Servers.Directory.{Entry, entry, decimal, dir_entry, listing, dir_lookup}
use egos.Servers.Directory.Lookup.{dir_lookup-inode_of, inode_of}

abbrev own : Entry
own = entry (46 ∷ 47 ∷ []) 6

abbrev parent : Entry
parent = entry (46 ∷ 46 ∷ 47 ∷ []) 0

abbrev cat : List ℕ
cat = 99 ∷ 97 ∷ 116 ∷ []

-- "./   6 ../   0 "
bin_dir :
    listing (own ∷ parent ∷ [])
    ≡ 46 ∷ 47 ∷ 32 ∷ 32 ∷ 32 ∷ 54 ∷ 32 ∷ 46 ∷ 46 ∷ 47 ∷ 32 ∷ 32 ∷ 32 ∷ 48 ∷ 32 ∷ []
unfolding listing dir_entry decimal
bin_dir = refl

dir_lookup-inode_of_example : dir_lookup (listing (own ∷ parent ∷ entry cat 7 ∷ [])) cat ≡ some 7
unfolding inode_of listing dir_entry decimal
dir_lookup-inode_of_example =
    dir_lookup-inode_of cat (own ∷ parent ∷ entry cat 7 ∷ []) (refl, refl, (refl, (refl, tt)))
      (
        (refl, refl, (refl, tt)),
        omega arith,
        (
          (refl, refl, (refl, (refl, tt))),
          omega arith,
          ((refl, refl, (refl, (refl, tt))), omega arith, tt),
        ),
      )
      (omega arith)
