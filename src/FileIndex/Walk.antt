-- ===== src/FileIndex/Walk.antt =====
-- Building the file index of kernel/agent_fs.c: file_join_path, file_index_walk and
-- file_index_build over the tree of the file system.
pub mod Kept
use aaaos_renovation_agent_o.Prelude.{
  ℕ, ◌+◌, ◌-◌, Bool, true, false, ◌||◌, Option, none, some, List, [], ◌∷◌, ◌++◌, ◌==◌,
  if◌then◌else◌, leb, take, length, replicate,
}
use aaaos_renovation_agent_o.Params.{streq}
use aaaos_renovation_agent_o.Text.{codes}
use aaaos_renovation_agent_o.Files.{Inode}
use aaaos_renovation_agent_o.FileIndex.{Meta, Index, meta_max, upsert, rebuild_postings}

mutual
  -- What the walk meets: a file, a directory with the entries that readi reads, an inode of another
  -- type, or nothing where dirlookup gives 0
  pub data Node : Type 0 where
    file : Inode → Node
    directory : Dirents → Node
    device : Node
    missing : Node

  -- struct dirent: the inode's number, the name, and what dirlookup finds under the name
  pub data Dirents : Type 0 where
    last : Dirents
    dirent : ℕ → List ℕ → Node → Dirents → Dirents

-- A '/' behind a base that is not empty; none for -1. The buffer has `outsz` bytes.
unfoldable pub join_base : List ℕ → ℕ → Option (List ℕ)
join_base [] outsz = some []
join_base (c ∷ cs) outsz =
    let base = take (outsz - 1) (c ∷ cs) in
    if leb (outsz - 1) (length base) then none else some (base ++ (b'/' ∷ []))

abbrev pub join_name : Option (List ℕ) → List ℕ → ℕ → Option (List ℕ)
join_name none name outsz = none
join_name (some out) name outsz =
    if leb (outsz - 1) (length out) then none else some (out ++ take (outsz - length out - 1) name)

-- file_join_path
unfoldable pub join_path : List ℕ → List ℕ → ℕ → Option (List ℕ)
join_path base name outsz = join_name (join_base base outsz) name outsz

-- An entry that the walk passes over
unfoldable pub skipped : ℕ → List ℕ → Bool
skipped inum name = inum == 0 || streq name (codes ".") || streq name (codes "..")

-- What the walk of a child leaves of the table, unless the entry is passed over
abbrev pub walk_child : Bool → Option (List ℕ) → (List ℕ → List Meta) → List Meta → List Meta
walk_child true path walk metas = metas
walk_child false none walk metas = metas
walk_child false (some path) walk metas = walk path

unfoldable mutual
  -- file_index_walk
  pub index_walk : Node → List ℕ → List Meta → List Meta
  index_walk (file ip) path metas = upsert ip path metas
  index_walk (directory es) path metas = walk_dirents es path metas
  index_walk device path metas = metas
  index_walk missing path metas = metas

  -- Its loop over the entries of a directory
  pub walk_dirents : Dirents → List ℕ → List Meta → List Meta
  walk_dirents last path metas = metas
  walk_dirents (dirent inum name child es) path metas = walk_dirents es path (
      walk_child (skipped inum name) (join_path path (take 14 name) 64)
        (λ at. index_walk child at metas) metas)

-- An entry after memset
abbrev pub unused_meta : Meta
unused_meta = record { used = false; inum = 0; dev = 0; path = []; summary = []; attrs = [] }

-- file_meta, file_postings and file_index
pub record Cache : Type 0 where
  pub metas : List Meta
  pub index : Index

abbrev pub walk_root : Node → List Meta
walk_root root = index_walk root [] (replicate meta_max unused_meta)

-- file_index_build from the root directory
unfoldable pub index_build : Node → Cache
index_build root = record { metas = walk_root root; index = rebuild_postings (walk_root root) }
