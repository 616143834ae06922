-- ===== src/Versions.antt =====
-- File versions: file_version_find_locked and agentfs_inode_version_get, _bump and _remove of
-- kernel/agent_fs.c. The table is file_versions.
pub mod Table
pub mod Full
use aaaos_renovation_agent_o.Prelude.{
  ℕ, ◌+◌, Bool, true, false, ◌&&◌, not, Option, none, some, List, [], ◌∷◌, ◌==◌, if◌then◌else◌, u64,
}

-- struct agent_file_version
pub record Entry : Type 0 where
  pub used : Bool
  pub dev : ℕ
  pub inum : ℕ
  pub version : ℕ
  pub deleted : Bool

-- The entry that a file gets at its first use
abbrev pub first_entry : ℕ → ℕ → Entry
first_entry dev inum = record { used = true; dev = dev; inum = inum; version = 1; deleted = false }

-- `entry->used && entry->dev == dev && entry->inum == inum`
unfoldable pub is_entry : ℕ → ℕ → Entry → Bool
is_entry dev inum e = e.used && e.dev == dev && e.inum == inum

-- The search of file_version_find_locked
unfoldable pub lookup : ℕ → ℕ → List Entry → Option Entry
lookup dev inum [] = none
lookup dev inum (e ∷ es) = elim (is_entry dev inum e) [ true ↦ some e | false ↦ lookup dev inum es ]

-- The first free slot gets the entry; a full table stays.
unfoldable pub place : Entry → List Entry → List Entry
place new [] = []
place new (e ∷ es) = elim e.used [ false ↦ new ∷ es | true ↦ e ∷ place new es ]

-- The table after file_version_find_locked with `create` set
unfoldable pub ensure : ℕ → ℕ → List Entry → List Entry
ensure dev inum es = elim (lookup dev inum es) [
  | some e ↦ es
  | none ↦ place (first_entry dev inum) es
]

-- Assignments through the pointer that file_version_find_locked returns
unfoldable pub modify : ℕ → ℕ → (Entry → Entry) → List Entry → List Entry
modify dev inum f [] = []
modify dev inum f (e ∷ es) = elim (is_entry dev inum e) [
  | true ↦ f e ∷ es
  | false ↦ e ∷ modify dev inum f es
]

-- `version++`, which skips 0
unfoldable pub next_version : ℕ → ℕ
next_version v = if u64 (v + 1) == 0 then 1 else u64 (v + 1)

abbrev pub bump_entry : Entry → Entry
bump_entry e = record e { version = next_version e.version; deleted = false }

abbrev pub remove_entry : Entry → Entry
remove_entry e = record e { version = next_version e.version; deleted = true }

-- `version`, or 0 for no entry and for a deleted file
unfoldable pub version_of : Option Entry → ℕ
version_of none = 0
version_of (some e) = if e.deleted then 0 else e.version

-- agentfs_inode_version_get
unfoldable pub version_get : ℕ → ℕ → List Entry → ℕ × List Entry
version_get dev inum es = (version_of (lookup dev inum (ensure dev inum es)), ensure dev inum es)

-- agentfs_inode_version_bump
unfoldable pub version_bump : ℕ → ℕ → List Entry → ℕ × List Entry
version_bump dev inum es =
    let es' = modify dev inum bump_entry (ensure dev inum es) in
    (version_of (lookup dev inum es'), es')

-- agentfs_inode_version_remove
unfoldable pub version_remove : ℕ → ℕ → List Entry → List Entry
version_remove dev inum es = modify dev inum remove_entry (ensure dev inum es)
