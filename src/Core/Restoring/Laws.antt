-- ===== src/Core/Restoring/Laws.antt =====
-- Which nodes are restored from which snapshot, and which error is returned.
use containerlab.Core.Restoring.{RestoredNode, SnapshotFiles, with_snapshot}
use containerlab.Core.NodeSettings.Laws.{last_path}
use Prim.Native.String.{◌++◌ as ◌++s◌}
use containerlab.Base.{
  String, ◌≡◌, ◌⊎◌, not, ◌&&◌, Option, none, some, List, [], ◌∷◌, map, str_eq, if◌then◌else◌, Error,
  Outcome, ok, fail,
}
use containerlab.Base.GoMap.{GoMap}

-- The file with the name of a node in the directory for all nodes.
abbrev pub path_in : SnapshotFiles → String → String → Option String
path_in files restore_all n =
    if not (str_eq restore_all "") && files.file_exists (files.join restore_all (◌++s◌ n ".tar"))
    then some (files.join restore_all (◌++s◌ n ".tar"))
    else none

-- The snapshot for a node: that of the last specification for it, or its file in the directory.
abbrev pub chosen : SnapshotFiles → List String → String → String → Option String
chosen files mappings restore_all n = elim (last_path n mappings) [
  | some path ↦ some path
  | none ↦ path_in files restore_all n
]

-- A node with its snapshot, if it has one.
abbrev pub restored : SnapshotFiles → RestoredNode → Option String → RestoredNode
restored files node none = node
restored files node (some path) = elim (files.abs path) [
  | none ↦ node
  | some abs_path ↦ with_snapshot node abs_path
]

-- The error for a node.
abbrev pub refusal : SnapshotFiles → Option String → Option Error
refusal files none = none
refusal files (some path) =
    if files.is_not_exist path
    then some Error.snapshot_not_found
    else elim (files.abs path) [ none ↦ some Error.path_failed | some abs_path ↦ none ]

-- The error for the first node that has one.
abbrev pub first_refusal :
    SnapshotFiles → (String → Option String) → List RestoredNode → Option Error
first_refusal files path_of [] = none
first_refusal files path_of (node ∷ nodes) = elim (refusal files (path_of node.short_name)) [
  | some e ↦ some e
  | none ↦ first_refusal files path_of nodes
]

-- All nodes with their snapshots, or the error for the first node that has one.
abbrev pub Restores :
    SnapshotFiles
    → (String → Option String)
    → List RestoredNode
    → Outcome (Unit {0}) × List RestoredNode
    → Type 0
Restores files path_of nodes result =
    ((first_refusal files path_of nodes ≡ none)
      × (result ≡ (ok tt, map (λ node. restored files node (path_of node.short_name)) nodes)))
    ⊎ ((e : Error) × (first_refusal files path_of nodes ≡ some e) × (result.0 ≡ fail e))
