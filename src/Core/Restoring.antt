-- ===== src/Core/Restoring.antt =====
-- configureSnapshotRestore of core/deploy.go. What the file system says of a path and filepath.Abs are
-- parameters, of which nothing is assumed.
mod Samples
pub mod Laws
use containerlab.Core.NodeSettings.{restore_loop, resolve_node_snapshot}
use Prim.Native.String.{◌++◌ as ◌++s◌}
use containerlab.Base.{
  ℕ, zero, suc, ◌+◌, ◌-◌, ◌*◌, ◌/◌, ◌%◌, ◌^◌, ◌≤◌, ◌<◌, String, ◌≡◌, refl, sym, ap, ◌∙◌, subst, ◌≢◌,
  ◌↔◌, ◌⊎◌, inl, inr, Bool, true, false, not, ◌&&◌, ◌||◌, Option, none, some, List, [], ◌∷◌, ◌++◌,
  map, arith, str_eq, eq_iff, eq_refl, ltb, leb, ◌==◌, if◌then◌else◌, Bool-cases, is_some, is_empty,
  Error, Outcome, ok, fail, panic, ◌>>=◌, deref, >>=-eq-ok, deref-eq-ok, is_ok, eq-ok_of_is_ok,
}
use containerlab.Base.Lists.{length, length-append, elem, Distinct, elem-append, slice}
use containerlab.Base.GoMap.{
  GoMap, lookup, insert, keys, lookup-insert, elem-keys-insert, lookup-eq-none,
}

-- The part of a node's configuration that is changed.
pub record RestoredNode : Type 0 where
  pub short_name : String
  pub binds : List String
  pub env : Option (GoMap String)

-- The file system: whether clabutils.FileExists finds a file, whether os.Stat says that a path does
-- not exist, filepath.Join, and filepath.Abs, which may return an error.
pub record SnapshotFiles : Type 0 where
  pub file_exists : String → Bool
  pub is_not_exist : String → Bool
  pub join : String → String → String
  pub abs : String → Option String

-- The volume mount and the variable of a node that is restored.
unfoldable pub with_snapshot : RestoredNode → String → RestoredNode
with_snapshot node abs_path = record node {
  binds = node.binds ++ (◌++s◌ abs_path ":/snapshot.tar:ro") ∷ [];
  env = some (insert "RESTORE_SNAPSHOT" "1" (elim node.env [ none ↦ [] | some env ↦ env ]));
}

-- The body of the loop over the nodes, with what resolveNodeSnapshot returned.
unfoldable pub restore_node : SnapshotFiles → RestoredNode → Option String → Outcome RestoredNode
unfolding with_snapshot
restore_node files node none = ok node
restore_node files node (some path) =
    if files.is_not_exist path then fail Error.snapshot_not_found else elim (files.abs path) [
      | none ↦ fail Error.path_failed
      | some abs_path ↦ ok (with_snapshot node abs_path)
    ]

-- The nodes behind one that failed stay as they are, and those before it keep their changes.
unfoldable pub restored_first :
    RestoredNode
    → List RestoredNode
    → Outcome RestoredNode
    → Outcome (Unit {0}) × List RestoredNode
    → Outcome (Unit {0}) × List RestoredNode
restored_first node nodes (ok changed) (result, others) = (result, changed ∷ others)
restored_first node nodes (fail e) rest = (fail e, node ∷ nodes)
restored_first node nodes panic rest = (panic, node ∷ nodes)

-- The loop over the nodes.
unfoldable pub restore_nodes :
    SnapshotFiles
    → GoMap String
    → String
    → List RestoredNode
    → Outcome (Unit {0}) × List RestoredNode
unfolding restored_first restore_node resolve_node_snapshot
restore_nodes files restore_map restore_all [] = (ok tt, [])
restore_nodes files restore_map restore_all (node ∷ nodes) =
    let path =
      resolve_node_snapshot files.file_exists files.join node.short_name restore_map restore_all in
    restored_first node nodes (restore_node files node path)
      (restore_nodes files restore_map restore_all nodes)

-- configureSnapshotRestore, with the nodes as it leaves them.
unfoldable pub configure_snapshot_restore :
    SnapshotFiles
    → List String
    → String
    → List RestoredNode
    → Outcome (Unit {0}) × List RestoredNode
unfolding restore_nodes restore_loop
configure_snapshot_restore files mappings restore_all nodes = elim (restore_loop [] mappings) [
  | ok restore_map ↦ restore_nodes files restore_map restore_all nodes
  | fail e ↦ (fail e, nodes)
  | panic ↦ (panic, nodes)
]
