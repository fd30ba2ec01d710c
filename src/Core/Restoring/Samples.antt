-- ===== src/Core/Restoring/Samples.antt =====
-- Runs of the restoration of snapshots.
use containerlab.Core.Restoring.{RestoredNode, SnapshotFiles}
use Prim.Native.String.{◌++◌ as ◌++s◌}
use containerlab.Base.{true, none, some, [], str_eq}

abbrev files : SnapshotFiles
files = record {
  file_exists = λ p. true;
  is_not_exist = λ p. str_eq p "lost.tar";
  join = λ d f. ◌++s◌ d (◌++s◌ "/" f);
  abs = λ p. some (◌++s◌ "/" p);
}

abbrev node_a : RestoredNode
node_a = record { short_name = "a"; binds = []; env = none }
