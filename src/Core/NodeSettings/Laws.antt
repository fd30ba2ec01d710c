-- ===== src/Core/NodeSettings/Laws.antt =====
-- What the settings of a node are.
use containerlab.Core.NodeSettings.{
  resolve_node_snapshot, dash_join, long_name, LabelSource, owner, git_labels, or_empty,
  add_default_labels, restore_loop,
}
use Prim.Native.String.{◌++◌ as ◌++s◌}
use text.Mathlib.TextLemmas.{append_cancel_left}
use containerlab.Types.Text.{split_n2}
use containerlab.Base.{
  String, ◌≡◌, refl, sym, ap, ◌∙◌, ◌⊎◌, inl, inr, Bool, true, false, not, ◌&&◌, Option, none, some,
  List, [], ◌∷◌, ◌++◌, arith, str_eq, if◌then◌else◌, Bool-cases, is_some, Error, ok, fail,
}
use containerlab.Base.GoMap.{GoMap, lookup, insert, lookup-insert}

dash_join-cancel : (a x y : String) → dash_join a x ≡ dash_join a y → x ≡ y
dash_join-cancel a x y h =
    append_cancel_left "-" x y (append_cancel_left a (◌++s◌ "-" x) (◌++s◌ "-" y) h)

-- createNodeCfg gives nodes of a lab with different names different long names, whatever the prefix
-- and the name of the lab. A kind may replace this name afterwards, as ext-container does, so that
-- nothing is said of those nodes.
pub long_name_injective :
    (prefix lab_name a b : String)
    → long_name prefix lab_name a ≡ long_name prefix lab_name b
    → a ≡ b
unfolding long_name
long_name_injective prefix lab_name a b h = elim (Bool-cases (str_eq prefix "")) [
  | inl empty ↦ rw empty at h
  | inr other ↦
      let h' = rw other at h in
      elim (Bool-cases (str_eq prefix "__lab-name")) [
        | inl lab ↦ dash_join-cancel lab_name a b (rw lab at h')
        | inr plain ↦
            dash_join-cancel lab_name a b (
              dash_join-cancel prefix (dash_join lab_name a) (dash_join lab_name b)
                (rw plain at h'))
      ]
]

-- The labels that are reserved.
abbrev pub reserved : LabelSource → GoMap String
reserved c =
    ("clab-owner", owner c)
    ∷ ("clab-topo-file", c.topology_file)
    ∷ ("clab-node-lab-dir", c.lab_dir)
    ∷ ("clab-node-group", c.group)
    ∷ ("clab-node-type", c.node_type)
    ∷ ("clab-node-kind", c.kind)
    ∷ ("clab-node-longname", c.node_long_name)
    ∷ ("clab-node-name", c.short_name)
    ∷ ("containerlab", c.lab_name)
    ∷ []

-- The labels that tell the state of the repository, as far as it is known.
abbrev pub known_state : LabelSource → GoMap String
known_state c =
    if str_eq c.git_branch "none"
    then []
    else if str_eq c.git_hash "none"
    then ("clab-git-branch", c.git_branch) ∷ []
    else ("clab-git-hash", c.git_hash) ∷ ("clab-git-branch", c.git_branch) ∷ []

-- Inserting entries one after the other is putting them in front.
insert_all : GoMap String → GoMap String → GoMap String
insert_all [] m = m
insert_all ((k, v) ∷ entries) m = insert k v (insert_all entries m)

lookup-insert_all :
    (k : String) (entries m : GoMap String)
    → lookup k (insert_all entries m) ≡ lookup k (entries ++ m)
unfolding insert_all lookup
lookup-insert_all k [] m = refl
lookup-insert_all k ((j, v) ∷ entries) m =
    lookup-insert j k v (insert_all entries m) ∙ ground (arith, lookup-insert_all k entries m)

lookup-append_same :
    (k : String) (xs a b : GoMap String)
    → lookup k a ≡ lookup k b
    → lookup k (xs ++ a) ≡ lookup k (xs ++ b)
unfolding lookup
lookup-append_same k [] a b h = h
lookup-append_same k ((j, v) ∷ xs) a b h = ground (arith, lookup-append_same k xs a b h)

git_labels-insert_all :
    (c : LabelSource) (m : GoMap String) → git_labels c m ≡ insert_all (known_state c) m
unfolding git_labels insert_all
git_labels-insert_all c m = ground arith

-- With the default labels added, each key has the value of the repository's state, else the reserved
-- value, and only else the value that the user has given it.
pub add_default_labels_lem :
    (c : LabelSource) (labels : Option (GoMap String)) (k : String)
    → lookup k (add_default_labels c labels)
      ≡ lookup k (known_state c ++ (reserved c ++ or_empty labels))
unfolding add_default_labels insert_all
add_default_labels_lem c labels k =
    ap (lookup k) (git_labels-insert_all c (insert_all (reserved c) (or_empty labels)))
    ∙ lookup-insert_all k (known_state c) (insert_all (reserved c) (or_empty labels))
    ∙ lookup-append_same k (known_state c) _ _ (lookup-insert_all k (reserved c) (or_empty labels))

-- A path that is known, or else that of a specification for the node.
abbrev pub or_this : Option String → String → String × Option String → Option String
or_this (some path) n parts = some path
or_this none n (node, path) = if str_eq node n then path else none

-- The path that the last specification for the node gives, if one does.
abbrev pub last_path : String → List String → Option String
last_path n [] = none
last_path n (mapping ∷ mappings) = or_this (last_path n mappings) n (split_n2 b'=' mapping)

-- Every specification holds an equals sign.
abbrev pub all_mappings : List String → Bool
all_mappings [] = true
all_mappings (mapping ∷ mappings) = is_some (split_n2 b'=' mapping).1 && all_mappings mappings

abbrev later_or : Option String → Option String → Option String
later_or (some x) o = some x
later_or none o = o

by_last :
    (n node p : String) (m : GoMap String) (o : Option String)
    → later_or o (lookup n (insert node p m)) ≡ later_or (or_this o n (node, some p)) (lookup n m)
by_last n node p m (some x) = refl
by_last n node p m none = lookup-insert node n p m ∙ ground arith

restore_loop-cases :
    (m : GoMap String) (mappings : List String)
    → ((all_mappings mappings ≡ true)
        × (r : GoMap String) × (restore_loop m mappings ≡ ok r)
        × ((n : String) → lookup n r ≡ later_or (last_path n mappings) (lookup n m)))
      ⊎ ((all_mappings mappings ≡ false) × (restore_loop m mappings ≡ fail Error.invalid_restore))
unfolding restore_loop
restore_loop-cases m [] = inl (refl, m, refl, λ n. refl)
restore_loop-cases m (mapping ∷ mappings) =
    by_parts (split_n2 b'=' mapping) refl (λ node p. restore_loop-cases (insert node p m) mappings)
  where
    by_parts :
        (parts : String × Option String)
        → split_n2 b'=' mapping ≡ parts
        → ((node p : String)
            → ((all_mappings mappings ≡ true)
                × (r : GoMap String) × (restore_loop (insert node p m) mappings ≡ ok r)
                × ((n : String)
                    → lookup n r ≡ later_or (last_path n mappings) (lookup n (insert node p m))))
              ⊎ ((all_mappings mappings ≡ false)
                  × (restore_loop (insert node p m) mappings ≡ fail Error.invalid_restore)))
        → ((all_mappings (mapping ∷ mappings) ≡ true)
            × (r : GoMap String) × (restore_loop m (mapping ∷ mappings) ≡ ok r)
            × ((n : String)
                → lookup n r ≡ later_or (last_path n (mapping ∷ mappings)) (lookup n m)))
          ⊎ ((all_mappings (mapping ∷ mappings) ≡ false)
              × (restore_loop m (mapping ∷ mappings) ≡ fail Error.invalid_restore))
    by_parts (node, none) e rest = inr (rw e refl, rw (e, restore_loop) refl)
    by_parts (node, some p) e rest = elim (rest node p) [
      | inr (bad, f) ↦ inr (rw e bad, rw (e, restore_loop) f)
      | inl (good, r, f, found) ↦ inl (
        rw e good,
        r,
        rw (e, restore_loop) f,
        λ n.
            found n
            ∙ by_last n node p m (last_path n mappings)
            ∙ ap (λ parts. later_or (or_this (last_path n mappings) n parts) (lookup n m)) (sym e),
      )
    ]

-- The specifications node=path are refused when one holds no equals sign. If all do, a node is
-- restored from the path that the last specification for it gives; a node without one from the file
-- with its name in the directory for all nodes, if there is a directory and the file exists; and
-- other nodes are not restored.
pub resolve_node_snapshot_lem :
    (exists : String → Bool) (join : String → String → String) (mappings : List String)
    (restore_all : String)
    → ((all_mappings mappings ≡ true)
        × (m : GoMap String) × (restore_loop [] mappings ≡ ok m)
        × ((n : String)
            → resolve_node_snapshot exists join n m restore_all ≡ elim (last_path n mappings) [
              | some path ↦ some path
              | none ↦
                  if not (str_eq restore_all "") && exists (join restore_all (◌++s◌ n ".tar"))
                  then some (join restore_all (◌++s◌ n ".tar"))
                  else none
            ]))
      ⊎ ((all_mappings mappings ≡ false) × (restore_loop [] mappings ≡ fail Error.invalid_restore))
unfolding resolve_node_snapshot lookup
resolve_node_snapshot_lem exists join mappings restore_all = elim (restore_loop-cases [] mappings) [
  | inr refused ↦ inr refused
  | inl (good, m, e, found) ↦ inl (good, m, e, λ n. ground (arith, found n))
]
