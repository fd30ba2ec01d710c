-- ===== src/Utils/Env.antt =====
-- utils/env.go: merging of string maps and string slices. A map or a slice that may be nil is an
-- Option: nil and empty are told apart by the code.
pub mod Maps
pub mod Slices
use containerlab.Base.{
  ℕ, ◌+◌, String, Bool, true, false, Option, none, some, List, [], ◌∷◌, ◌++◌, str_eq, if◌then◌else◌,
}
use containerlab.Base.Lists.{elem, slice}
use containerlab.Base.GoMap.{GoMap, insert}

-- for k, v := range m { res[k] = v }
unfoldable pub range_into : GoMap String → GoMap String → GoMap String
range_into [] res = res
range_into ((k, v) ∷ m) res = range_into m (insert k v res)

-- The loop of MergeStringMaps, with `res` and `nonNilMapSeen`.
unfoldable pub merge_string_maps_loop :
    List (Option (GoMap String)) → GoMap String → Bool → Option (GoMap String)
unfolding range_into
merge_string_maps_loop [] res non_nil_map_seen = if non_nil_map_seen then some res else none
merge_string_maps_loop (none ∷ maps) res non_nil_map_seen =
    merge_string_maps_loop maps res non_nil_map_seen
merge_string_maps_loop (some m ∷ maps) res non_nil_map_seen =
    merge_string_maps_loop maps (range_into m res) true

unfoldable pub merge_string_maps : List (Option (GoMap String)) → Option (GoMap String)
unfolding merge_string_maps_loop
merge_string_maps maps = merge_string_maps_loop maps [] false

-- The first loop of MergeStringSlices: `res` and `allNils`.
unfoldable pub concat_loop : List (Option (List String)) → List String → Bool → List String × Bool
concat_loop [] res all_nils = (res, all_nils)
concat_loop (none ∷ ss) res all_nils = concat_loop ss res all_nils
concat_loop (some s ∷ ss) res all_nils = concat_loop ss (res ++ s) false

-- The second loop: `m` holds the values seen so far.
unfoldable pub uniques_loop : List String → List String → List String → List String
uniques_loop [] m uniques = uniques
uniques_loop (val ∷ res) m uniques =
    uniques_loop res (if elem val m then m else val ∷ m)
      (if elem val m then uniques else uniques ++ val ∷ [])

unfoldable pub merge_string_slices : List (Option (List String)) → Option (List String)
unfolding concat_loop uniques_loop
merge_string_slices ss =
    let (res, all_nils) = concat_loop ss [] true in
    if all_nils then none else some (uniques_loop res [] [])

unfoldable pub string_in_slice_from : ℕ → List String → String → Option ℕ
string_in_slice_from i [] val = none
string_in_slice_from i (item ∷ slice) val =
    if str_eq item val then some i else string_in_slice_from (i + 1) slice val

-- The index of the first occurrence. The pair (-1, false) of the code is `none`.
unfoldable pub string_in_slice : List String → String → Option ℕ
unfolding string_in_slice_from
string_in_slice slice val = string_in_slice_from 0 slice val
