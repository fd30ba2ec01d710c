-- ===== src/Nodes/Interfaces/Mapping.antt =====
-- The name that an interface is mapped to, without wrap-around.
use containerlab.Nodes.Int64.{add64, sub64, sub64-add64, less64, atoi, decimal}
use Prim.Native.String.{◌++◌ as ◌++s◌}
use containerlab.Nodes.Interfaces.{
  Regexp, InterfaceAliasing, get_regexp_capture_groups, index_of_port, calculate_interface_index,
  mapped_name, get_mapped_interface_name,
}
use containerlab.Base.{
  ℕ, ◌+◌, ◌-◌, ◌^◌, ◌<◌, String, ◌≡◌, refl, inl, inr, some, arith, ltb, if◌then◌else◌, Bool-cases,
  Error, ok, fail,
}
use containerlab.Base.GoMap.{GoMap, lookup}

-- The index is out of bounds if and only if the port comes before the offset.
less64-index :
    (n offset first : ℕ)
    → n < 2 ^ 62
    → offset < 2 ^ 62
    → first < 2 ^ 62
    → less64 (add64 (sub64 n offset) first) first ≡ ltb n offset
less64-index n offset first small bound start = elim (Bool-cases (ltb n offset)) [
  | inl before ↦ rw before (ground (arith, small, bound, start, before))
  | inr after ↦ rw after (ground (arith, small, bound, start, after))
]

calculated :
    (d : InterfaceAliasing) (r : Regexp) (if_name port : String) (groups : GoMap String) (n : ℕ)
    → get_regexp_capture_groups r if_name ≡ ok groups
    → lookup "port" groups ≡ some port
    → atoi port ≡ ok n
    → calculate_interface_index d r if_name
      ≡ ok (add64 (sub64 n d.interface_offset) d.first_data_if_index)
unfolding calculate_interface_index index_of_port
calculated d r if_name port groups n captured named read =
    rw (captured, calculate_interface_index, named, index_of_port, read) refl

-- The port `n` of an interface, where it is not before the offset, is mapped to the prefix with the
-- number n - offset + first behind it, and refused otherwise: for numbers below 2^62 the arithmetic
-- of the program, which wraps around, gives the same as the one of numbers.
pub get_mapped_interface_name_lem :
    (d : InterfaceAliasing) (r : Regexp) (if_name port : String) (groups : GoMap String) (n : ℕ)
    → get_regexp_capture_groups r if_name ≡ ok groups
    → lookup "port" groups ≡ some port
    → atoi port ≡ ok n
    → n < 2 ^ 62
    → d.interface_offset < 2 ^ 62
    → d.first_data_if_index < 2 ^ 62
    → get_mapped_interface_name d r if_name ≡ (
        if ltb n d.interface_offset
        then fail Error.interface_out_of_bounds
        else ok (
            d.interface_mapped_prefix
            ++s decimal ((n - d.interface_offset) + d.first_data_if_index)))
unfolding get_mapped_interface_name mapped_name
get_mapped_interface_name_lem d r if_name port groups n captured named read small bound start =
    rw
      (
        calculated d r if_name port groups n captured named read,
        less64-index n d.interface_offset d.first_data_if_index small bound start,
      )
      (elim (Bool-cases (ltb n d.interface_offset)) [
        | inl before ↦ rw before refl
        | inr after ↦
            let exact =
              sub64-add64 n d.interface_offset d.first_data_if_index small (ground (arith, after))
                start in
            rw (after, exact) refl
      ])
