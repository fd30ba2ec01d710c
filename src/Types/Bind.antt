-- ===== src/Types/Bind.antt =====
-- types/bind.go: bind mounts and their texts.
pub mod RoundTrip
use Prim.Native.String.{◌++◌ as ◌++s◌}
use containerlab.Types.Text.{split}
use containerlab.Base.{
  ◌+◌, String, List, [], ◌∷◌, ◌++◌, str_eq, if◌then◌else◌, Error, Outcome, ok, fail,
}

pub record Bind : Type 0 where
  pub src : String
  pub dst : String
  pub mode : String

-- NewBindFromString, on the parts between the colons.
unfoldable pub bind_of_parts : String → List String → Outcome Bind
bind_of_parts first [] = ok (record { src = ""; dst = first; mode = "" })
bind_of_parts first (second ∷ []) = ok (record { src = first; dst = second; mode = "" })
bind_of_parts first (second ∷ third ∷ []) = ok (record { src = first; dst = second; mode = third })
bind_of_parts first (second ∷ third ∷ fourth ∷ parts) = fail Error.unable_to_parse_bind

unfoldable pub new_bind_from_string : String → Outcome Bind
unfolding bind_of_parts split
new_bind_from_string bind = let (first, parts) = split b':' bind in bind_of_parts first parts

-- fmt.Sprintf("%s:%s", a, b)
abbrev pub colon_join : String → String → String
colon_join a b = ◌++s◌ a (◌++s◌ ":" b)

-- Bind.String
unfoldable pub bind_string : Bind → String
bind_string b =
    let s = if str_eq b.src "" then b.dst else colon_join b.src b.dst in
    if str_eq b.mode "" then s else colon_join s b.mode

-- Binds.ToStringSlice
unfoldable pub to_string_slice : List Bind → List String
unfolding bind_string
to_string_slice [] = []
to_string_slice (bind ∷ b) = bind_string bind ∷ to_string_slice b
