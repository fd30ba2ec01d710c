-- ===== src/Types/Text.antt =====
-- strings.TrimSpace, strings.ToLower and strings.SplitN, as the types package uses them.
use Prim.Native.Char.{Char, code}
use containerlab.Base.{
  ℕ, ◌+◌, String, ◌≡◌, refl, Bool, true, false, ◌&&◌, ◌||◌, Option, none, some, List, [], ◌∷◌, map,
  leb, ◌==◌, if◌then◌else◌,
}

-- unicode.IsSpace
pub is_space : ℕ → Bool
is_space c =
    (leb 9 c && leb c 13)
    || (c == 0x20)
    || (c == 0x85)
    || (c == 0xA0)
    || (c == 0x1680)
    || (leb 0x2000 c && leb c 0x200A)
    || (c == 0x2028)
    || (c == 0x2029)
    || (c == 0x202F)
    || (c == 0x205F)
    || (c == 0x3000)

pub trim_left : String → String
unfolding is_space
trim_left String.[] = String.[]
trim_left (String.◌∷◌ c s) = if is_space (code c) then trim_left s else String.◌∷◌ c s

-- The character is dropped if it is white and nothing is left behind it.
pub snoc_trimmed : Char → String → String
unfolding is_space
snoc_trimmed c String.[] = if is_space (code c) then String.[] else String.◌∷◌ c String.[]
snoc_trimmed c (String.◌∷◌ d s) = String.◌∷◌ c (String.◌∷◌ d s)

pub trim_right : String → String
unfolding snoc_trimmed
trim_right String.[] = String.[]
trim_right (String.◌∷◌ c s) = snoc_trimmed c (trim_right s)

-- strings.TrimSpace
unfoldable pub trim_space : String → String
unfolding trim_left trim_right
trim_space s = trim_right (trim_left s)

-- The code points of a text.
abbrev pub codes : String → List ℕ
codes String.[] = []
codes (String.◌∷◌ c s) = code c ∷ codes s

-- unicode.ToLower, where its result is ASCII: the capital letters, the dotted capital I and the
-- Kelvin sign. Other characters stay as they are: their lower case is not ASCII either, and the
-- code compares the result with ASCII texts only.
unfoldable pub to_lower : ℕ → ℕ
to_lower c =
    if leb b'A' c && leb c b'Z'
    then c + 32
    else if c == 0x130
    then b'i'
    else if c == 0x212A
    then b'k'
    else c

abbrev pub codes_eq : List ℕ → List ℕ → Bool
codes_eq [] [] = true
codes_eq (x ∷ xs) (y ∷ ys) = (x == y) && codes_eq xs ys
codes_eq _ _ = false

-- strings.TrimSpace(strings.ToLower(s)) == t, for an ASCII text t
unfoldable pub folds_to : String → String → Bool
unfolding trim_space to_lower
folds_to s t = codes_eq (map to_lower (codes (trim_space s))) (codes t)

-- strings.SplitN(s, sep, 2): the part before the first separator, and the part behind it if the
-- separator occurs.
unfoldable pub split_n2 : ℕ → String → String × Option String
split_n2 sep String.[] = (String.[], none)
split_n2 sep (String.◌∷◌ c s) =
    let (before, after) = split_n2 sep s in
    if code c == sep then (String.[], some s) else (String.◌∷◌ c before, after)

-- strings.Split(s, sep): the first part, and the parts behind it.
unfoldable pub split : ℕ → String → String × List String
split sep String.[] = (String.[], [])
split sep (String.◌∷◌ c s) =
    let (part, parts) = split sep s in
    if code c == sep then (String.[], part ∷ parts) else (String.◌∷◌ c part, parts)

trim_example : trim_space " a b\t " ≡ "a b"
unfolding trim_space
trim_example = refl

split_n2_example : split_n2 b'=' "K=a=b" ≡ ("K", some "a=b")
unfolding split_n2
split_n2_example = refl

split_example : split b':' "a:b::c" ≡ ("a", "b" ∷ "" ∷ "c" ∷ [])
unfolding split
split_example = refl

folds_to_example : folds_to " Always " "always" ≡ true
unfolding folds_to
folds_to_example = refl
