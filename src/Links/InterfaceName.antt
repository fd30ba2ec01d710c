-- ===== src/Links/InterfaceName.antt =====
-- links/link.go: SanitizeInterfaceName and IsValidInterfaceName, on texts that are valid UTF-8.
use Prim.Native.Char.{Char, code, len_utf8, len_utf8_def}
use Prim.Native.Nat.{compare, Ordering}
use containerlab.Base.{
  ℕ, ◌+◌, String, ◌≡◌, refl, sym, ap, ◌∙◌, inl, inr, Bool, true, false, not, ◌&&◌, ◌||◌, arith,
  str_eq, eq_iff, ltb, leb, ◌==◌, if◌then◌else◌, Bool-cases,
}

-- len(s), the number of bytes.
unfoldable pub byte_length : String → ℕ
byte_length String.[] = 0
byte_length (String.◌∷◌ c s) = len_utf8 c + byte_length s

abbrev is_bad : ℕ → Bool
is_bad c = (c == b'/') || (c == b' ')

unfoldable pub sanitize_interface_name : String → String
sanitize_interface_name String.[] = String.[]
sanitize_interface_name (String.◌∷◌ c iface_name) =
    if is_bad (code c)
    then String.◌∷◌ "-" (sanitize_interface_name iface_name)
    else String.◌∷◌ c (sanitize_interface_name iface_name)

-- strings.ContainsAny(s, " /")
unfoldable pub has_space_or_slash : String → Bool
has_space_or_slash String.[] = false
has_space_or_slash (String.◌∷◌ c s) = is_bad (code c) || has_space_or_slash s

unfoldable pub is_valid_interface_name : String → Bool
unfolding byte_length has_space_or_slash
is_valid_interface_name iface_name =
    if ltb 15 (byte_length iface_name)
    then false
    else if has_space_or_slash iface_name
    then false
    else true

bad_width : (c : Char) → is_bad (code c) ≡ true → len_utf8 c ≡ 1
bad_width c h =
    let short : compare (code c) 128 ≡ Ordering.lt = ground (arith, h) in
    len_utf8_def c ∙ rw short refl

byte_length-sanitize : (s : String) → byte_length (sanitize_interface_name s) ≡ byte_length s
unfolding byte_length sanitize_interface_name
byte_length-sanitize String.[] = refl
byte_length-sanitize (String.◌∷◌ c s) = elim (Bool-cases (is_bad (code c))) [
  | inl bad ↦ rw bad (omega (arith, byte_length-sanitize s, bad_width c bad))
  | inr good ↦ rw good (omega (arith, byte_length-sanitize s))
]

clean-sanitize : (s : String) → has_space_or_slash (sanitize_interface_name s) ≡ false
unfolding has_space_or_slash sanitize_interface_name
clean-sanitize String.[] = refl
clean-sanitize (String.◌∷◌ c s) = elim (Bool-cases (is_bad (code c))) [
  | inl bad ↦ rw bad (clean-sanitize s)
  | inr good ↦ rw good (rw good (clean-sanitize s))
]

unchanged : (s : String) → has_space_or_slash s ≡ false → sanitize_interface_name s ≡ s
unfolding has_space_or_slash sanitize_interface_name
unchanged String.[] h = refl
unchanged (String.◌∷◌ c s) h = elim (Bool-cases (is_bad (code c))) [
  | inl bad ↦ absurd (ground (arith, h, bad))
  | inr good ↦ rw good (ap (String.◌∷◌ c) (unchanged s (ground (arith, h, good))))
]

changed-sanitize : (s : String) → str_eq (sanitize_interface_name s) s ≡ not (has_space_or_slash s)
changed-sanitize s = elim (Bool-cases (has_space_or_slash s)) [
  | inr clean ↦ rw clean ((eq_iff (sanitize_interface_name s) s).1 (unchanged s clean))
  | inl bad ↦ elim (Bool-cases (str_eq (sanitize_interface_name s) s)) [
    | inr other ↦ other ∙ sym (ap not bad)
    | inl same ↦ absurd (cc ((eq_iff (sanitize_interface_name s) s).0 same, clean-sanitize s, bad))
  ]
]

-- The name of an interface is valid exactly when it has at most 15 bytes and sanitizing it changes
-- nothing, and a sanitized name is valid exactly when the name had at most 15 bytes.
pub is_valid-sanitize :
    (s : String)
    → (is_valid_interface_name s ≡ (leb (byte_length s) 15 && str_eq (sanitize_interface_name s) s))
      × (is_valid_interface_name (sanitize_interface_name s) ≡ leb (byte_length s) 15)
unfolding is_valid_interface_name
is_valid-sanitize s =
    (ground (arith, changed-sanitize s), ground (arith, byte_length-sanitize s, clean-sanitize s))
