-- ===== src/Types/Bind/RoundTrip.antt =====
-- A bind mount, printed and parsed again.
use Prim.Native.Char.{Char, code}
use Prim.Native.String.append
use text.Mathlib.TextLemmas.{append_assoc}
use Prim.Native.String.{◌++◌ as ◌++s◌}
use containerlab.Types.Text.{split}
use containerlab.Types.Bind.{Bind, new_bind_from_string, bind_string, colon_join}
use containerlab.Base.{String, ◌≡◌, refl, ap, ◌∙◌, ◌≢◌, ◌⊎◌, [], ◌∷◌, arith, eq_iff, Outcome, ok}

-- The text holds no colon.
abbrev pub NoColon : String → Type 0
NoColon String.[] = Unit
NoColon (String.◌∷◌ c s) = (code c ≢ b':') × NoColon s

split-cons :
    (c : Char) (s : String)
    → code c ≢ b':'
    → split b':' (String.◌∷◌ c s) ≡ (String.◌∷◌ c (split b':' s).0, (split b':' s).1)
unfolding split
split-cons c s h = ground arith

split-colon : (s : String) → split b':' (◌++s◌ ":" s) ≡ ("", (split b':' s).0 ∷ (split b':' s).1)
unfolding split
split-colon s = ap (split b':') (append.cons ":" String.[] s ∙ ap (String.◌∷◌ ":") (append.nil s))

split-NoColon : (s : String) → NoColon s → split b':' s ≡ (s, [])
unfolding split
split-NoColon String.[] h = refl
split-NoColon (String.◌∷◌ c s) h = split-cons c s h.0 ∙ cc (split-NoColon s h.1)

split-colon_join :
    (s t : String)
    → NoColon s
    → split b':' (colon_join s t) ≡ (s, (split b':' t).0 ∷ (split b':' t).1)
split-colon_join String.[] t h = ap (split b':') (append.nil (◌++s◌ ":" t)) ∙ split-colon t
split-colon_join (String.◌∷◌ c s) t h =
    ap (split b':') (append.cons c s (◌++s◌ ":" t))
    ∙ split-cons c (colon_join s t) h.0
    ∙ cc (split-colon_join s t h.1)

-- No part of the bind holds a colon.
pub record IsPlain (b : Bind) : Type 0 where
  pub src_plain : NoColon b.src
  pub dst_plain : NoColon b.dst
  pub mode_plain : NoColon b.mode

abbrev parsed : String → Outcome Bind
parsed = new_bind_from_string

parsed-one : (d : String) → NoColon d → parsed d ≡ ok (record { src = ""; dst = d; mode = "" })
unfolding new_bind_from_string
parsed-one d h = rw (split-NoColon d h, new_bind_from_string)

parsed-two :
    (s d : String)
    → NoColon s
    → NoColon d
    → parsed (colon_join s d) ≡ ok (record { src = s; dst = d; mode = "" })
unfolding new_bind_from_string
parsed-two s d hs hd = rw (split-colon_join s d hs, new_bind_from_string) (rw (split-NoColon d hd))

colon_join_assoc : (s d m : String) → colon_join (colon_join s d) m ≡ colon_join s (colon_join d m)
colon_join_assoc s d m =
    append_assoc s (◌++s◌ ":" d) (◌++s◌ ":" m) ∙ ap (◌++s◌ s) (append_assoc ":" d (◌++s◌ ":" m))

parsed-three :
    (s d m : String)
    → NoColon s
    → NoColon d
    → NoColon m
    → parsed (colon_join (colon_join s d) m) ≡ ok (record { src = s; dst = d; mode = m })
unfolding new_bind_from_string
parsed-three s d m hs hd hm =
    rw (colon_join_assoc s d m, split-colon_join s (colon_join d m) hs, new_bind_from_string)
      (rw (split-colon_join d m hd) (rw (split-NoColon m hm)))

-- A bind whose parts hold no colon, and which has a source if it has a mode, is read back from its
-- text as it was.
pub new_bind_from_string-bind_string :
    (b : Bind)
    → IsPlain b
    → ((b.src ≢ "") ⊎ (b.mode ≡ ""))
    → new_bind_from_string (bind_string b) ≡ ok b
unfolding bind_string
new_bind_from_string-bind_string b h c = ground (
  arith,
  eq_iff b.src "",
  eq_iff b.mode "",
  parsed-one b.dst h.dst_plain,
  parsed-two b.src b.dst h.src_plain h.dst_plain,
  parsed-three b.src b.dst b.mode h.src_plain h.dst_plain h.mode_plain,
)

-- A bind with a mode and no source is read back with its destination as the source and its mode as
-- the destination.
pub bind_string_loses_empty_source :
    (b : Bind)
    → IsPlain b
    → b.src ≡ ""
    → b.mode ≢ ""
    → new_bind_from_string (bind_string b) ≡ ok (record { src = b.dst; dst = b.mode; mode = "" })
unfolding bind_string
bind_string_loses_empty_source b h e ne =
    ground
      (arith, eq_iff b.src "", eq_iff b.mode "", parsed-two b.dst b.mode h.dst_plain h.mode_plain)
