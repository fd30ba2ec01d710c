-- ===== src/Links/Texts.antt =====
-- The texts of endpoints, split at their colon.
use Prim.Native.Char.{Char, code}
use Prim.Native.String.append
use Prim.Native.String.{◌++◌ as ◌++s◌}
use containerlab.Types.Text.{split_n2}
use containerlab.Types.Bind.{colon_join}
use containerlab.Types.Bind.RoundTrip.{NoColon}
use containerlab.Base.{
  ℕ, String, ◌≡◌, refl, ap, ◌∙◌, ◌≢◌, Bool, false, ◌||◌, some, arith, ltb, ◌==◌,
}

split_n2-cons :
    (c : Char) (s : String)
    → code c ≢ b':'
    → split_n2 b':' (String.◌∷◌ c s) ≡ (String.◌∷◌ c (split_n2 b':' s).0, (split_n2 b':' s).1)
unfolding split_n2
split_n2-cons c s h = ground arith

split_n2-colon : (t : String) → split_n2 b':' (◌++s◌ ":" t) ≡ ("", some t)
unfolding split_n2
split_n2-colon t =
    ap (split_n2 b':') (append.cons ":" String.[] t ∙ ap (String.◌∷◌ ":") (append.nil t))

pub split_n2-colon_join : (s t : String) → NoColon s → split_n2 b':' (colon_join s t) ≡ (s, some t)
split_n2-colon_join String.[] t h = ap (split_n2 b':') (append.nil (◌++s◌ ":" t)) ∙ split_n2-colon t
split_n2-colon_join (String.◌∷◌ c s) t h =
    ap (split_n2 b':') (append.cons c s (◌++s◌ ":" t))
    ∙ split_n2-cons c (colon_join s t) h.0
    ∙ cc (split_n2-colon_join s t h.1)

pub none_below_zero : (n : ℕ) → ltb n 0 ≡ false
none_below_zero n = ground arith

abbrev pub has_colon : String → Bool
has_colon String.[] = false
has_colon (String.◌∷◌ c s) = (code c == b':') || has_colon s

pub NoColon-has_colon : (s : String) → has_colon s ≡ false → NoColon s
NoColon-has_colon String.[] h = tt
NoColon-has_colon (String.◌∷◌ c s) h =
    (λ e. ground (arith, h, e), NoColon-has_colon s (ground (arith, h)))

pub NoColon-host : NoColon "host"
NoColon-host = NoColon-has_colon "host" refl

pub NoColon-macvlan : NoColon "macvlan"
NoColon-macvlan = NoColon-has_colon "macvlan" refl

pub NoColon-mgmt_net : NoColon "mgmt-net"
NoColon-mgmt_net = NoColon-has_colon "mgmt-net" refl
