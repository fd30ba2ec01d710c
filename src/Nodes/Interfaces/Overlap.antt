-- ===== src/Nodes/Interfaces/Overlap.antt =====
-- CheckInterfaceOverlap accepts a node whose endpoints have different interface names.
use containerlab.Base.{
  ℕ, String, ◌≡◌, refl, sym, ap, ◌∙◌, subst, ◌↔◌, inl, inr, false, List, [], ◌∷◌, ◌++◌, arith,
  eq_iff, Bool-cases, ok, is_ok,
}
use containerlab.Nodes.Interfaces.{overlap_loop, overlaps_seen, check_interface_overlap}
use containerlab.Links.Ownership.Invariant.{Apart-append, named, Apart, named-append}
use containerlab.Links.Store.{Endpoint, Store}
use containerlab.Links.Parking.Emptied.{append_nil}
use mathlib.Core.List.{append_assoc}

overlaps_seen-named :
    (endpoint : ℕ → Endpoint) (name : String) (es : List ℕ)
    → overlaps_seen endpoint name es ≡ named endpoint name es
unfolding overlaps_seen
overlaps_seen-named endpoint name [] = refl
overlaps_seen-named endpoint name (e ∷ es) = ground (
  arith,
  overlaps_seen-named endpoint name es,
  eq_iff name (endpoint e).iface_name,
  eq_iff (endpoint e).iface_name name,
)

-- In a list without repeated names, a name does not stand before its endpoint.
Apart-before :
    (endpoint : ℕ → Endpoint) (es : List ℕ) (e : ℕ) (os : List ℕ)
    → Apart endpoint (es ++ (e ∷ os))
    → named endpoint (endpoint e).iface_name es ≡ false
Apart-before endpoint [] e os a = refl
Apart-before endpoint (o ∷ es) e os (new, a) = ground (
  arith,
  Apart-before endpoint es e os a,
  new,
  named-append endpoint (endpoint o).iface_name es (e ∷ os),
  eq_iff (endpoint o).iface_name (endpoint e).iface_name,
  eq_iff (endpoint e).iface_name (endpoint o).iface_name,
)

overlap_loop-Apart :
    (endpoint : ℕ → Endpoint) (seen es : List ℕ)
    → Apart endpoint seen
    → overlap_loop endpoint seen es ≡ ok tt
    → Apart endpoint (seen ++ es)
unfolding overlap_loop
overlap_loop-Apart endpoint seen [] a h = subst (Apart endpoint) (sym (append_nil seen)) a
overlap_loop-Apart endpoint seen (e ∷ es) a h =
    elim (Bool-cases (overlaps_seen endpoint (endpoint e).iface_name seen)) [
      | inl seen_before ↦ absurd (ground (arith, seen_before, ap is_ok h))
      | inr fresh ↦
          let free = sym (overlaps_seen-named endpoint (endpoint e).iface_name seen) ∙ fresh in
          subst (Apart endpoint) (append_assoc seen (e ∷ []) es) (
            overlap_loop-Apart endpoint (seen ++ (e ∷ [])) es (Apart-append endpoint e seen a free)
              (ground (arith, fresh, h)))
    ]

Apart-overlap_loop :
    (endpoint : ℕ → Endpoint) (seen es : List ℕ)
    → Apart endpoint (seen ++ es)
    → overlap_loop endpoint seen es ≡ ok tt
unfolding overlap_loop
Apart-overlap_loop endpoint seen [] a = refl
Apart-overlap_loop endpoint seen (e ∷ es) a =
    let fresh =
      overlaps_seen-named endpoint (endpoint e).iface_name seen
      ∙ Apart-before endpoint seen e es a in
    rw fresh (
      Apart-overlap_loop endpoint (seen ++ (e ∷ [])) es
        (subst (Apart endpoint) (sym (append_assoc seen (e ∷ []) es)) a))

module _ {S : Type 0} where
  -- CheckInterfaceOverlap accepts a node if and only if no two of its endpoints have one interface
  -- name.
  pub check_interface_overlap_lem :
      (s : Store S) (n : ℕ) → (check_interface_overlap s n ≡ ok tt) ↔ Apart s.endpoint (s.owned n)
  unfolding check_interface_overlap
  check_interface_overlap_lem s n = (
    overlap_loop-Apart s.endpoint [] (s.owned n) tt,
    Apart-overlap_loop s.endpoint [] (s.owned n),
  )
