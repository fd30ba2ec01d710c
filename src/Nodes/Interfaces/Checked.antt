-- ===== src/Nodes/Interfaces/Checked.antt =====
-- The nodes own the endpoints that AddEndpoint added and the checks on interfaces accepted.
use containerlab.Base.{
  ℕ, ◌<◌, String, ◌≡◌, refl, sym, ◌∙◌, subst, ◌⊎◌, inl, inr, true, false, Option, none, some, [],
  ◌∷◌, arith, ◌==◌, Bool-cases, Outcome, ok, fail, panic,
}
use containerlab.Nodes.Interfaces.{
  add_endpoint, Regexp, match_string, get_mapped_interface_name, set_names, attach_endpoint,
  InterfaceAliasing, check_interface_overlap,
}
use containerlab.Links.Ownership.Invariant.{has-append, Owned}
use containerlab.Links.Store.{and_then, update, Store}
use containerlab.Links.Ownership.Moving.{some_inj}
use containerlab.Links.Ownership.{append_endpoint, has}
use containerlab.Nodes.Interfaces.Overlap.{check_interface_overlap_lem}

-- The endpoints in the lists of the nodes name these nodes as their own. Names may still overlap.
pub record Attached {S : Type 0} (s : Store S) : Type 0 where
  pub owner : (n e : ℕ) → has e (s.owned n) ≡ true → (s.endpoint e).node ≡ some n
  pub allocated : (n e : ℕ) → has e (s.owned n) ≡ true → e < s.next_endpoint

module _ {S : Type 0} where
  -- Once every node has passed CheckInterfaceOverlap, the objects agree on who owns an endpoint.
  pub checked-Owned :
      (s : Store S) → Attached s → ((n : ℕ) → check_interface_overlap s n ≡ ok tt) → Owned s
  checked-Owned s i checked = record {
    owner = i.owner;
    apart = λ n. (check_interface_overlap_lem s n).0 (checked n);
    allocated = i.allocated;
  }

  attach_endpoint-Attached :
      (s : Store S) (n e : ℕ)
      → Attached s
      → e < s.next_endpoint
      → ((s.endpoint e).node ≡ none) ⊎ ((s.endpoint e).node ≡ some n)
      → Attached (attach_endpoint n e s).1
  unfolding attach_endpoint append_endpoint update
  attach_endpoint-Attached s n e i old place = record {
    owner = λ m x h. elim (Bool-cases (x == e)) [
      | inl same ↦
          let eq : x ≡ e = ground (arith, same) in
          elim (Bool-cases (m == n)) [
            | inl here ↦ let at : m ≡ n = ground (arith, here) in rw (eq, at) new_owner
            | inr away ↦
                let held : has e (s.owned m) ≡ true =
                  subst (λ k. has k (s.owned m) ≡ true) eq (ground (arith, h, away)) in
                absurd (ground (arith, away, elsewhere m (i.owner m e held) place))
          ]
      | inr other ↦ rw other (i.owner m x (before m x h other))
    ];
    allocated = λ m x h. elim (Bool-cases (x == e)) [
      | inl same ↦ let eq : x ≡ e = ground (arith, same) in rw eq old
      | inr other ↦ i.allocated m x (before m x h other)
    ];
  }
    where
      elsewhere :
          (m : ℕ)
          → (s.endpoint e).node ≡ some m
          → ((s.endpoint e).node ≡ none) ⊎ ((s.endpoint e).node ≡ some n)
          → m ≡ n
      elsewhere m owner (inl nil) = cc
      elsewhere m owner (inr here) = some_inj m n (sym owner ∙ here)

      placed :
          (o : Option ℕ)
          → (o ≡ none) ⊎ (o ≡ some n)
          → elim o as (λ _. Option ℕ) [ none ↦ some n | some k ↦ some k ] ≡ some n
      placed none _ = refl
      placed (some k) (inl nil) = cc
      placed (some k) (inr here) = here

      new_owner : ((attach_endpoint n e s).1.endpoint e).node ≡ some n
      new_owner = ground (arith, placed (s.endpoint e).node place)

      before :
          (m x : ℕ)
          → has x ((attach_endpoint n e s).1.owned m) ≡ true
          → (x == e) ≡ false
          → has x (s.owned m) ≡ true
      before m x h other = elim (Bool-cases (m == n)) [
        | inl here ↦
            let at : m ≡ n = ground (arith, here) in
            rw at (ground (arith, h, here, other, has-append x (s.owned n) (e ∷ [])))
        | inr away ↦ ground (arith, h, away)
      ]

  set_names-Attached :
      (s : Store S) (e : ℕ) (mapped : String) → Attached s → Attached (set_names e mapped s).1
  unfolding set_names update
  set_names-Attached s e mapped i = record {
    owner = λ m x h. elim (Bool-cases (x == e)) [
      | inl same ↦ let eq : x ≡ e = ground (arith, same) in rw (same, ← eq) (i.owner m x h)
      | inr other ↦ rw other (i.owner m x h)
    ];
    allocated = i.allocated;
  }

  node-set_names :
      (s : Store S) (e : ℕ) (mapped : String)
      → ((set_names e mapped s).1.endpoint e).node ≡ (s.endpoint e).node
  unfolding set_names update
  node-set_names s e mapped = ground arith

  -- AddEndpoint of an endpoint that was allocated and that names either no node or the node it is
  -- added to (AddEndpoint itself does not check it) keeps every endpoint that is in the list of a
  -- node with that node as its own, also where the name of the interface is refused.
  add_endpoint-Attached :
      (d : InterfaceAliasing) (n e : ℕ) (s : Store S)
      → Attached s
      → e < s.next_endpoint
      → ((s.endpoint e).node ≡ none) ⊎ ((s.endpoint e).node ≡ some n)
      → Attached (add_endpoint d n e s).1
  unfolding add_endpoint and_then set_names
  add_endpoint-Attached d n e s i old place = by_regexp d.interface_regexp
    where
      mapping :
          (mapped : Outcome String)
          → Attached
              (and_then
                (mapped, s)
                λ name t. and_then (set_names e name t) λ _. attach_endpoint n e).1
      mapping (ok name) =
          attach_endpoint-Attached (set_names e name s).1 n e (set_names-Attached s e name i) old
            (rw (node-set_names s e name) place)
      mapping (fail error) = i
      mapping panic = i

      by_regexp :
          (o : Option Regexp) → Attached (add_endpoint (record d { interface_regexp = o }) n e s).1
      by_regexp none = attach_endpoint-Attached s n e i old place
      by_regexp (some r) = elim (Bool-cases (match_string r (s.endpoint e).iface_name)) [
        | inl matches ↦ rw matches (
            mapping (
              get_mapped_interface_name (record d { interface_regexp = some r }) r
                (s.endpoint e).iface_name))
        | inr other ↦ rw other (attach_endpoint-Attached s n e i old place)
      ]

-- The stores that calls of AddEndpoint lead to, from one where no node has an endpoint. An endpoint
-- that is added was allocated, and names either no node or the node it is added to.
pub data IsBuilt {S : Type 0} : Store S → Type 0 where
  fresh : {s : Store S} → ((n : ℕ) → s.owned n ≡ []) → IsBuilt s
  adds :
      {s : Store S} (d : InterfaceAliasing) (n e : ℕ)
      → IsBuilt s
      → e < s.next_endpoint
      → ((s.endpoint e).node ≡ none) ⊎ ((s.endpoint e).node ≡ some n)
      → IsBuilt (add_endpoint d n e s).1

built-Attached : {S : Type 0} (s : Store S) → IsBuilt s → Attached s
built-Attached s (fresh empty) = record {
  owner = λ n e held. absurd (ground (arith, rw (empty n) at held));
  allocated = λ n e held. absurd (ground (arith, rw (empty n) at held));
}
built-Attached _ (adds {s = s} d n e b old place) =
    add_endpoint-Attached d n e s (built-Attached s b) old place

-- A lab whose endpoints were added to its nodes by AddEndpoint, each of them one that was allocated and
-- named no node or that node (AddEndpoint itself checks neither), with the errors of the mapping of
-- names ignored or not, and in which CheckInterfaceOverlap then accepts every node, is one whose
-- objects agree on who owns an endpoint: an endpoint in the list of a node is allocated and names
-- this node as its own, and no two endpoints in the list have the same interface name.
pub built-Owned :
    {S : Type 0} (s : Store S)
    → IsBuilt s
    → ((n : ℕ) → check_interface_overlap s n ≡ ok tt)
    → Owned s
built-Owned s b checked = checked-Owned s (built-Attached s b) checked
