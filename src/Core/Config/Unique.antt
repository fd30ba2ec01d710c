-- ===== src/Core/Config/Unique.antt =====
-- verifyRootNetNSLinks and verifyDuplicateAddresses find exactly the repetitions.
use containerlab.Core.Config.{
  verify_duplicate_addresses, verify_addresses, RootEndpoint, LabNode, claim_endpoints,
  claim_node_endpoints, verify_root_net_ns_links, claim_address, claim_addresses,
}
use containerlab.Core.Config.Claims.{
  claim_all-then, claim_all, claim_all-append, claim_all-cases, Apart,
}
use mathlib.Core.Path.{fun_ext}
use containerlab.Base.{
  String, ◌≡◌, refl, sym, ap, ◌∙◌, subst, ◌⊎◌, inl, inr, true, false, ◌&&◌, Option, none, some,
  List, [], ◌∷◌, ◌++◌, arith, str_eq, eq_iff, if◌then◌else◌, Bool-cases, Error, Outcome, ok, fail,
  panic, ◌>>=◌,
}
use containerlab.Base.Lists.{Distinct}
use containerlab.Base.GoMap.{GoMap, lookup, insert, keys, lookup-insert}

-- The endpoints as claims on their names.
abbrev pub claims_of : List RootEndpoint → GoMap String
claims_of [] = []
claims_of (e ∷ endpoints) = (e.iface_name, e.node_name) ∷ claims_of endpoints

-- All endpoints that end in the root namespace, in the order of the checks.
abbrev pub root_claims : GoMap LabNode → GoMap String
root_claims [] = []
root_claims ((name, n) ∷ nodes) =
    (if n.is_root_namespace_based then claims_of n.endpoints else []) ++ root_claims nodes

claim_endpoints-claim_all :
    (names : GoMap String) (endpoints : List RootEndpoint)
    → claim_endpoints names endpoints
      ≡ claim_all Error.duplicate_root_endpoint names (claims_of endpoints)
unfolding claim_endpoints claim_all
claim_endpoints-claim_all names [] = refl
claim_endpoints-claim_all names (e ∷ endpoints) =
    by_found (lookup e.iface_name names)
      (claim_endpoints-claim_all (insert e.iface_name e.node_name names) endpoints)
  where
    by_found :
        {a b : Outcome (GoMap String)} (o : Option String)
        → a ≡ b
        → elim o [ some val ↦ fail Error.duplicate_root_endpoint | none ↦ a ]
          ≡ elim o [ some val ↦ fail Error.duplicate_root_endpoint | none ↦ b ]
    by_found (some val) h = refl
    by_found none h = h

claim_node_endpoints-claim_all :
    (names : GoMap String) (nodes : GoMap LabNode)
    → claim_node_endpoints names nodes
      ≡ claim_all Error.duplicate_root_endpoint names (root_claims nodes)
unfolding claim_node_endpoints claim_all
claim_node_endpoints-claim_all names [] = refl
claim_node_endpoints-claim_all names ((name, n) ∷ nodes) =
    elim (Bool-cases n.is_root_namespace_based) [
      | inr other ↦ rw other (claim_node_endpoints-claim_all names nodes)
      | inl root ↦ rw root (
          rw (claim_endpoints-claim_all names n.endpoints) (
            ap (λ k. claim_all Error.duplicate_root_endpoint names (claims_of n.endpoints) >>= k)
              (fun_ext (λ m. claim_node_endpoints-claim_all m nodes))
            ∙ sym (
                claim_all-append Error.duplicate_root_endpoint names (claims_of n.endpoints)
                  (root_claims nodes))))
    ]

-- What a check says: it accepts names without repetitions, and returns the error on others.
abbrev pub Checks : Error → Outcome (Unit {0}) → List String → Type 0
Checks error call l = ((call ≡ ok tt) × Distinct l) ⊎ ((call ≡ fail error) × ¬ Distinct l)

Apart-nil : {V : Type 0} (l : List String) → Apart {V = V} [] l
unfolding lookup
Apart-nil l x h = refl

-- A check that claims names from an empty map.
Checks-claim_all :
    {V : Type 0} (error : Error) (claims : List (String × V)) (call : Outcome (Unit {0}))
    → call ≡ (claim_all error [] claims >>= λ m. ok tt)
    → Checks error call (keys claims)
Checks-claim_all error claims call h = elim (claim_all-cases error [] claims) [
  | inl ((m, e), d, a) ↦ inl (h ∙ rw e refl, d)
  | inr (e, not_new) ↦ inr (h ∙ rw e refl, λ d. not_new (d, Apart-nil (keys claims)))
]

-- verifyRootNetNSLinks accepts a lab when, and only when, the interface names of the endpoints of its
-- nodes in the root namespace, of the host and of the management bridge are all different.
pub verify_root_net_ns_links_lem :
    (nodes : GoMap LabNode) (host_endpoints mgmt_br_endpoints : List RootEndpoint)
    → Checks Error.duplicate_root_endpoint
        (verify_root_net_ns_links nodes host_endpoints mgmt_br_endpoints)
        (keys ((root_claims nodes ++ claims_of host_endpoints) ++ claims_of mgmt_br_endpoints))
unfolding verify_root_net_ns_links
verify_root_net_ns_links_lem nodes host_endpoints mgmt_br_endpoints =
    Checks-claim_all Error.duplicate_root_endpoint
      ((root_claims nodes ++ claims_of host_endpoints) ++ claims_of mgmt_br_endpoints)
      (verify_root_net_ns_links nodes host_endpoints mgmt_br_endpoints)
      (rw (claim_node_endpoints-claim_all [] nodes) (
        claim_all-then Error.duplicate_root_endpoint [] (root_claims nodes)
          (claims_of host_endpoints)
          (λ names. claim_endpoints names host_endpoints >>= λ names'. last names') last
          (λ m. ap (λ c. c >>= last) (claim_endpoints-claim_all m host_endpoints))
        ∙ claim_all-then Error.duplicate_root_endpoint []
            (root_claims nodes ++ claims_of host_endpoints) (claims_of mgmt_br_endpoints) last
            (λ m. ok tt)
            (λ m. ap (λ c. c >>= λ x. ok tt) (claim_endpoints-claim_all m mgmt_br_endpoints))))
  where
    last : GoMap String → Outcome (Unit {0})
    last names = claim_endpoints names mgmt_br_endpoints >>= λ names'. ok tt

-- The static addresses of the nodes.
abbrev pub static_of : List String → GoMap (Unit {0})
static_of [] = []
static_of (ip ∷ ips) = if str_eq ip "" then static_of ips else (ip, tt) ∷ static_of ips

abbrev pub address_claims : GoMap LabNode → GoMap (Unit {0})
address_claims [] = []
address_claims ((name, node) ∷ nodes) =
    static_of (node.mgmt_ipv4_address ∷ node.mgmt_ipv6_address ∷ []) ++ address_claims nodes

claim_addresses-claim_all :
    (seen : GoMap (Unit {0})) (ips : List String)
    → lookup "" seen ≡ none
    → claim_addresses seen ips ≡ claim_all Error.duplicate_address seen (static_of ips)
unfolding claim_addresses claim_all
claim_addresses-claim_all seen [] h = refl
claim_addresses-claim_all seen (ip ∷ ips) h =
    let skipped = claim_addresses-claim_all seen ips h in
    let rest = claim_addresses-claim_all (insert ip tt seen) ips in
    elim (Bool-cases (str_eq ip "")) [
      | inl empty ↦
          let nothing : lookup ip seen ≡ none = rw ((eq_iff ip "").0 empty) h in
          rw (nothing, empty) skipped
      | inr static ↦ rw static (
          by_found (claim_addresses seen ips) (lookup ip seen)
            (rest (lookup-insert ip "" tt seen ∙ rw static h)))
    ]
  where
    by_found :
        {a b : Outcome (GoMap (Unit {0}))} (c : Outcome (GoMap (Unit {0}))) (o : Option (Unit {0}))
        → a ≡ b
        → claim_address o false c a
          ≡ elim o [ some other ↦ fail Error.duplicate_address | none ↦ b ]
    by_found c (some held) h = refl
    by_found c none h = h

-- The empty text is never claimed.
absent-claimed :
    (seen m : GoMap (Unit {0})) (ips : List String)
    → lookup "" seen ≡ none
    → claim_addresses seen ips ≡ ok m
    → lookup "" m ≡ none
unfolding claim_addresses
absent-claimed seen m [] h e = let same : seen ≡ m = cc in subst (λ x. lookup "" x ≡ none) same h
absent-claimed seen m (ip ∷ ips) h e =
    let skipped = absent-claimed seen m ips h in
    let rest = absent-claimed (insert ip tt seen) m ips in
    elim (Bool-cases (str_eq ip "")) [
      | inl empty ↦
          let nothing : lookup ip seen ≡ none = rw ((eq_iff ip "").0 empty) h in
          skipped (rw (nothing, empty) at e)
      | inr static ↦
          by_found (claim_addresses (insert ip tt seen) ips) (claim_addresses seen ips)
            (lookup ip seen) (rest (lookup-insert ip "" tt seen ∙ rw static h)) (rw static at e)
    ]
  where
    by_found :
        (a c : Outcome (GoMap (Unit {0}))) (o : Option (Unit {0}))
        → (a ≡ ok m → lookup "" m ≡ none)
        → claim_address o false c a ≡ ok m
        → lookup "" m ≡ none
    by_found a c (some held) h e = cc
    by_found a c none h e = h e

none_static : (a b : String) → (str_eq a "" && str_eq b "") ≡ true → static_of (a ∷ b ∷ []) ≡ []
none_static a b h = ground (arith, h)

verify_addresses-claim_all :
    (seen : GoMap (Unit {0})) (nodes : GoMap LabNode)
    → lookup "" seen ≡ none
    → verify_addresses seen nodes
      ≡ (claim_all Error.duplicate_address seen (address_claims nodes) >>= λ m. ok tt)
unfolding verify_addresses claim_all
verify_addresses-claim_all seen [] h = refl
verify_addresses-claim_all seen ((name, node) ∷ nodes) h =
    let ips = node.mgmt_ipv4_address ∷ node.mgmt_ipv6_address ∷ [] in
    let later = verify_addresses-claim_all seen nodes h in
    elim (Bool-cases (str_eq node.mgmt_ipv4_address "" && str_eq node.mgmt_ipv6_address "")) [
      | inl empty ↦
          rw (empty, none_static node.mgmt_ipv4_address node.mgmt_ipv6_address empty) later
      | inr static ↦
          rw
            (
              static,
              claim_all-append Error.duplicate_address seen (static_of ips) (address_claims nodes),
            )
            (by_outcome (claim_addresses seen ips)
              (claim_all Error.duplicate_address seen (static_of ips))
              (claim_addresses-claim_all seen ips h)
              (λ m e. verify_addresses-claim_all m nodes (absent-claimed seen m ips h e)))
    ]
  where
    by_outcome :
        (a b : Outcome (GoMap (Unit {0})))
        → a ≡ b
        → ((m : GoMap (Unit {0}))
            → a ≡ ok m
            → verify_addresses m nodes
              ≡ (claim_all Error.duplicate_address m (address_claims nodes) >>= λ m. ok tt))
        → (a >>= λ m. verify_addresses m nodes)
          ≡ ((b >>= λ m. claim_all Error.duplicate_address m (address_claims nodes)) >>= λ m. ok tt)
    by_outcome (ok m) b e h = rw (← e) (h m refl)
    by_outcome (fail x) b e h = rw (← e) refl
    by_outcome panic b e h = rw (← e) refl

-- verifyDuplicateAddresses accepts a lab when, and only when, the static management addresses of its
-- nodes, of both families, are all different as texts.
pub verify_duplicate_addresses_lem :
    (nodes : GoMap LabNode)
    → Checks Error.duplicate_address
        (verify_duplicate_addresses nodes)
        (keys (address_claims nodes))
unfolding verify_duplicate_addresses lookup
verify_duplicate_addresses_lem nodes =
    Checks-claim_all Error.duplicate_address (address_claims nodes)
      (verify_duplicate_addresses nodes) (verify_addresses-claim_all [] nodes refl)
