-- ===== src/Links/Ownership/Moving.antt =====
-- moveEndpoint: the ownership of an endpoint changes as a whole or not at all.
use containerlab.Links.Ownership.{
  handled, set_node, append_endpoint, adopt_endpoint, release_endpoint, transfer_ownership, has,
  remove_first,
}
use containerlab.Links.Ownership.Invariant.{
  named-same, tracks-free, named, Apart, Owned, has-append, has-named, has-remove_first,
  Apart-remove_first, Apart-append, Apart-same,
}
use containerlab.Links.Store.{handled, and_then, Endpoint, Store, update}
use containerlab.Base.{
  ℕ, ◌≡◌, refl, sym, ◌∙◌, subst, ◌≢◌, ◌⊎◌, inl, inr, true, false, Option, some, List, [], ◌∷◌, ◌++◌,
  arith, eq_refl, ◌==◌, Bool-cases, ok,
}

-- The endpoint at another node, last in its list; `left` is what the first node keeps.
abbrev pub moved : {S : Type 0} → Store S → ℕ → ℕ → ℕ → List ℕ → Store S
moved s e src dst left = record s {
  endpoint = update e (record (s.endpoint e) { node = some dst }) s.endpoint;
  owned = update dst (s.owned dst ++ (e ∷ [])) (update src left s.owned);
}

-- The name of an endpoint does not depend on its node.
pub name-update :
    (endpoint : ℕ → Endpoint) (e x : ℕ) (n : Option ℕ)
    → (update e (record (endpoint e) { node = n }) endpoint x).iface_name ≡ (endpoint x).iface_name
unfolding update
name-update endpoint e x n = elim (Bool-cases (x == e)) [
  | inl same ↦ let eq : x ≡ e = ground (arith, same) in rw (same, eq) refl
  | inr other ↦ rw other refl
]

pub some_inj : (a b : ℕ) → some a ≡ some b → a ≡ b
some_inj a b h = cc

-- An endpoint that was removed is not in what is left.
pub has-left :
    (endpoint : ℕ → Endpoint) (e : ℕ) (es left : List ℕ)
    → Apart endpoint es
    → remove_first e es ≡ some left
    → has e left ≡ false
has-left endpoint e es left a gone = elim (Bool-cases (has e left)) [
  | inl held ↦
      let (_, free) = Apart-remove_first endpoint e es left a gone in
      absurd (ground (arith, free, has-named endpoint e left held))
  | inr free ↦ free
]

module _ {S : Type 0} where
  -- The endpoints in the lists after the move, and where each was before.
  has-moved :
      (s : Store S) (e src dst : ℕ) (left : List ℕ) (m x : ℕ)
      → remove_first e (s.owned src) ≡ some left
      → has x ((moved s e src dst left).owned m) ≡ true
      → ((x ≡ e) × (m ≡ dst))
        ⊎ ((has x (s.owned m) ≡ true) × ((m ≡ dst) ⊎ ((m ≢ src) ⊎ (has x left ≡ true))))
  unfolding update
  has-moved s e src dst left m x gone h = elim (Bool-cases (m == dst)) [
    | inl same ↦
        let eq : m ≡ dst = ground (arith, same) in
        elim (Bool-cases (x == e)) [
          | inl last ↦ inl (ground (arith, last), eq)
          | inr other ↦
              inr (
                rw eq (ground (arith, h, same, other, has-append x (s.owned dst) (e ∷ []))),
                inl eq,
              )
        ]
    | inr other ↦ elim (Bool-cases (m == src)) [
      | inl same ↦
          let eq : m ≡ src = ground (arith, same) in
          let held : has x left ≡ true = ground (arith, h, same, other) in
          inr (
            rw eq (ground (arith, held, has-remove_first e x (s.owned src) left gone)),
            inr (inr held),
          )
      | inr apart ↦ inr (ground (arith, h, other, apart), inr (inl λ eq. ground (arith, apart, eq)))
    ]
  ]

  pub Owned-moved :
      (s : Store S) (e src dst : ℕ) (left : List ℕ)
      → Owned s
      → src ≢ dst
      → remove_first e (s.owned src) ≡ some left
      → named s.endpoint (s.endpoint e).iface_name (s.owned dst) ≡ false
      → Owned (moved s e src dst left)
  unfolding update
  Owned-moved s e src dst left i apart gone free = record {
    owner = λ m x h. elim (has-moved s e src dst left m x gone h) [
      | inl (same, there) ↦ rw (same, there) new_owner
      | inr (held, place) ↦ elim (Bool-cases (x == e)) [
        | inl same ↦
            let eq : x ≡ e = ground (arith, same) in
            elim place [
              | inl there ↦ rw (eq, there) new_owner
              | inr (inl away) ↦ absurd (
                  away (
                    some_inj m src (
                      sym (i.owner m e (subst (λ k. has k (s.owned m) ≡ true) eq held))
                      ∙ i.owner src e owned_before)))
              | inr (inr kept) ↦ absurd (
                  ground (
                    arith,
                    subst (λ k. has k left ≡ true) eq kept,
                    has-left s.endpoint e (s.owned src) left (i.apart src) gone,
                  ))
            ]
        | inr other ↦ old_owner m x other held
      ]
    ];
    apart = λ m.
        Apart-same s.endpoint (moved s e src dst left).endpoint ((moved s e src dst left).owned m)
          (λ k _. sym (name-update s.endpoint e k (some dst))) (apart_before m);
    allocated = λ m x h. elim (has-moved s e src dst left m x gone h) [
      | inl (same, there) ↦ rw same (i.allocated src e owned_before)
      | inr (held, place) ↦ i.allocated m x held
    ];
  }
    where
      owned_before : has e (s.owned src) ≡ true
      owned_before = ground (arith, has-remove_first e e (s.owned src) left gone)

      new_owner : ((moved s e src dst left).endpoint e).node ≡ some dst
      new_owner = ground arith

      old_owner :
          (m x : ℕ)
          → (x == e) ≡ false
          → has x (s.owned m) ≡ true
          → ((moved s e src dst left).endpoint x).node ≡ some m
      old_owner m x other held = rw other (i.owner m x held)

      apart_before : (m : ℕ) → Apart s.endpoint ((moved s e src dst left).owned m)
      apart_before m = elim (Bool-cases (m == dst)) [
        | inl same ↦ rw same (Apart-append s.endpoint e (s.owned dst) (i.apart dst) free)
        | inr other ↦ elim (Bool-cases (m == src)) [
          | inl same ↦
              let (a, _) = Apart-remove_first s.endpoint e (s.owned src) left (i.apart src) gone in
              rw (other, same) a
          | inr away ↦ rw (other, away) (i.apart m)
        ]
      ]

  pub release_endpoint-held :
      (s : Store S) (n e : ℕ) (left : List ℕ)
      → remove_first e (s.owned n) ≡ some left
      → release_endpoint n e s ≡ (ok tt, record s { owned = update n left s.owned })
  unfolding release_endpoint
  release_endpoint-held s n e left gone = rw (gone, release_endpoint) refl

  pub adopt_endpoint-free :
      (s : Store S) (n e : ℕ)
      → (s.endpoint e).node ≡ some n
      → named s.endpoint (s.endpoint e).iface_name (s.owned n) ≡ false
      → adopt_endpoint n e s ≡ append_endpoint n e s
  unfolding adopt_endpoint
  adopt_endpoint-free s n e owner free =
      rw
        (
          owner,
          adopt_endpoint,
          eq_refl (s.node n).short_name,
          tracks-free s.endpoint e (s.owned n) free,
        )
        refl

  adopt_endpoint-moved :
      (s : Store S) (e src dst : ℕ) (left : List ℕ)
      → src ≢ dst
      → named s.endpoint (s.endpoint e).iface_name (s.owned dst) ≡ false
      → adopt_endpoint dst e (record s {
        endpoint = update e (record (s.endpoint e) { node = some dst }) s.endpoint;
        owned = update src left s.owned;
      })
        ≡ (ok tt, moved s e src dst left)
  unfolding append_endpoint update
  adopt_endpoint-moved s e src dst left apart free =
      adopt_endpoint-free at_dst dst e here still_free ∙ rw same refl
    where
      at_dst : Store S
      at_dst = record s {
        endpoint = update e (record (s.endpoint e) { node = some dst }) s.endpoint;
        owned = update src left s.owned;
      }

      here : (update e (record (s.endpoint e) { node = some dst }) s.endpoint e).node ≡ some dst
      here = ground arith

      same : update src left s.owned dst ≡ s.owned dst
      same = elim (Bool-cases (dst == src)) [
        | inl equal ↦ absurd (apart (ground (arith, equal)))
        | inr other ↦ rw other refl
      ]

      still_free : named at_dst.endpoint (at_dst.endpoint e).iface_name (at_dst.owned dst) ≡ false
      still_free =
          rw
            (
              same,
              name-update s.endpoint e e (some dst),
              named-same at_dst.endpoint s.endpoint (s.endpoint e).iface_name (s.owned dst)
                  (λ k _. name-update s.endpoint e k (some dst)),
            )
            free

  -- The end of moveEndpoint does what it is for: its own error is never returned.
  pub transfer_ownership_lem :
      (s : Store S) (e src dst : ℕ) (left : List ℕ)
      → src ≢ dst
      → remove_first e (s.owned src) ≡ some left
      → named s.endpoint (s.endpoint e).iface_name (s.owned dst) ≡ false
      → transfer_ownership e src dst s ≡ (ok tt, moved s e src dst left)
  unfolding transfer_ownership set_node and_then handled
  transfer_ownership_lem s e src dst left apart gone free =
      rw (release_endpoint-held s src e left gone, adopt_endpoint-moved s e src dst left apart free)
        refl
