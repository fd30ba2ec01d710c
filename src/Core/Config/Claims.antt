-- ===== src/Core/Config/Claims.antt =====
-- Names that are claimed one after the other: no name may be claimed twice.
use containerlab.Base.{
  String, ◌≡◌, refl, ◌∙◌, ◌⊎◌, inl, inr, true, Option, none, some, List, [], ◌∷◌, ◌++◌, arith,
  eq_iff, eq_refl, Bool-cases, Error, Outcome, ok, fail, panic, ◌>>=◌,
}
use containerlab.Base.Lists.{elem, Distinct}
use containerlab.Base.GoMap.{GoMap, lookup, insert, keys, lookup-insert}

module _ {ℓ} {V : Type ℓ} where
  -- The names are put into the map, up to the first that is in it.
  unfoldable pub claim_all : Error → GoMap V → List (String × V) → Outcome (GoMap V)
  claim_all error names [] = ok names
  claim_all error names ((x, v) ∷ claims) = elim (lookup x names) [
    | some other ↦ fail error
    | none ↦ claim_all error (insert x v names) claims
  ]

  pub claim_all-append :
      (error : Error) (names : GoMap V) (xs ys : List (String × V))
      → claim_all error names (xs ++ ys) ≡ (claim_all error names xs >>= λ m. claim_all error m ys)
  unfolding claim_all
  claim_all-append error names [] ys = refl
  claim_all-append error names ((x, v) ∷ xs) ys =
      by_found (lookup x names) (claim_all-append error (insert x v names) xs ys)
    where
      by_found :
          (o : Option V)
          → claim_all error (insert x v names) (xs ++ ys)
            ≡ (claim_all error (insert x v names) xs >>= λ m. claim_all error m ys)
          → elim o [
            | some other ↦ fail error
            | none ↦ claim_all error (insert x v names) (xs ++ ys)
          ]
            ≡ (elim o [ some other ↦ fail error | none ↦ claim_all error (insert x v names) xs ]
                >>= λ m. claim_all error m ys)
      by_found (some other) rest = refl
      by_found none rest = rest

  -- Claims that are followed by claims.
  pub claim_all-then {κ} :
      {W : Type κ} (error : Error) (names : GoMap V) (xs ys : List (String × V))
      (rest k : GoMap V → Outcome W)
      → ((m : GoMap V) → rest m ≡ (claim_all error m ys >>= k))
      → (claim_all error names xs >>= rest) ≡ (claim_all error names (xs ++ ys) >>= k)
  claim_all-then error names xs ys rest k h =
      rw (claim_all-append error names xs ys) (by_outcome (claim_all error names xs))
    where
      by_outcome :
          (o : Outcome (GoMap V)) → (o >>= rest) ≡ (o >>= (λ m. claim_all error m ys) >>= k)
      by_outcome (ok m) = h m
      by_outcome (fail e) = refl
      by_outcome panic = refl

  -- None of the names is in the map.
  abbrev pub Apart : GoMap V → List String → Type ℓ
  Apart names l = (x : String) → elem x l ≡ true → lookup x names ≡ none

  -- The names are new and different from each other, and are all claimed.
  abbrev pub Claimed : Error → GoMap V → List (String × V) → Type ℓ
  Claimed error names claims =
      ((m : GoMap V) × (claim_all error names claims ≡ ok m))
      × Distinct (keys claims)
      × Apart names (keys claims)

  -- Some name is in the map or occurs twice, and the error is returned.
  abbrev pub Taken : Error → GoMap V → List (String × V) → Type ℓ
  Taken error names claims =
      (claim_all error names claims ≡ fail error)
      × ((Distinct (keys claims) × Apart names (keys claims)) → ⊥)

  pub claim_all-cases :
      (error : Error) (names : GoMap V) (claims : List (String × V))
      → Claimed error names claims ⊎ Taken error names claims
  unfolding claim_all
  claim_all-cases error names [] = inl ((names, refl), tt, λ x e. cc)
  claim_all-cases error names ((x, v) ∷ claims) =
      by_found (lookup x names) refl (claim_all-cases error (insert x v names) claims)
    where
      by_found :
          (o : Option V)
          → lookup x names ≡ o
          → Claimed error (insert x v names) claims ⊎ Taken error (insert x v names) claims
          → Claimed error names ((x, v) ∷ claims) ⊎ Taken error names ((x, v) ∷ claims)
      by_found (some other) l rest =
          inr (rw (l, claim_all) refl, λ (d, a). cc (a x (ground (arith, eq_refl x)), l))
      by_found none l rest = elim rest [
        | inr (e, not_new) ↦ inr (
          rw (l, claim_all) e,
          λ ((new, d), a).
              not_new
                (d, λ y h. lookup-insert x y v names ∙ ground (arith, a y, h, eq_iff x y, new)),
        )
        | inl ((m, e), d, a) ↦ inl (
          (m, rw (l, claim_all) e),
          (
            elim (Bool-cases (elem x (keys claims))) [
              | inr new ↦ new
              | inl again ↦ absurd (ground (arith, a x again, lookup-insert x x v names, eq_refl x))
            ],
            d,
          ),
          λ y h. ground (arith, a y, h, lookup-insert x y v names, eq_iff x y, eq_iff y x, l),
        )
      ]
