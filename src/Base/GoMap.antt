-- ===== src/Base/GoMap.antt =====
-- Go maps with string keys, as association lists. The order of the list is the order in which
-- `range` happens to visit the entries, so a theorem about every list holds for every order.
use Prim.Native.String.{String}
use mathlib.Core.Path.{◌≡◌, refl}
use mathlib.Core.Bool.{false, ◌||◌}
use mathlib.Core.Option.{Option, none, some}
use mathlib.Core.List.{List, [], ◌∷◌}
use native.Mathlib.Omega.{arith}
use text.Mathlib.Text.{◌==◌}
use text.Mathlib.TextEquality.{eq_iff}
use containerlab.Base.Tests.{if◌then◌else◌}
use containerlab.Base.Lists.{elem}

abbrev pub GoMap {ℓ} : Type ℓ → Type ℓ
GoMap V = List (String × V)

module _ {ℓ} {V : Type ℓ} where
  -- v, ok := m[key]
  unfoldable pub lookup : String → GoMap V → Option V
  lookup key [] = none
  lookup key ((first, held) ∷ entries) = if first == key then some held else lookup key entries

  abbrev pub keys : GoMap V → List String
  keys [] = []
  keys ((first, held) ∷ entries) = first ∷ keys entries

  -- m[key] = v
  unfoldable pub insert : String → V → GoMap V → GoMap V
  insert key new [] = (key, new) ∷ []
  insert key new ((first, held) ∷ entries) =
      if first == key then (key, new) ∷ entries else (first, held) ∷ insert key new entries

  pub lookup-insert :
      (key other : String) (new : V) (entries : GoMap V)
      → lookup other (insert key new entries)
        ≡ (if key == other then some new else lookup other entries)
  unfolding lookup insert
  lookup-insert key other new [] = refl
  lookup-insert key other new ((first, held) ∷ entries) = ground (
    arith,
    lookup-insert key other new entries,
    eq_iff first key,
    eq_iff first other,
    eq_iff key other,
  )

  pub elem-keys-insert :
      (k j : String) (v : V) (m : GoMap V)
      → elem j (keys (insert k v m)) ≡ ((j == k) || elem j (keys m))
  unfolding insert
  elem-keys-insert k j v [] = refl
  elem-keys-insert k j v ((i, w) ∷ m) = ground (arith, eq_iff i k, elem-keys-insert k j v m)

  pub lookup-eq-none : (k : String) (m : GoMap V) → elem k (keys m) ≡ false → lookup k m ≡ none
  unfolding lookup
  lookup-eq-none k [] h = refl
  lookup-eq-none k ((j, v) ∷ m) h = ground (arith, eq_iff j k, eq_iff k j, lookup-eq-none k m)
