-- ===== src/Base/Tests.antt =====
-- Boolean tests, the conditional, and the outcome of a call of the program.
use Prim.Native.Nat.{ℕ, compare, Ordering}
use mathlib.Core.Path.{◌≡◌, refl}
use mathlib.Core.Logic.{◌⊎◌, inl, inr}
use mathlib.Core.Bool.{Bool, true, false}
use mathlib.Core.Option.{Option, none, some}
use mathlib.Core.List.{List, [], ◌∷◌}

abbrev pub ltb : ℕ → ℕ → Bool
ltb a b = elim (compare a b) [ Ordering.lt ↦ true | _ ↦ false ]

abbrev pub leb : ℕ → ℕ → Bool
leb a b = elim (compare a b) [ Ordering.gt ↦ false | _ ↦ true ]

infix 50 ◌==◌
abbrev pub ◌==◌ : ℕ → ℕ → Bool
a == b = elim (compare a b) [ Ordering.eq ↦ true | _ ↦ false ]

infix 1 if◌then◌else◌
abbrev pub if◌then◌else◌ {ℓ} : {A : Type ℓ} → Bool → A → A → A
if true then x else y = x
if false then x else y = y

pub Bool-cases : (b : Bool) → (b ≡ true) ⊎ (b ≡ false)
Bool-cases true = inl refl
Bool-cases false = inr refl

abbrev pub is_some {ℓ} : {A : Type ℓ} → Option A → Bool
is_some none = false
is_some (some a) = true

abbrev pub is_empty {ℓ} : {A : Type ℓ} → List A → Bool
is_empty [] = true
is_empty (x ∷ xs) = false

-- The errors that the modelled functions return. The messages are not modelled.
pub data Error : Type 0 where
  unable_to_parse_bind unknown_node dependee_not_found cyclic_dependencies : Error
  unknown_stage node_not_in_topology duplicate_address duplicate_root_endpoint : Error
  invalid_endpoint unable_to_parse_link_type wrong_endpoint_count : Error
  invalid_prefix too_many_addresses containers_exist lab_exists invalid_restore : Error
  no_source_node no_destination_node no_ownership_moves endpoint_not_owned : Error
  endpoint_already_owned interface_already_tracked endpoint_without_owner foreign_endpoint : Error
  ownership_update_failed namespace_not_available namespace_path_not_set : Error
  container_not_found not_a_veth_link host_failed already_exists named_netns_missing : Error
  no_match not_an_integer no_port_group interface_out_of_bounds overlapping_interfaces : Error
  duplicate_endpoint kind_already_registered kind_not_supported : Error
  exec_not_supported snapshot_not_found path_failed : Error

-- What a call does: it returns a value, returns an error, or panics (a nil dereference).
pub data Outcome {ℓ} (A : Type ℓ) : Type ℓ where
  ok : A → Outcome A
  fail : Error → Outcome A
  panic : Outcome A

infixl 5 ◌>>=◌
abbrev pub ◌>>=◌ {ℓ κ} : {A : Type ℓ} {B : Type κ} → Outcome A → (A → Outcome B) → Outcome B
ok a >>= f = f a
fail e >>= f = fail e
panic >>= f = panic

-- Reading through a pointer that may be nil.
abbrev pub deref {ℓ} : {A : Type ℓ} → Option A → Outcome A
deref none = panic
deref (some a) = ok a

-- A chain that returns a value went through its first call.
pub >>=-eq-ok {ℓ κ} :
    {A : Type ℓ} {B : Type κ} (call : Outcome A) (rest : A → Outcome B) {result : B}
    → (call >>= rest) ≡ ok result
    → (value : A) × (call ≡ ok value) × (rest value ≡ ok result)
>>=-eq-ok (fail e) rest returned = cc
>>=-eq-ok panic rest returned = cc
>>=-eq-ok (ok value) rest returned = (value, refl, returned)

abbrev pub is_ok {ℓ} : {A : Type ℓ} → Outcome A → Bool
is_ok (ok a) = true
is_ok _ = false

pub eq-ok_of_is_ok {ℓ} : {A : Type ℓ} (m : Outcome A) → is_ok m ≡ true → (a : A) × (m ≡ ok a)
eq-ok_of_is_ok (ok a) h = (a, refl)
eq-ok_of_is_ok (fail e) h = cc
eq-ok_of_is_ok panic h = cc

pub deref-eq-ok {ℓ} : {A : Type ℓ} (o : Option A) {a : A} → deref o ≡ ok a → o ≡ some a
deref-eq-ok none h = cc
deref-eq-ok (some x) h = cc
