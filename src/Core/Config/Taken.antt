-- ===== src/Core/Config/Taken.antt =====
-- verifyContainersUniqueness finds the names and the lab that are taken.
use containerlab.Core.Config.{
  LabNode, GenericContainer, first_name, taken_by, taken_names, label, lab_is_running,
  verify_containers_uniqueness,
}
use containerlab.Base.{
  String, ◌≡◌, refl, ◌∙◌, inl, inr, Bool, true, false, not, ◌&&◌, ◌||◌, List, [], ◌∷◌, ◌++◌, arith,
  str_eq, eq_iff, if◌then◌else◌, Bool-cases, is_empty, Error, ok, fail,
}
use containerlab.Base.Lists.{elem}
use containerlab.Base.GoMap.{GoMap}

-- Every container has a name.
abbrev pub AreNamed : List GenericContainer → Type 0
AreNamed [] = Unit
AreNamed (container ∷ containers) = (is_empty container.names ≡ false) × AreNamed containers

abbrev pub head_name : List String → String
head_name [] = ""
head_name (name ∷ names) = name

abbrev pub first_names : List GenericContainer → List String
first_names [] = []
first_names (container ∷ containers) = head_name container.names ∷ first_names containers

abbrev pub lab_names : List GenericContainer → List String
lab_names [] = []
lab_names (container ∷ containers) = label "containerlab" container.labels ∷ lab_names containers

-- Has some node, which is not left out of the check, the first name of a container?
abbrev pub any_taken : List GenericContainer → GoMap LabNode → Bool
any_taken containers [] = false
any_taken containers ((name, node) ∷ nodes) =
    (not node.skip_uniqueness_check && elem node.long_name (first_names containers))
    || any_taken containers nodes

first_name_named :
    (container : GenericContainer)
    → is_empty container.names ≡ false
    → first_name container ≡ ok (head_name container.names)
unfolding first_name
first_name_named container h = by_names container.names h
  where
    by_names :
        (l : List String)
        → is_empty l ≡ false
        → first_name (record { names = l; labels = container.labels }) ≡ ok (head_name l)
    by_names [] h = cc
    by_names (name ∷ names) h = refl

taken_by-elem :
    (long_name : String) (containers : List GenericContainer)
    → AreNamed containers
    → (dups : List String) × (taken_by long_name containers ≡ ok dups)
      × (is_empty dups ≡ not (elem long_name (first_names containers)))
unfolding taken_by
taken_by-elem long_name [] h = ([], refl, refl)
taken_by-elem long_name (container ∷ containers) (h, hs) =
    let (dups, e, found) = taken_by-elem long_name containers hs in
    (
      (if str_eq long_name (head_name container.names) then long_name ∷ dups else dups),
      rw (first_name_named container h) (rw e refl),
      ground (arith, found),
    )

is_empty-append : (xs ys : List String) → is_empty (xs ++ ys) ≡ (is_empty xs && is_empty ys)
is_empty-append [] ys = refl
is_empty-append (x ∷ xs) ys = refl

taken_names-any_taken :
    (containers : List GenericContainer) (nodes : GoMap LabNode)
    → AreNamed containers
    → (dups : List String) × (taken_names containers nodes ≡ ok dups)
      × (is_empty dups ≡ not (any_taken containers nodes))
unfolding taken_names
taken_names-any_taken containers [] h = ([], refl, refl)
taken_names-any_taken containers ((name, node) ∷ nodes) h =
    let (rest, e, found) = taken_names-any_taken containers nodes h in
    let (dups, e', found') = taken_by-elem node.long_name containers h in
    elim (Bool-cases node.skip_uniqueness_check) [
      | inl skipped ↦ (rest, rw (skipped, e) refl, found ∙ ground (arith, skipped))
      | inr counted ↦ (
        dups ++ rest,
        rw (counted, e', e) refl,
        is_empty-append dups rest ∙ ground (arith, found, found', counted),
      )
    ]

lab_is_running-elem :
    (lab_name : String) (containers : List GenericContainer)
    → lab_is_running lab_name containers ≡ elem lab_name (lab_names containers)
unfolding lab_is_running
lab_is_running-elem lab_name [] = refl
lab_is_running-elem lab_name (container ∷ containers) = ground (
  arith,
  lab_is_running-elem lab_name containers,
  eq_iff lab_name (label "containerlab" container.labels),
  eq_iff (label "containerlab" container.labels) lab_name,
)

not-not : (b : Bool) → not (not b) ≡ b
not-not true = refl
not-not false = refl

-- Where every container has a name, verifyContainersUniqueness returns an error when the name of a
-- node that is not left out of the check is the first name of a container, another error when it is
-- not but a container belongs to a lab with the same name, and accepts the lab when neither holds.
pub verify_containers_uniqueness_lem :
    (lab_name : String) (containers : List GenericContainer) (nodes : GoMap LabNode)
    → AreNamed containers
    → verify_containers_uniqueness lab_name containers nodes ≡ (
        if any_taken containers nodes
        then fail Error.containers_exist
        else if elem lab_name (lab_names containers)
        then fail Error.lab_exists
        else ok tt)
unfolding verify_containers_uniqueness
verify_containers_uniqueness_lem lab_name [] nodes h = rw (nothing_taken nodes) refl
  where
    nothing_taken : (nodes : GoMap LabNode) → any_taken [] nodes ≡ false
    nothing_taken [] = refl
    nothing_taken ((name, node) ∷ nodes) = ground (arith, nothing_taken nodes)
verify_containers_uniqueness_lem lab_name (container ∷ containers) nodes h =
    let (dups, e, found) = taken_names-any_taken (container ∷ containers) nodes h in
    rw (e, lab_is_running-elem lab_name (container ∷ containers))
      (rw (found, not-not (any_taken (container ∷ containers) nodes)) refl)
