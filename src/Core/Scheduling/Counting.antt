-- ===== src/Core/Scheduling/Counting.antt =====
-- Counts over the places of the nodes: the busy workers, and the moves that are left.
use containerlab.Core.Scheduling.{
  Pc, waiting, queued, deploying, created, linking, linked, configuring, configured,
  awaiting_health, checking, checked, awaiting_exit, watching, over, failed_deploy, failed_links,
  entry, completion, test, freed,
}
use containerlab.Base.{
  ℕ, ◌+◌, ◌≤◌, ◌<◌, String, ◌≡◌, sym, ap, inl, inr, some, [], ◌∷◌, arith, str_eq, eq_iff,
  Bool-cases,
}
use containerlab.Base.Lists.{length}
use containerlab.Base.GoMap.{GoMap, lookup, insert, keys}

-- One where a worker holds the node.
abbrev pub held : Pc → ℕ
held waiting = 0
held queued = 0
held over = 0
held failed_deploy = 0
held failed_links = 0
held _ = 1

-- How many moves are left to the node, at most.
abbrev pub left : Pc → ℕ
left waiting = 13
left queued = 12
left deploying = 11
left created = 10
left linking = 9
left linked = 8
left configuring = 7
left configured = 6
left awaiting_health = 5
left checking = 4
left checked = 3
left awaiting_exit = 2
left watching = 1
left over = 0
left failed_deploy = 0
left failed_links = 0

abbrev pub total : (Pc → ℕ) → GoMap Pc → ℕ
total f [] = 0
total f ((n, p) ∷ a) = f p + total f a

pub total-insert :
    (f : Pc → ℕ) (n : String) (p q : Pc) (a : GoMap Pc)
    → lookup n a ≡ some p
    → total f (insert n q a) + f p ≡ total f a + f q
unfolding lookup insert
total-insert f n p q [] h = cc
total-insert f n p q ((k, r) ∷ a) h = elim (Bool-cases (str_eq k n)) [
  | inl same ↦ let e : r ≡ p = ground (arith, h, same) in rw (same, e) (omega arith)
  | inr other ↦
      let rest = total-insert f n p q a (ground (arith, h, other)) in rw other (omega (arith, rest))
]

pub length-insert_known :
    (n : String) (p q : Pc) (a : GoMap Pc) → lookup n a ≡ some p → length (insert n q a) ≡ length a
unfolding lookup insert
length-insert_known n p q [] h = cc
length-insert_known n p q ((k, r) ∷ a) h = ground (arith, h, length-insert_known n p q a)

pub keys-insert_known :
    (n : String) (p q : Pc) (a : GoMap Pc) → lookup n a ≡ some p → keys (insert n q a) ≡ keys a
unfolding lookup insert
keys-insert_known n p q [] h = cc
keys-insert_known n p q ((k, r) ∷ a) h = elim (Bool-cases (str_eq k n)) [
  | inl same ↦ rw same (ap (λ x. x ∷ keys a) (sym ((eq_iff k n).0 same)))
  | inr other ↦ rw other (ap (λ l. k ∷ l) (keys-insert_known n p q a (ground (arith, h, other))))
]

pub held_le : (p : Pc) → held p ≤ 1
held_le waiting = omega arith
held_le queued = omega arith
held_le over = omega arith
held_le failed_deploy = omega arith
held_le failed_links = omega arith
held_le deploying = omega arith
held_le created = omega arith
held_le linking = omega arith
held_le linked = omega arith
held_le configuring = omega arith
held_le configured = omega arith
held_le awaiting_health = omega arith
held_le checking = omega arith
held_le checked = omega arith
held_le awaiting_exit = omega arith
held_le watching = omega arith

total-held_le : (a : GoMap Pc) → total held a ≤ length a
total-held_le [] = omega arith
total-held_le ((k, p) ∷ a) = omega (arith, held_le p, total-held_le a)

-- Where some node waits for a worker, fewer workers are busy than there are nodes.
pub held-queued : (n : String) (a : GoMap Pc) → lookup n a ≡ some queued → total held a < length a
unfolding lookup
held-queued n [] h = cc
held-queued n ((k, p) ∷ a) h = elim (Bool-cases (str_eq k n)) [
  | inl same ↦ let e : p ≡ queued = ground (arith, h, same) in rw e (omega (arith, total-held_le a))
  | inr other ↦ omega (arith, held_le p, held-queued n a (ground (arith, h, other)))
]

pub entry-counts :
    (p q : Pc) (stage : String)
    → entry p ≡ some (stage, q)
    → (held p ≡ held q + freed q) × (left q < left p)
unfolding entry freed
entry-counts p q stage h = ground arith

pub completion-counts :
    (p q : Pc) (stage : String)
    → completion p ≡ some (stage, q)
    → (held p ≡ held q + freed q) × (left q < left p)
unfolding completion freed
completion-counts p q stage h = ground arith

pub test-counts :
    (p q r : Pc) (stage : String)
    → test p ≡ some (stage, q, r)
    → ((held p ≡ held q + freed q) × (left q < left p))
      × ((held p ≡ held r + freed r) × (left r < left p))
unfolding test freed
test-counts p q r stage h = ground arith
