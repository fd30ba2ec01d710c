-- ===== src/Links/Ownership/HostOnly.antt =====
-- Calls that leave the objects of the program alone: only the host may be another one afterwards.
use containerlab.Base.{
  ℕ, String, ◌≡◌, refl, ap, ◌∙◌, Bool, true, false, Option, none, some, str_eq, if◌then◌else◌,
  Error, Outcome, ok, fail, panic,
}
use containerlab.Links.Store.{handled, Host, Store, M, and_then, ◌>>=◌, caught, returning, asks}
use containerlab.Links.Ownership.{
  has_ownership_alt_name, ownership_alt_name, container_has_joinable_netns, calls, HostLink,
  check_joinable, exec_path, exec_function, add_link_to_container, move_link, activate_endpoint,
  add_ownership_alt_name, ensure_ownership_alt_name, get_ns_path,
}

-- The store after the call differs from `s` in the host at most.
pub record Kept {S : Type 0} {A : Type 0} (s : Store S) (r : Outcome A × Store S) : Type 0 where
  pub host : S
  pub same : r.1 ≡ record s { host = host }

module _ {S : Type 0} {A : Type 0} where
  pub Kept-here : (o : Outcome A) (s : Store S) → Kept s (o, s)
  Kept-here o s = record { host = s.host; same = refl }

  pub Kept-and_then :
      {B : Type 0} {s : Store S} {r : Outcome A × Store S} {f : A → M S B}
      → Kept s r
      → ((a : A) (t : Store S) → Kept t (f a t))
      → Kept s (and_then r f)
  unfolding and_then
  Kept-and_then {s = s} {r = (ok a, t)} {f = f} kept next = record {
    host = (next a t).host;
    same = (next a t).same ∙ ap (λ (u : Store S). record u { host = (next a t).host }) kept.same;
  }
  Kept-and_then {r = (fail e, t)} kept next = record { host = kept.host; same = kept.same }
  Kept-and_then {r = (panic, t)} kept next = record { host = kept.host; same = kept.same }

  pub Kept-handled :
      {s : Store S} {r : Outcome A × Store S} {f : Error → M S A}
      → Kept s r
      → ((e : Error) (t : Store S) → Kept t (f e t))
      → Kept s (handled r f)
  unfolding handled
  Kept-handled {r = (ok a, t)} kept next = record { host = kept.host; same = kept.same }
  Kept-handled {r = (fail e, t)} kept next = record {
    host = (next e t).host;
    same = (next e t).same ∙ ap (λ (u : Store S). record u { host = (next e t).host }) kept.same;
  }
  Kept-handled {r = (panic, t)} kept next = record { host = kept.host; same = kept.same }

  pub Kept-caught : {s : Store S} {r : Outcome A × Store S} → Kept s r → Kept s (caught r)
  unfolding caught
  Kept-caught {r = (ok a, t)} kept = record { host = kept.host; same = kept.same }
  Kept-caught {r = (fail e, t)} kept = record { host = kept.host; same = kept.same }
  Kept-caught {r = (panic, t)} kept = record { host = kept.host; same = kept.same }

  pub Kept-returning : (s : Store S) (r : Outcome A × S) → Kept s (returning r s)
  unfolding returning
  Kept-returning s (o, h) = record { host = h; same = refl }

  pub Kept-if :
      {s : Store S} (b : Bool) {r q : Outcome A × Store S}
      → Kept s r
      → Kept s q
      → Kept s (if b then r else q)
  Kept-if true kept other = kept
  Kept-if false kept other = other

  -- The same for two calls, of which the test takes one.
  pub Kept-choice :
      {s : Store S} (b : Bool) (m n : M S A)
      → Kept s (m s)
      → Kept s (n s)
      → Kept s ((if b then m else n) s)
  Kept-choice true m n kept other = kept
  Kept-choice false m n kept other = other

module _ (H : Host) where
  Kept-get_ns_path : (n : ℕ) (s : Store H.State) → Kept s (get_ns_path H n s)
  unfolding get_ns_path
  Kept-get_ns_path n s =
      Kept-if (s.node n).is_root_namespace_based
        (Kept-and_then (Kept-here _ s)
          λ nsp t. Kept-choice (str_eq nsp "") _ _ (Kept-here _ t) (Kept-here _ t))
        (Kept-here _ s)

  Kept-check_joinable : (n : ℕ) (s : Store H.State) → Kept s (check_joinable H n s)
  unfolding check_joinable
  Kept-check_joinable n s = Kept-if (s.node n).is_root_namespace_based (Kept-here _ s) (
      Kept-if
        (container_has_joinable_netns (H.get_container_status (s.node n).container_name s.host))
        (Kept-here _ s) (Kept-here _ s))

  Kept-exec_path : (n : ℕ) (s : Store H.State) → Kept s (exec_path H n s)
  unfolding exec_path
  Kept-exec_path n s = Kept-and_then (Kept-check_joinable n s) λ _ t.
      Kept-and_then (Kept-get_ns_path n t) λ nspath u.
        Kept-and_then
          (Kept-choice (s.node n).is_root_namespace_based _ _ (Kept-here _ u) (Kept-here _ u))
          λ nspath v. Kept-choice (str_eq nspath "") _ _ (Kept-here _ v) (Kept-here _ v)

  pub Kept-exec_function :
      {A : Type 0} (n : ℕ) (body : String → M H.State A) (s : Store H.State)
      → ((nspath : String) (t : Store H.State) → Kept t (body nspath t))
      → Kept s (exec_function H n body s)
  unfolding exec_function
  Kept-exec_function n body s kept =
      Kept-and_then (Kept-choice (s.node n).is_default _ _ (Kept-exec_path n s) (Kept-here _ s))
        λ nspath t.
          Kept-and_then (Kept-here _ t)
            λ _ u. Kept-and_then (Kept-returning u (H.enter_ns nspath u.host)) λ _ v. kept nspath v

  Kept-add_link_to_container :
      (n : ℕ) (from iface : String) (s : Store H.State)
      → Kept s (add_link_to_container H n from iface s)
  unfolding add_link_to_container
  Kept-add_link_to_container n from iface s =
      Kept-and_then
        (Kept-choice (s.node n).is_default _ _
          (Kept-and_then (Kept-check_joinable n s) λ _ t. Kept-get_ns_path n t) (Kept-here _ s))
        λ nsp t. Kept-and_then (Kept-here _ t) λ _ u.
          Kept-and_then (Kept-returning u (H.link_set_ns_fd from iface nsp u.host))
            λ _ v. Kept-returning v (H.enter_ns nsp v.host)

  pub Kept-move_link :
      (src : ℕ) (iface_name : String) (dst : ℕ) (s : Store H.State)
      → Kept s (move_link H src iface_name dst s)
  unfolding move_link
  Kept-move_link src iface_name dst s = Kept-exec_function src _ s λ nspath t.
      Kept-and_then (Kept-here _ t) λ _ u.
        Kept-and_then (Kept-returning u (H.link_set_down nspath iface_name u.host))
          λ _ v. Kept-add_link_to_container dst nspath iface_name v

  pub Kept-activate_endpoint : (e : ℕ) (s : Store H.State) → Kept s (activate_endpoint H e s)
  unfolding activate_endpoint
  Kept-activate_endpoint e s =
      elim (s.endpoint e).node
        as (λ o. Kept {A = Unit {0}} s (elim o [
          | none ↦ (panic, s)
          | some n ↦
              exec_function H n
                (λ nspath. do
                  _ ← asks (H.link_by_name nspath (s.endpoint e).iface_name)
                  calls (H.link_set_up nspath (s.endpoint e).iface_name))
                s
        ])) [
          | none ↦ Kept-here _ s
          | some n ↦ Kept-exec_function n _ s λ nspath t.
              Kept-and_then (Kept-here _ t) λ _ u. Kept-returning u (H.link_set_up nspath _ u.host)
        ]

  Kept-add_ownership_alt_name :
      (nspath : String) (link : HostLink) (e : ℕ) (s : Store H.State)
      → Kept s (add_ownership_alt_name H nspath link e s)
  unfolding add_ownership_alt_name
  Kept-add_ownership_alt_name nspath link e s =
      Kept-if (has_ownership_alt_name link.alt_names) (Kept-here _ s) (named (s.endpoint e).node)
    where
      named :
          (o : Option ℕ)
          → Kept {A = Unit {0}} s (elim o [
            | none ↦ (panic, s)
            | some n ↦
                calls
                  (H.link_add_alt_name nspath link.name
                    (ownership_alt_name H (s.node n).short_name (s.endpoint e).iface_name))
                  s
          ])
      named none = Kept-here _ s
      named (some n) = Kept-returning s _

  pub Kept-ensure_ownership_alt_name :
      (e : ℕ) (s : Store H.State) → Kept s (ensure_ownership_alt_name H e s)
  unfolding ensure_ownership_alt_name
  Kept-ensure_ownership_alt_name e s =
      elim (s.endpoint e).node
        as (λ o. Kept {A = Unit {0}} s (elim o [
          | none ↦ (panic, s)
          | some n ↦
              exec_function H n
                (λ nspath. do
                  link ← asks (H.link_by_name nspath (s.endpoint e).iface_name)
                  add_ownership_alt_name H nspath link e)
                s
        ])) [
          | none ↦ Kept-here _ s
          | some n ↦ Kept-exec_function n _ s λ nspath t.
              Kept-and_then (Kept-here _ t) λ link u. Kept-add_ownership_alt_name nspath link e u
        ]
