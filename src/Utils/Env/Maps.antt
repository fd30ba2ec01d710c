-- ===== src/Utils/Env/Maps.antt =====
-- MergeStringMaps: which entry of which map ends up in the result.
use containerlab.Base.{
  String, ◌≡◌, refl, sym, ap, ◌∙◌, inl, inr, Bool, true, false, ◌||◌, Option, none, some, List, [],
  ◌∷◌, arith, eq_iff, Bool-cases, is_some,
}
use containerlab.Base.Lists.{Distinct}
use containerlab.Base.GoMap.{GoMap, lookup, insert, keys, lookup-insert, lookup-eq-none}
use containerlab.Utils.Env.{range_into, merge_string_maps_loop, merge_string_maps}

-- Every map that is not nil has each key once.
abbrev pub AreMaps : List (Option (GoMap String)) → Type 0
AreMaps [] = Unit
AreMaps (none ∷ ms) = AreMaps ms
AreMaps (some m ∷ ms) = Distinct (keys m) × AreMaps ms

abbrev pub or_else {ℓ} : {A : Type ℓ} → Option A → Option A → Option A
or_else none b = b
or_else (some a) b = some a

-- The value of the last map that has the key, or the default.
abbrev pub last_value : String → List (Option (GoMap String)) → Option String → Option String
last_value k [] d = d
last_value k (none ∷ ms) d = last_value k ms d
last_value k (some m ∷ ms) d = last_value k ms (or_else (lookup k m) d)

abbrev pub any_map : List (Option (GoMap String)) → Bool
any_map [] = false
any_map (none ∷ ms) = any_map ms
any_map (some m ∷ ms) = true

lookup-range_into :
    (k : String) (m res : GoMap String)
    → Distinct (keys m)
    → lookup k (range_into m res) ≡ or_else (lookup k m) (lookup k res)
unfolding range_into lookup
lookup-range_into k [] res h = refl
lookup-range_into k ((j, v) ∷ m) res h = ground (
  arith,
  lookup-range_into k m (insert j v res),
  lookup-insert j k v res,
  lookup-eq-none k m,
  eq_iff j k,
)

abbrev pub lookup? : String → Option (GoMap String) → Option String
lookup? k none = none
lookup? k (some m) = lookup k m

lookup-loop :
    (k : String) (ms : List (Option (GoMap String))) (res : GoMap String) (seen : Bool)
    → AreMaps ms
    → (seen || any_map ms) ≡ true
    → lookup? k (merge_string_maps_loop ms res seen) ≡ last_value k ms (lookup k res)
unfolding merge_string_maps_loop
lookup-loop k [] res seen h s = ground arith
lookup-loop k (none ∷ ms) res seen h s = lookup-loop k ms res seen h s
lookup-loop k (some m ∷ ms) res seen h s =
    lookup-loop k ms (range_into m res) true h.1 refl
    ∙ ap (last_value k ms) (lookup-range_into k m res h.0)

is_some-loop :
    (ms : List (Option (GoMap String))) (res : GoMap String) (seen : Bool)
    → is_some (merge_string_maps_loop ms res seen) ≡ (seen || any_map ms)
unfolding merge_string_maps_loop
is_some-loop [] res seen = ground arith
is_some-loop (none ∷ ms) res seen = is_some-loop ms res seen
is_some-loop (some m ∷ ms) res seen = is_some-loop ms (range_into m res) true ∙ ground arith

last_value-none :
    (k : String) (ms : List (Option (GoMap String))) (d : Option String)
    → any_map ms ≡ false
    → last_value k ms d ≡ d
last_value-none k [] d h = refl
last_value-none k (none ∷ ms) d h = last_value-none k ms d h
last_value-none k (some m ∷ ms) d h = cc

lookup?-of_nil : (k : String) (o : Option (GoMap String)) → is_some o ≡ false → lookup? k o ≡ none
lookup?-of_nil k none h = refl
lookup?-of_nil k (some m) h = cc

-- Merging string maps, each with distinct keys, gives nil exactly where every map is nil, and each
-- key has in the result the value of the last map that holds it, or none where no map holds it.
pub merge_string_maps_lem :
    (k : String) (ms : List (Option (GoMap String)))
    → AreMaps ms
    → (is_some (merge_string_maps ms) ≡ any_map ms)
      × (lookup? k (merge_string_maps ms) ≡ last_value k ms none)
unfolding merge_string_maps lookup
merge_string_maps_lem k ms h = (
  is_some-loop ms [] false,
  elim (Bool-cases (any_map ms)) [
    | inl seen ↦ lookup-loop k ms [] false h seen
    | inr nils ↦
        lookup?-of_nil k _ (is_some-loop ms [] false ∙ nils) ∙ sym (last_value-none k ms none nils)
  ],
)
