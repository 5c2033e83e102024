-- ===== src/Zones/Shape.antt =====
-- Which interfaces the rules of `resolve` (src/zones.rs) and `render` (src/rules.rs) name.
use nftblock.Prelude.{
  any, ◌≡◌, refl, Bool, true, false, not, ◌&&◌, ◌||◌, Option, none, some, List, [], ◌∷◌, All,
  Bool-cases, inl, inr, arith,
}
use nftblock.Prelude.Results.{Result, ok, err, and_then}
use nftblock.Text.{Text, is_empty, trim}
use nftblock.Zones.{
  Zone, ZoneEntry, Zones, Chain, ResolvedRule, get, insert, extend, same, is_local, has_zone,
  bad_interface, add_entry, add_entries, expand_zone, expand_into, expand,
}

-- What holds of a result that is not an error.
abbrev pub Holds : {E A : Type 0} → (A → Type 0) → Result E A → Type 0
Holds P (ok a) = P a
Holds P (err e) = Unit

pub and_then-Holds :
    {E A B : Type 0} (P : A → Type 0) (Q : B → Type 0) (r : Result E A) (f : A → Result E B)
    → Holds P r
    → ((a : A) → P a → Holds Q (f a))
    → Holds Q (and_then r f)
and_then-Holds P Q (ok a) f h k = k a h
and_then-Holds P Q (err e) f h k = tt

-- A zone that is not local has an interface.
abbrev has_interface : Zone → Bool
has_interface zone = zone.local || not (is_empty zone.interfaces)

abbrev pub AllSound : Zones → Type 0
AllSound zones = All (λ z. has_interface z.1 ≡ true) zones

add_entry-AllSound :
    (entry : ZoneEntry) (zones : Zones) → AllSound zones → Holds AllSound (add_entry entry zones)
unfolding add_entry
add_entry-AllSound entry zones h = elim (Bool-cases (is_empty (trim entry.name))) [
  | inl a ↦ rw a tt
  | inr a ↦ rw a (elim (Bool-cases (not (is_local entry) && is_empty entry.interfaces)) [
    | inl b ↦ rw b tt
    | inr b ↦ rw b (elim (Bool-cases (any bad_interface entry.interfaces)) [
      | inl c ↦ rw c tt
      | inr c ↦ rw c (elim (Bool-cases (has_zone entry.name zones)) [
        | inl d ↦ rw d tt
        | inr d ↦ rw d (ground (arith, b), h)
      ])
    ])
  ])
]

pub add_entries-AllSound :
    (entries : List ZoneEntry) (zones : Zones)
    → AllSound zones
    → Holds AllSound (add_entries entries zones)
unfolding add_entries
add_entries-AllSound [] zones h = h
add_entries-AllSound (entry ∷ entries) zones h =
    and_then-Holds AllSound AllSound (add_entry entry zones) _ (add_entry-AllSound entry zones h)
      (add_entries-AllSound entries)

-- What a lookup finds.
abbrev FoundSound : Option Zone → Type 0
FoundSound none = Unit
FoundSound (some zone) = has_interface zone ≡ true

get-FoundSound : (name : Text) (zones : Zones) → AllSound zones → FoundSound (get name zones)
get-FoundSound name [] h = tt
get-FoundSound name ((other, zone) ∷ zones) h = elim (Bool-cases (same name other)) [
  | inl e ↦ rw e h.0
  | inr e ↦ rw e (get-FoundSound name zones h.1)
]

insert-is_empty : (x : Text) (set : List Text) → is_empty (insert x set) ≡ false
insert-is_empty x [] = refl
insert-is_empty x (y ∷ ys) = ground arith

extend-is_empty : (set xs : List Text) → is_empty set ≡ false → is_empty (extend set xs) ≡ false
extend-is_empty set [] h = h
extend-is_empty set (x ∷ xs) h = extend-is_empty (insert x set) xs (insert-is_empty x set)

extend-is_empty_new : (set xs : List Text) → is_empty xs ≡ false → is_empty (extend set xs) ≡ false
extend-is_empty_new set [] h = cc
extend-is_empty_new set (x ∷ xs) h = extend-is_empty (insert x set) xs (insert-is_empty x set)

abbrev pub NotEmpty : List Text → Type 0
NotEmpty set = is_empty set ≡ false

expand_zone-NotEmpty :
    (name : Text) (found : Option Zone) (set : List Text)
    → FoundSound found
    → Holds NotEmpty (expand_zone name true found set)
expand_zone-NotEmpty name none set h = tt
expand_zone-NotEmpty name (some zone) set h = elim (Bool-cases zone.local) [
  | inl e ↦ rw e tt
  | inr e ↦ rw e (extend-is_empty_new set zone.interfaces (ground (arith, h, e)))
]

expand_into-NotEmpty :
    (zones : Zones) (names set : List Text)
    → AllSound zones
    → NotEmpty set
    → Holds NotEmpty (expand_into zones names true set)
unfolding expand_into
expand_into-NotEmpty zones [] set h n = n
expand_into-NotEmpty zones (name ∷ names) set h n =
    and_then-Holds NotEmpty NotEmpty _ _
      (expand_zone-NotEmpty name (get name zones) set (get-FoundSound name zones h))
      (λ out k. expand_into-NotEmpty zones names out h k)

pub expand-NotEmpty :
    (zones : Zones) (names : List Text)
    → AllSound zones
    → is_empty names ≡ false
    → Holds NotEmpty (expand zones names true)
unfolding expand expand_into
expand-NotEmpty zones [] h n = cc
expand-NotEmpty zones (name ∷ names) h n =
    and_then-Holds NotEmpty NotEmpty _ _
      (expand_zone-NotEmpty name (get name zones) [] (get-FoundSound name zones h))
      (λ out k. expand_into-NotEmpty zones names out h k)

-- The interfaces that a rule names, by its hook.
abbrev pub has_shape : Chain → List Text → List Text → Bool
has_shape Chain.input ingress egress = is_empty egress
has_shape Chain.forward ingress egress = not (is_empty ingress) && not (is_empty egress)
has_shape Chain.output ingress egress = is_empty ingress

abbrev pub Shaped : ResolvedRule → Type 0
Shaped rule = has_shape rule.chain rule.ingress rule.egress ≡ true
