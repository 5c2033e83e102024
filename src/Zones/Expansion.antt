-- ===== src/Zones/Expansion.antt =====
-- `expand` (src/zones.rs): the interfaces of the named zones, each once, in order.
use nftblock.Prelude.{
  any, ◌≡◌, refl, ap, subst, Bool, true, false, ◌&&◌, ◌||◌, Option, none, some, List, [], ◌∷◌,
  Bool-cases, inl, inr, arith, if◌then◌else◌, ==→≡,
}
use nftblock.Prelude.Results.{Result, ok, err, and_then}
use nftblock.Text.{Text}
use nftblock.Zones.{
  Zone, Zones, ZoneError, get, insert, extend, less, same, expand_zone, expand_into, expand,
}
use nftblock.Zones.Shape.{Holds, and_then-Holds}

pub same→≡ : (xs ys : Text) → same xs ys ≡ true → xs ≡ ys
same→≡ [] [] h = refl
same→≡ [] (y ∷ ys) h = cc
same→≡ (x ∷ xs) [] h = cc
same→≡ (x ∷ xs) (y ∷ ys) h =
    let head : x ≡ y = ==→≡ x y (ground (arith, h)) in
    let tail : same xs ys ≡ true = ground (arith, h) in rw (head, same→≡ xs ys tail)

less_or_same : (xs ys : Text) → less xs ys ≡ false → same xs ys ≡ false → less ys xs ≡ true
less_or_same [] [] h k = cc
less_or_same [] (y ∷ ys) h k = cc
less_or_same (x ∷ xs) [] h k = refl
less_or_same (x ∷ xs) (y ∷ ys) h k = ground (arith, h, k, less_or_same xs ys)

any-insert :
    (x y : Text) (set : List Text) → any (same x) (insert y set) ≡ (same x y || any (same x) set)
any-insert x y [] = refl
any-insert x y (z ∷ set) = elim (Bool-cases (same y z)) [
  | inl e ↦ let there : same x y ≡ same x z = ap (same x) (same→≡ y z e) in ground (arith, e, there)
  | inr e ↦ ground (arith, e, any-insert x y set)
]

any-extend :
    (x : Text) (set new : List Text)
    → any (same x) (extend set new) ≡ (any (same x) set || any (same x) new)
any-extend x set [] = ground arith
any-extend x set (y ∷ new) = ground (arith, any-extend x (insert y set) new, any-insert x y set)

-- A zone that was looked up has the interface.
abbrev pub has : Text → Option Zone → Bool
has x none = false
has x (some zone) = any (same x) zone.interfaces

abbrev AddsUp : Zones → List Text → List Text → List Text → Type 0
AddsUp zones names set out =
    (x : Text) → any (same x) out ≡ (any (same x) set || any (λ name. has x (get name zones)) names)

abbrev AddsZone : Option Zone → List Text → List Text → Type 0
AddsZone found set out = (x : Text) → any (same x) out ≡ (any (same x) set || has x found)

expand_zone-AddsUp :
    (name : Text) (forwarded : Bool) (found : Option Zone) (set : List Text)
    → Holds (AddsZone found set) (expand_zone name forwarded found set)
expand_zone-AddsUp name forwarded none set = tt
expand_zone-AddsUp name forwarded (some zone) set = elim (Bool-cases (forwarded && zone.local)) [
  | inl e ↦ rw e tt
  | inr e ↦ rw e (λ x. any-extend x set zone.interfaces)
]

pub Holds-mono :
    {E A : Type 0} (P Q : A → Type 0) (r : Result E A)
    → ((a : A) → P a → Q a)
    → Holds P r
    → Holds Q r
Holds-mono P Q (ok a) f h = f a h
Holds-mono P Q (err e) f h = tt

expand_into-AddsUp :
    (zones : Zones) (names : List Text) (forwarded : Bool) (set : List Text)
    → Holds (AddsUp zones names set) (expand_into zones names forwarded set)
unfolding expand_into
expand_into-AddsUp zones [] forwarded set = λ x. ground arith
expand_into-AddsUp zones (name ∷ names) forwarded set =
    and_then-Holds (AddsZone (get name zones) set) (AddsUp zones (name ∷ names) set) _ _
      (expand_zone-AddsUp name forwarded (get name zones) set)
      λ out a.
        Holds-mono (AddsUp zones names out) (AddsUp zones (name ∷ names) set)
          (expand_into zones names forwarded out) (λ end b x. ground (arith, a x, b x))
          (expand_into-AddsUp zones names forwarded out)

-- Each name is less than the next.
abbrev pub Ascending : List Text → Type 0
Ascending [] = Unit
Ascending (x ∷ []) = Unit
Ascending (x ∷ y ∷ ys) = (less x y ≡ true) × Ascending (y ∷ ys)

insert-Ascending : (x : Text) (set : List Text) → Ascending set → Ascending (insert x set)
insert-Ascending x [] h = tt
insert-Ascending x (y ∷ set) h = elim (Bool-cases (less x y)) [
  | inl e ↦ rw e (e, h)
  | inr e ↦ rw e (elim (Bool-cases (same x y)) [
    | inl f ↦ rw f h
    | inr f ↦ rw f (insert_behind x y set (less_or_same x y e f) h)
  ])
]
  where
    insert_behind :
        (x y : Text) (set : List Text)
        → less y x ≡ true
        → Ascending (y ∷ set)
        → Ascending (y ∷ insert x set)
    insert_behind x y [] l h = (l, tt)
    insert_behind x y (z ∷ set) l h = elim (Bool-cases (less x z)) [
      | inl e ↦ rw e (l, (e, h.1))
      | inr e ↦ rw e (elim (Bool-cases (same x z)) [
        | inl f ↦ rw f h
        | inr f ↦ rw f (h.0, insert_behind x z set (less_or_same x z e f) h.1)
      ])
    ]

extend-Ascending : (set new : List Text) → Ascending set → Ascending (extend set new)
extend-Ascending set [] h = h
extend-Ascending set (x ∷ new) h = extend-Ascending (insert x set) new (insert-Ascending x set h)

expand_zone-Ascending :
    (name : Text) (forwarded : Bool) (found : Option Zone) (set : List Text)
    → Ascending set
    → Holds Ascending (expand_zone name forwarded found set)
expand_zone-Ascending name forwarded none set h = tt
expand_zone-Ascending name forwarded (some zone) set h =
    elim (Bool-cases (forwarded && zone.local)) [
      | inl e ↦ rw e tt
      | inr e ↦ rw e (extend-Ascending set zone.interfaces h)
    ]

expand_into-Ascending :
    (zones : Zones) (names : List Text) (forwarded : Bool) (set : List Text)
    → Ascending set
    → Holds Ascending (expand_into zones names forwarded set)
unfolding expand_into
expand_into-Ascending zones [] forwarded set h = h
expand_into-Ascending zones (name ∷ names) forwarded set h =
    and_then-Holds _ _ _ _ (expand_zone-Ascending name forwarded (get name zones) set h)
      λ out a. expand_into-Ascending zones names forwarded out a

-- When the names expand, the list has an interface exactly when one of the named zones has it, and
-- the list is strictly ascending, so it has each interface once.
pub expand-union :
    (zones : Zones) (names out : List Text) (forwarded : Bool) (x : Text)
    → expand zones names forwarded ≡ ok out
    → (any (same x) out ≡ any (λ name. has x (get name zones)) names) × Ascending out
unfolding expand
expand-union zones names out forwarded x e = (
  subst (Holds (AddsUp zones names [])) e (expand_into-AddsUp zones names forwarded []) x,
  subst (Holds Ascending) e (expand_into-Ascending zones names forwarded [] tt),
)

-- Why a name is refused.
abbrev pub refusal : Bool → Text → Option Zone → Option ZoneError
refusal forwarded name none = some (ZoneError.unknown_zone name)
refusal forwarded name (some zone) =
    if forwarded && zone.local then some (ZoneError.local_forward name) else none

abbrev pub first_refusal : Zones → List Text → Bool → Option ZoneError
first_refusal zones [] forwarded = none
first_refusal zones (name ∷ names) forwarded = elim (refusal forwarded name (get name zones)) [
  | none ↦ first_refusal zones names forwarded
  | some e ↦ some e
]

abbrev pub failure : {E A : Type 0} → Result E A → Option E
failure (ok a) = none
failure (err e) = some e

-- One name, and then the others, whatever they do with the set.
expand_zone_lem :
    (name : Text) (forwarded : Bool) (found : Option Zone) (set : List Text)
    (others : List Text → Result ZoneError (List Text)) (v : Option ZoneError)
    → ((out : List Text) → failure (others out) ≡ v)
    → failure (and_then (expand_zone name forwarded found set) others)
      ≡ elim (refusal forwarded name found) [ none ↦ v | some e ↦ some e ]
expand_zone_lem name forwarded none set others v h = refl
expand_zone_lem name forwarded (some zone) set others v h =
    elim (Bool-cases (forwarded && zone.local)) [
      | inl e ↦ rw e refl
      | inr e ↦ rw e (h (extend set zone.interfaces))
    ]

expand_into_lem :
    (zones : Zones) (names : List Text) (forwarded : Bool) (set : List Text)
    → failure (expand_into zones names forwarded set) ≡ first_refusal zones names forwarded
unfolding expand_into
expand_into_lem zones [] forwarded set = refl
expand_into_lem zones (name ∷ names) forwarded set =
    expand_zone_lem name forwarded (get name zones) set (expand_into zones names forwarded)
      (first_refusal zones names forwarded) (expand_into_lem zones names forwarded)

-- The expansion fails exactly when a name is no zone, or is a local zone in a forward rule, and its
-- error is that of the first such name.
pub failure-expand :
    (zones : Zones) (names : List Text) (forwarded : Bool)
    → failure (expand zones names forwarded) ≡ first_refusal zones names forwarded
unfolding expand
failure-expand zones names forwarded = expand_into_lem zones names forwarded []
