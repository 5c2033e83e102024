-- ===== src/Zones.antt =====
-- src/zones.rs, with the rule types of src/config.rs. A name is a text; a `BTreeMap` that is only
-- looked up is an association list, and a `BTreeSet` is a sorted list.
pub mod Shape
pub mod Resolved
pub mod Expansion
pub mod Lookup
pub mod Load
use nftblock.Prelude.{
  any, ℕ, ◌+◌, ◌-◌, Bool, true, false, not, ◌&&◌, ◌||◌, Option, none, some, List, [], ◌∷◌, ◌++◌,
  ltb, leb, ◌==◌, if◌then◌else◌,
}
use nftblock.Prelude.Results.{Result, ok, err, and_then}
use nftblock.Text.{Text, trim, is_empty}

-- The order and the equality of texts.
abbrev pub less : Text → Text → Bool
less xs [] = false
less [] (y ∷ ys) = true
less (x ∷ xs) (y ∷ ys) = if ltb x y then true else (x == y && less xs ys)

abbrev pub same : Text → Text → Bool
same [] [] = true
same [] (y ∷ ys) = false
same (x ∷ xs) [] = false
same (x ∷ xs) (y ∷ ys) = x == y && same xs ys

abbrev ascii_upper : ℕ → ℕ
ascii_upper c = if leb b'a' c && leb c b'z' then c - 32 else c

-- `eq_ignore_ascii_case`
abbrev pub eq_ignore_ascii_case : Text → Text → Bool
eq_ignore_ascii_case [] [] = true
eq_ignore_ascii_case [] (y ∷ ys) = false
eq_ignore_ascii_case (x ∷ xs) [] = false
eq_ignore_ascii_case (x ∷ xs) (y ∷ ys) =
    ascii_upper x == ascii_upper y && eq_ignore_ascii_case xs ys

abbrev pub local_name : Text
local_name = b'L' ∷ b'O' ∷ b'C' ∷ b'A' ∷ b'L' ∷ []

-- `BTreeSet`: `insert` and `extend`.
abbrev pub insert : Text → List Text → List Text
insert x [] = x ∷ []
insert x (y ∷ ys) = if less x y then x ∷ y ∷ ys else if same x y then y ∷ ys else y ∷ insert x ys

abbrev pub extend : List Text → List Text → List Text
extend set [] = set
extend set (x ∷ xs) = extend (insert x set) xs

pub data Direction : Type 0 where
  inbound outbound : Direction

pub record RuleMapping : Type 0 where
  pub blocklist : Direction
  pub ingress_zones : List Text
  pub egress_zones : List Text

pub record Rules : Type 0 where
  pub input : List RuleMapping
  pub forward : List RuleMapping
  pub output : List RuleMapping

pub data ZoneValue : Type 0 where
  interfaces : List Text → ZoneValue
  detail : List Text → Bool → ZoneValue

pub record ZoneEntry : Type 0 where
  pub name : Text
  pub interfaces : List Text
  pub local : Bool

pub record Zone : Type 0 where
  pub interfaces : List Text
  pub local : Bool

pub data Chain : Type 0 where
  input forward output : Chain

pub record ResolvedRule : Type 0 where
  pub chain : Chain
  pub blocklist : Direction
  pub ingress : List Text
  pub egress : List Text

pub data ZoneError : Type 0 where
  empty_name : ZoneError
  no_interfaces invalid_interface duplicate_zone unknown_zone local_forward : Text → ZoneError
  input_egress output_ingress forward_zones : ZoneError

abbrev pub Zones : Type 0
Zones = List (Text × Zone)

abbrev pub get : Text → Zones → Option Zone
get name [] = none
get name ((other, zone) ∷ zones) = if same name other then some zone else get name zones

abbrev pub has_zone : Text → Zones → Bool
has_zone name zones = elim (get name zones) [ none ↦ false | some zone ↦ true ]

abbrev pub is_local : ZoneEntry → Bool
is_local entry = entry.local || eq_ignore_ascii_case entry.name local_name

-- `i.is_empty() || i.as_bytes().contains(&0)`
abbrev pub bad_interface : Text → Bool
bad_interface i = is_empty i || any (λ b. b == 0) i

-- The checks of the loop in `from_entries`, in their order, and the insertion.
unfoldable pub add_entry : ZoneEntry → Zones → Result ZoneError Zones
add_entry entry zones =
    if is_empty (trim entry.name)
    then err empty_name
    else if not (is_local entry) && is_empty entry.interfaces
    then err (no_interfaces entry.name)
    else if any bad_interface entry.interfaces
    then err (invalid_interface entry.name)
    else if has_zone entry.name zones
    then err (duplicate_zone entry.name)
    else ok ((entry.name, record { interfaces = entry.interfaces; local = is_local entry }) ∷ zones)

unfoldable pub add_entries : List ZoneEntry → Zones → Result ZoneError Zones
add_entries [] zones = ok zones
add_entries (entry ∷ entries) zones = and_then (add_entry entry zones) (add_entries entries)

unfoldable pub from_entries : List ZoneEntry → Result ZoneError Zones
from_entries entries = add_entries entries []

abbrev pub entry_of : Text × ZoneValue → ZoneEntry
entry_of (name, ZoneValue.interfaces is) = record {
  name = name;
  interfaces = is;
  local = eq_ignore_ascii_case name local_name;
}
entry_of (name, ZoneValue.detail is local) = record { name = name; interfaces = is; local = local }

abbrev pub map_entries : List (Text × ZoneValue) → List ZoneEntry
map_entries [] = []
map_entries (value ∷ values) = entry_of value ∷ map_entries values

-- The map's entries come in the order of their names.
unfoldable pub from_map : List (Text × ZoneValue) → Result ZoneError Zones
from_map values = from_entries (map_entries values)

-- One name of the loop in `expand`.
abbrev pub expand_zone : Text → Bool → Option Zone → List Text → Result ZoneError (List Text)
expand_zone name forwarded none set = err (unknown_zone name)
expand_zone name forwarded (some zone) set =
    if forwarded && zone.local then err (local_forward name) else ok (extend set zone.interfaces)

unfoldable pub expand_into : Zones → List Text → Bool → List Text → Result ZoneError (List Text)
expand_into zones [] forwarded set = ok set
expand_into zones (name ∷ names) forwarded set =
    and_then (expand_zone name forwarded (get name zones) set) (expand_into zones names forwarded)

unfoldable pub expand : Zones → List Text → Bool → Result ZoneError (List Text)
expand zones names forwarded = expand_into zones names forwarded []

abbrev pub is_forward : Chain → Bool
is_forward Chain.input = false
is_forward Chain.forward = true
is_forward Chain.output = false

-- The guards of `resolve_one`.
unfoldable pub check_chain : Chain → RuleMapping → Option ZoneError
check_chain Chain.input rule = if is_empty rule.egress_zones then none else some input_egress
check_chain Chain.output rule = if is_empty rule.ingress_zones then none else some output_ingress
check_chain Chain.forward rule =
    if is_empty rule.ingress_zones || is_empty rule.egress_zones then some forward_zones else none

unfoldable pub resolve_checked :
    Zones → Chain → RuleMapping → Option ZoneError → Result ZoneError ResolvedRule
resolve_checked zones chain rule (some e) = err e
resolve_checked zones chain rule none =
    and_then (expand zones rule.ingress_zones (is_forward chain)) λ ingress.
      and_then (expand zones rule.egress_zones (is_forward chain)) λ egress.
        ok
          (record { chain = chain; blocklist = rule.blocklist; ingress = ingress; egress = egress })

unfoldable pub resolve_one : Zones → Chain → RuleMapping → Result ZoneError ResolvedRule
unfolding resolve_checked
resolve_one zones chain rule = resolve_checked zones chain rule (check_chain chain rule)

-- One of the three loops of `resolve`: `result.push(…?)` for each rule.
unfoldable pub resolve_all :
    Zones → Chain → List RuleMapping → List ResolvedRule → Result ZoneError (List ResolvedRule)
resolve_all zones chain [] result = ok result
resolve_all zones chain (rule ∷ rules) result =
    and_then (resolve_one zones chain rule)
      λ resolved. resolve_all zones chain rules (result ++ resolved ∷ [])

unfoldable pub resolve : Zones → Rules → Result ZoneError (List ResolvedRule)
resolve zones rules = and_then (resolve_all zones Chain.input rules.input []) λ result.
    and_then (resolve_all zones Chain.forward rules.forward result)
      (resolve_all zones Chain.output rules.output)
