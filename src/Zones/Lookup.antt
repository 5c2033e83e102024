-- ===== src/Zones/Lookup.antt =====
-- What is found in the zones that `from_entries` (src/zones.rs) makes of the entries.
use nftblock.Prelude.{
  any, ◌≡◌, refl, ap, ◌∙◌, subst, true, false, not, ◌&&◌, Option, none, some, List, [], ◌∷◌,
  Bool-cases, inl, inr, if◌then◌else◌,
}
use nftblock.Prelude.Results.{ok}
use nftblock.Text.{Text, is_empty, trim}
use nftblock.Zones.{
  Zone, ZoneEntry, Zones, get, same, is_local, has_zone, bad_interface, add_entry, add_entries,
  from_entries,
}
use nftblock.Zones.Shape.{Holds, and_then-Holds}
use nftblock.Zones.Expansion.{same→≡, Holds-mono}

abbrev pub zone_of : ZoneEntry → Zone
zone_of entry = record { interfaces = entry.interfaces; local = is_local entry }

-- The zone of the first entry with the name.
abbrev pub find_entry : Text → List ZoneEntry → Option Zone
find_entry name [] = none
find_entry name (entry ∷ entries) =
    if same name entry.name then some (zone_of entry) else find_entry name entries

abbrev or_else : Option Zone → Option Zone → Option Zone
or_else none found = found
or_else (some zone) found = some zone

-- An accepted entry is new, and comes first.
Added : ZoneEntry → Zones → Zones → Type 0
Added entry zones out =
    (has_zone entry.name zones ≡ false) × (out ≡ (entry.name, zone_of entry) ∷ zones)

add_entry-Added :
    (entry : ZoneEntry) (zones : Zones) → Holds (Added entry zones) (add_entry entry zones)
unfolding add_entry Added
add_entry-Added entry zones = elim (Bool-cases (is_empty (trim entry.name))) [
  | inl a ↦ rw a tt
  | inr a ↦ rw a (elim (Bool-cases (not (is_local entry) && is_empty entry.interfaces)) [
    | inl b ↦ rw b tt
    | inr b ↦ rw b (elim (Bool-cases (any bad_interface entry.interfaces)) [
      | inl c ↦ rw c tt
      | inr c ↦ rw c (elim (Bool-cases (has_zone entry.name zones)) [
        | inl d ↦ rw d tt
        | inr d ↦ rw d (d, refl)
      ])
    ])
  ])
]

missing : (o : Option Zone) → elim o [ none ↦ false | some zone ↦ true ] ≡ false → o ≡ none
missing none h = refl
missing (some zone) h = cc

found_first :
    (name : Text) (entry : ZoneEntry) (entries : List ZoneEntry) (zones : Zones)
    → has_zone entry.name zones ≡ false
    → or_else (get name ((entry.name, zone_of entry) ∷ zones)) (find_entry name entries)
      ≡ or_else (get name zones) (find_entry name (entry ∷ entries))
found_first name entry entries zones h = elim (Bool-cases (same name entry.name)) [
  | inl e ↦
      let absent : get name zones ≡ none =
        ap (λ n. get n zones) (same→≡ name entry.name e) ∙ missing (get entry.name zones) h in
      rw (e, absent) refl
  | inr e ↦ rw e refl
]

add_entries-get :
    (name : Text) (entries : List ZoneEntry) (zones : Zones)
    → Holds
        (λ out. get name out ≡ or_else (get name zones) (find_entry name entries))
        (add_entries entries zones)
unfolding add_entries Added
add_entries-get name [] zones = or_none (get name zones)
  where
    or_none : (o : Option Zone) → o ≡ or_else o none
    or_none none = refl
    or_none (some zone) = refl
add_entries-get name (entry ∷ entries) zones =
    and_then-Holds (Added entry zones)
      (λ out. get name out ≡ or_else (get name zones) (find_entry name (entry ∷ entries))) _ _
      (add_entry-Added entry zones)
      λ out a.
        Holds-mono (λ end. get name end ≡ or_else (get name out) (find_entry name entries))
          (λ end. get name end ≡ or_else (get name zones) (find_entry name (entry ∷ entries)))
          (add_entries entries out)
          (λ end b.
            b
            ∙ ap (λ z. or_else (get name z) (find_entry name entries)) a.1
            ∙ found_first name entry entries zones a.0)
          (add_entries-get name entries out)

-- When the entries are accepted, looking a name up finds the zone of the entry with that name, made
-- local also by the name LOCAL, and nothing where no entry has the name.
pub get-from_entries :
    (entries : List ZoneEntry) (zones : Zones) (name : Text)
    → from_entries entries ≡ ok zones
    → get name zones ≡ find_entry name entries
unfolding from_entries
get-from_entries entries zones name e =
    subst (Holds (λ out. get name out ≡ find_entry name entries)) e
      (add_entries-get name entries [])
