-- ===== src/Tests/Rules.antt =====
-- Zones and rules (src/zones.rs, src/rules.rs) at concrete inputs, and the witnesses.
use nftblock.Prelude.{any, ◌≡◌, refl, true, false, List, [], ◌∷◌, All}
use nftblock.Prelude.Results.{ok, err}
use nftblock.Text.{Text, trim, trim_start, is_whitespace}
use nftblock.Zones.{
  ZoneEntry, Zones, ZoneError, Direction, Chain, RuleMapping, Rules, ResolvedRule, from_entries,
  from_map, add_entries, add_entry, expand, expand_into, resolve, resolve_all, resolve_one,
  resolve_checked, check_chain, same, get, ZoneValue,
}
use nftblock.Zones.Lookup.{get-from_entries, find_entry}
use nftblock.Zones.Resolved.{render-pinned, pinned}
use nftblock.Zones.Expansion.{expand-union, failure-expand, first_refusal, failure, has, Ascending}
use nftblock.Rules.{render}
use nftblock.Rules.Matching.{Packet, IsRemote, any-render, matches, means}

abbrev wan : Text
wan = b'W' ∷ b'A' ∷ b'N' ∷ []

abbrev lan : Text
lan = b'L' ∷ b'A' ∷ b'N' ∷ []

abbrev own : Text
own = b'l' ∷ b'o' ∷ b'c' ∷ b'a' ∷ b'l' ∷ []

abbrev eth0 : Text
eth0 = b'e' ∷ b'0' ∷ []

abbrev eth1 : Text
eth1 = b'e' ∷ b'1' ∷ []

abbrev eth2 : Text
eth2 = b'e' ∷ b'2' ∷ []

abbrev entries : List ZoneEntry
entries =
    record { name = wan; interfaces = eth1 ∷ eth0 ∷ []; local = false }
    ∷ record { name = lan; interfaces = eth2 ∷ []; local = false }
    ∷ record { name = own; interfaces = []; local = false }
    ∷ []

abbrev zones : Zones
zones =
    (own, record { interfaces = []; local = true })
    ∷ (lan, record { interfaces = eth2 ∷ []; local = false })
    ∷ (wan, record { interfaces = eth1 ∷ eth0 ∷ []; local = false })
    ∷ []

accepted : from_entries entries ≡ ok zones
unfolding from_entries add_entries add_entry trim trim_start is_whitespace
accepted = refl

empty_zone : from_map ((wan, ZoneValue.interfaces []) ∷ []) ≡ err (ZoneError.no_interfaces wan)
unfolding from_map from_entries add_entries add_entry trim trim_start is_whitespace
empty_zone = refl

abbrev across : RuleMapping
across = record { blocklist = Direction.inbound; ingress_zones = wan ∷ []; egress_zones = lan ∷ [] }

abbrev rules : Rules
rules = record { input = []; forward = across ∷ []; output = [] }

abbrev resolved : List ResolvedRule
resolved =
    record {
      chain = Chain.forward;
      blocklist = Direction.inbound;
      ingress = eth0 ∷ eth1 ∷ [];
      egress = eth2 ∷ [];
    }
    ∷ []

resolve-rules : resolve zones rules ≡ ok resolved
unfolding resolve resolve_all resolve_one resolve_checked check_chain expand expand_into
resolve-rules = refl

local_refused : expand zones (wan ∷ own ∷ []) true ≡ err (ZoneError.local_forward own)
unfolding expand expand_into
local_refused = refl

expand-wan : expand zones (wan ∷ lan ∷ wan ∷ []) true ≡ ok (eth0 ∷ eth1 ∷ eth2 ∷ [])
unfolding expand expand_into
expand-wan = refl

render-pinned_example : All (λ rule. pinned rule ≡ true) (render resolved)
render-pinned_example = render-pinned entries zones rules resolved accepted resolve-rules

expand-union_example :
    (any (same eth1) (eth0 ∷ eth1 ∷ eth2 ∷ [])
      ≡ any (λ name. has eth1 (get name zones)) (wan ∷ lan ∷ wan ∷ []))
    × Ascending (eth0 ∷ eth1 ∷ eth2 ∷ [])
expand-union_example =
    expand-union zones (wan ∷ lan ∷ wan ∷ []) (eth0 ∷ eth1 ∷ eth2 ∷ []) true eth1 expand-wan

failure-expand_example :
    failure (expand zones (wan ∷ own ∷ []) true) ≡ first_refusal zones (wan ∷ own ∷ []) true
failure-expand_example = failure-expand zones (wan ∷ own ∷ []) true

abbrev crossing : Packet
crossing = record { chain = Chain.forward; direction = Direction.inbound; iif = eth1; oif = eth2 }

any-render_example :
    (any (matches crossing) (render resolved) ≡ any (means crossing) resolved)
    × All (λ rule. IsRemote rule.direction rule.address) (render resolved)
any-render_example = any-render crossing resolved

get-from_entries_example : get lan zones ≡ find_entry lan entries
get-from_entries_example = get-from_entries entries zones lan accepted
