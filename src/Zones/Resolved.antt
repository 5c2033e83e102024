-- ===== src/Zones/Resolved.antt =====
-- The rules of `resolve` (src/zones.rs), and those that `render` (src/rules.rs) makes of them, name
-- the interfaces that their hook needs.
use nftblock.Prelude.{
  ◌≡◌, refl, subst, Bool, true, false, not, ◌&&◌, Option, none, some, List, [], ◌∷◌, ◌++◌, All,
  All-append, arith,
}
use nftblock.Prelude.Results.{Result, ok, err}
use nftblock.Text.{Text, is_empty}
use nftblock.Zones.{
  ZoneEntry, Zones, ZoneError, Chain, RuleMapping, Rules, ResolvedRule, from_entries, expand,
  check_chain, resolve_checked, resolve_one, resolve_all, resolve, expand_into,
}
use nftblock.Zones.Shape.{
  Holds, and_then-Holds, AllSound, add_entries-AllSound, expand-NotEmpty, NotEmpty, has_shape,
  Shaped,
}
use nftblock.Rules.{
  RenderedRule, all_some, alternatives, rendered, render_egress, render_ingress, render_into,
  render,
}

any-Holds : {E A : Type 0} (r : Result E A) → Holds (λ _. Unit {0}) r
any-Holds (ok a) = tt
any-Holds (err e) = tt

-- Without names there are no interfaces.
expand-is_empty :
    (zones : Zones) (names : List Text)
    → is_empty names ≡ true
    → Holds (λ out. is_empty out ≡ true) (expand zones names false)
unfolding expand expand_into
expand-is_empty zones [] h = refl
expand-is_empty zones (name ∷ names) h = cc

resolve_checked-Shaped :
    (zones : Zones) (chain : Chain) (rule : RuleMapping) (o : Option ZoneError)
    → AllSound zones
    → check_chain chain rule ≡ o
    → Holds Shaped (resolve_checked zones chain rule o)
unfolding resolve_checked check_chain expand expand_into
resolve_checked-Shaped zones chain rule (some e) h c = tt
resolve_checked-Shaped zones Chain.input rule none h c =
    and_then-Holds (λ _. Unit {0}) Shaped _ _ (any-Holds (expand zones rule.ingress_zones false))
      λ ingress i.
        and_then-Holds (λ out. is_empty out ≡ true) Shaped _ _
          (expand-is_empty zones rule.egress_zones (ground (arith, c))) λ egress e. e
resolve_checked-Shaped zones Chain.output rule none h c =
    and_then-Holds (λ out. is_empty out ≡ true) Shaped _ _
      (expand-is_empty zones rule.ingress_zones (ground (arith, c)))
      λ ingress i.
        and_then-Holds (λ _. Unit {0}) Shaped _ _ (any-Holds (expand zones rule.egress_zones false))
          λ egress e. i
resolve_checked-Shaped zones Chain.forward rule none h c =
    and_then-Holds NotEmpty Shaped _ _
      (expand-NotEmpty zones rule.ingress_zones h (ground (arith, c)))
      λ ingress i.
        and_then-Holds NotEmpty Shaped _ _
          (expand-NotEmpty zones rule.egress_zones h (ground (arith, c))) λ egress e. rw (i, e) refl

resolve_all-Shaped :
    (zones : Zones) (chain : Chain) (rules : List RuleMapping) (result : List ResolvedRule)
    → AllSound zones
    → All Shaped result
    → Holds (All Shaped) (resolve_all zones chain rules result)
unfolding resolve_all resolve_one
resolve_all-Shaped zones chain [] result h s = s
resolve_all-Shaped zones chain (rule ∷ rules) result h s =
    and_then-Holds Shaped (All Shaped) _ _
      (resolve_checked-Shaped zones chain rule (check_chain chain rule) h refl)
      λ resolved r.
        resolve_all-Shaped zones chain rules (result ++ resolved ∷ []) h
          (All-append Shaped result (resolved ∷ []) s (r, tt))

resolve-Shaped :
    (zones : Zones) (rules : Rules) → AllSound zones → Holds (All Shaped) (resolve zones rules)
unfolding resolve
resolve-Shaped zones rules h =
    and_then-Holds (All Shaped) (All Shaped) _ _
      (resolve_all-Shaped zones Chain.input rules.input [] h tt)
      λ a s.
        and_then-Holds (All Shaped) (All Shaped) _ _
          (resolve_all-Shaped zones Chain.forward rules.forward a h s)
          λ b t. resolve_all-Shaped zones Chain.output rules.output b h t

-- The interfaces that a rule of the kernel names.
abbrev named : Option Text → Bool
named none = false
named (some name) = true

abbrev pins : Chain → Bool → Bool → Bool
pins Chain.input iif oif = not oif
pins Chain.forward iif oif = iif && oif
pins Chain.output iif oif = not iif

abbrev pub pinned : RenderedRule → Bool
pinned rule = pins rule.chain (named rule.ingress) (named rule.egress)

all_some-named : (names : List Text) → All (λ o. named o ≡ true) (all_some names)
all_some-named [] = tt
all_some-named (name ∷ names) = (refl, all_some-named names)

alternatives-named :
    (names : List Text) → All (λ o. named o ≡ not (is_empty names)) (alternatives names)
alternatives-named [] = (refl, tt)
alternatives-named (name ∷ names) = all_some-named (name ∷ names)

abbrev AllPinned : List RenderedRule → Type 0
AllPinned rules = All (λ rule. pinned rule ≡ true) rules

-- The names of the alternatives are known to be there or not, by `i` and `e`.
render_egress-AllPinned :
    (rule : ResolvedRule) (i e : Bool) (iif : Option Text) (egress : List (Option Text))
    (out : List RenderedRule)
    → pins rule.chain i e ≡ true
    → named iif ≡ i
    → All (λ o. named o ≡ e) egress
    → AllPinned out
    → AllPinned (render_egress rule iif egress out)
unfolding render_egress
render_egress-AllPinned rule i e iif [] out p n ns h = h
render_egress-AllPinned rule i e iif (oif ∷ egress) out p n ns h =
    render_egress-AllPinned rule i e iif egress (out ++ rendered rule iif oif ∷ []) p n ns.1
      (All-append _ out (rendered rule iif oif ∷ []) h (rw (n, ns.0) p, tt))

render_ingress-AllPinned :
    (rule : ResolvedRule) (i e : Bool) (ingress egress : List (Option Text))
    (out : List RenderedRule)
    → pins rule.chain i e ≡ true
    → All (λ o. named o ≡ i) ingress
    → All (λ o. named o ≡ e) egress
    → AllPinned out
    → AllPinned (render_ingress rule ingress egress out)
unfolding render_ingress
render_ingress-AllPinned rule i e [] egress out p ms ns h = h
render_ingress-AllPinned rule i e (iif ∷ ingress) egress out p ms ns h =
    render_ingress-AllPinned rule i e ingress egress (render_egress rule iif egress out) p ms.1 ns
      (render_egress-AllPinned rule i e iif egress out p ms.0 ns h)

shape-pins :
    (chain : Chain) (ingress egress : List Text)
    → has_shape chain ingress egress ≡ true
    → pins chain (not (is_empty ingress)) (not (is_empty egress)) ≡ true
shape-pins Chain.input ingress egress h = rw h refl
shape-pins Chain.forward ingress egress h = h
shape-pins Chain.output ingress egress h = rw h refl

render_into-AllPinned :
    (rules : List ResolvedRule) (out : List RenderedRule)
    → All Shaped rules
    → AllPinned out
    → AllPinned (render_into rules out)
unfolding render_into
render_into-AllPinned [] out s h = h
render_into-AllPinned (rule ∷ rules) out s h = render_into-AllPinned rules _ s.1 (
    render_ingress-AllPinned rule _ _ (alternatives rule.ingress) (alternatives rule.egress) out
      (shape-pins rule.chain rule.ingress rule.egress s.0) (alternatives-named rule.ingress)
      (alternatives-named rule.egress) h)

from_entries-AllSound : (entries : List ZoneEntry) → Holds AllSound (from_entries entries)
unfolding from_entries
from_entries-AllSound entries = add_entries-AllSound entries [] tt

-- When the zones are accepted and the rules resolve with them, each rule that the kernel gets for
-- the forward hook names both interfaces, one for the input hook names no egress interface, and one
-- for the output hook no ingress interface.
pub render-pinned :
    (entries : List ZoneEntry) (zones : Zones) (rules : Rules) (resolved : List ResolvedRule)
    → from_entries entries ≡ ok zones
    → resolve zones rules ≡ ok resolved
    → All (λ rule. pinned rule ≡ true) (render resolved)
unfolding render
render-pinned entries zones rules resolved e r =
    let sound : AllSound zones = subst (Holds AllSound) e (from_entries-AllSound entries) in
    render_into-AllPinned resolved []
      (subst (Holds (All Shaped)) r (resolve-Shaped zones rules sound)) tt
