-- ===== src/Rules/Matching.antt =====
-- Which packets the rules of `render` (src/rules.rs) match: within a rule both interfaces must fit,
-- and between rules one that matches is enough.
use nftblock.Prelude.{
  any-append, any, All, All-append, ◌≡◌, refl, sym, subst, Bool, true, false, ◌&&◌, ◌||◌, Option,
  none, some, List, [], ◌∷◌, ◌++◌, arith,
}
use nftblock.Text.{Text, is_empty}
use nftblock.Config.{same_direction}
use nftblock.Zones.{Direction, Chain, ResolvedRule, same}
use nftblock.Rules.{
  RenderedRule, AddressField, field_of, all_some, alternatives, rendered, render_egress,
  render_ingress, render_into, render,
}

-- A packet in a hook, with its interfaces, that may be looked up in the blocklist of a direction: a
-- rule of the kernel jumps to the chain that looks it up.
pub record Packet : Type 0 where
  pub chain : Chain
  pub direction : Direction
  pub iif : Text
  pub oif : Text

abbrev pub same_chain : Chain → Chain → Bool
same_chain Chain.input Chain.input = true
same_chain Chain.forward Chain.forward = true
same_chain Chain.output Chain.output = true
same_chain _ _ = false

-- The field that holds the remote address: traffic that comes in has it as its source.
abbrev pub IsRemote : Direction → AddressField → Type 0
IsRemote Direction.inbound AddressField.source = Unit
IsRemote Direction.inbound AddressField.destination = ⊥
IsRemote Direction.outbound AddressField.source = ⊥
IsRemote Direction.outbound AddressField.destination = Unit

-- No interface stands for all.
abbrev pub fits : Option Text → Text → Bool
fits none name = true
fits (some other) name = same other name

abbrev pub one_of : List Text → Text → Bool
one_of names name = is_empty names || any (λ other. same other name) names

-- A rule of the kernel matches a packet; a resolved rule means a packet.
abbrev pub matches : Packet → RenderedRule → Bool
matches p rule =
    same_chain rule.chain p.chain
    && same_direction rule.direction p.direction
    && fits rule.ingress p.iif
    && fits rule.egress p.oif

abbrev pub means : Packet → ResolvedRule → Bool
means p rule =
    same_chain rule.chain p.chain
    && same_direction rule.blocklist p.direction
    && one_of rule.ingress p.iif
    && one_of rule.egress p.oif

module _ (p : Packet) where
  any_fits : Text → List (Option Text) → Bool
  any_fits name os = any (λ o. fits o name) os

  any_fits-all_some :
      (names : List Text) (name : Text)
      → any_fits name (all_some names) ≡ any (λ other. same other name) names
  unfolding any_fits
  any_fits-all_some [] name = refl
  any_fits-all_some (other ∷ names) name = ground (arith, any_fits-all_some names name)

  alternatives_lem :
      (names : List Text) (name : Text) → any_fits name (alternatives names) ≡ one_of names name
  unfolding any_fits
  alternatives_lem [] name = refl
  alternatives_lem (other ∷ names) name = any_fits-all_some (other ∷ names) name

  base : ResolvedRule → Bool
  base rule = same_chain rule.chain p.chain && same_direction rule.blocklist p.direction

  any-render_egress :
      (rule : ResolvedRule) (iif : Option Text) (egress : List (Option Text))
      (out : List RenderedRule)
      → any (matches p) (render_egress rule iif egress out)
        ≡ (any (matches p) out || (base rule && fits iif p.iif && any_fits p.oif egress))
  unfolding render_egress any_fits base
  any-render_egress rule iif [] out = ground arith
  any-render_egress rule iif (oif ∷ egress) out = ground (
    arith,
    any-render_egress rule iif egress (out ++ rendered rule iif oif ∷ []),
    any-append (matches p) out (rendered rule iif oif ∷ []),
  )

  any-render_ingress :
      (rule : ResolvedRule) (ingress egress : List (Option Text)) (out : List RenderedRule)
      → any (matches p) (render_ingress rule ingress egress out)
        ≡ (any (matches p) out || (base rule && any_fits p.iif ingress && any_fits p.oif egress))
  unfolding render_ingress any_fits
  any-render_ingress rule [] egress out = ground arith
  any-render_ingress rule (iif ∷ ingress) egress out = ground (
    arith,
    any-render_ingress rule ingress egress (render_egress rule iif egress out),
    any-render_egress rule iif egress out,
  )

  any-render_into :
      (rules : List ResolvedRule) (out : List RenderedRule)
      → any (matches p) (render_into rules out) ≡ (any (matches p) out || any (means p) rules)
  unfolding render_into base
  any-render_into [] out = ground arith
  any-render_into (rule ∷ rules) out = ground (
    arith,
    any-render_into rules
        (render_ingress rule (alternatives rule.ingress) (alternatives rule.egress) out),
    any-render_ingress rule (alternatives rule.ingress) (alternatives rule.egress) out,
    alternatives_lem rule.ingress p.iif,
    alternatives_lem rule.egress p.oif,
  )

abbrev OnRemote : RenderedRule → Type 0
OnRemote rule = IsRemote rule.direction rule.address

rendered-OnRemote :
    (rule : ResolvedRule) (iif oif : Option Text) (d : Direction)
    → rule.blocklist ≡ d
    → OnRemote (rendered rule iif oif)
rendered-OnRemote rule iif oif d h = subst (λ x. IsRemote x (field_of x)) (sym h) (by_direction d)
  where
    by_direction : (x : Direction) → IsRemote x (field_of x)
    by_direction Direction.inbound = tt
    by_direction Direction.outbound = tt

render_egress-OnRemote :
    (rule : ResolvedRule) (iif : Option Text) (egress : List (Option Text))
    (out : List RenderedRule)
    → All OnRemote out
    → All OnRemote (render_egress rule iif egress out)
unfolding render_egress
render_egress-OnRemote rule iif [] out h = h
render_egress-OnRemote rule iif (oif ∷ egress) out h = render_egress-OnRemote rule iif egress _ (
    All-append OnRemote out (rendered rule iif oif ∷ []) h
      (rendered-OnRemote rule iif oif rule.blocklist refl, tt))

render_ingress-OnRemote :
    (rule : ResolvedRule) (ingress egress : List (Option Text)) (out : List RenderedRule)
    → All OnRemote out
    → All OnRemote (render_ingress rule ingress egress out)
unfolding render_ingress
render_ingress-OnRemote rule [] egress out h = h
render_ingress-OnRemote rule (iif ∷ ingress) egress out h =
    render_ingress-OnRemote rule ingress egress _ (render_egress-OnRemote rule iif egress out h)

render_into-OnRemote :
    (rules : List ResolvedRule) (out : List RenderedRule)
    → All OnRemote out
    → All OnRemote (render_into rules out)
unfolding render_into
render_into-OnRemote [] out h = h
render_into-OnRemote (rule ∷ rules) out h =
    render_into-OnRemote rules _
      (render_ingress-OnRemote rule (alternatives rule.ingress) (alternatives rule.egress) out h)

-- A packet in a hook is sent to the blocklist of a direction by some rule that the kernel gets
-- exactly when some resolved rule means it: its hook and its blocklist are the rule's, and each of
-- its two interfaces is among those of the rule, where a rule that names none means all. Each rule
-- that the kernel gets names the source as its address field when it is for the inbound blocklist,
-- and the destination when it is for the outbound one.
pub any-render :
    (p : Packet) (rules : List ResolvedRule)
    → (any (matches p) (render rules) ≡ any (means p) rules)
      × All (λ rule. IsRemote rule.direction rule.address) (render rules)
unfolding render
any-render p rules = (any-render_into p rules [], render_into-OnRemote rules [] tt)
