-- ===== src/Rules.antt =====
-- src/rules.rs: the rules that nftables gets, one for each pair of interfaces.
pub mod Matching
use nftblock.Prelude.{Option, none, some, List, [], ◌∷◌, ◌++◌}
use nftblock.Text.{Text}
use nftblock.Zones.{Direction, Chain, ResolvedRule}

pub data AddressField : Type 0 where
  source destination : AddressField

pub record RenderedRule : Type 0 where
  pub chain : Chain
  pub direction : Direction
  pub ingress : Option Text
  pub egress : Option Text
  pub address : AddressField

abbrev pub field_of : Direction → AddressField
field_of Direction.inbound = source
field_of Direction.outbound = destination

abbrev pub all_some : List Text → List (Option Text)
all_some [] = []
all_some (name ∷ names) = some name ∷ all_some names

-- `vec![None]` or the names, each under `Some`.
abbrev pub alternatives : List Text → List (Option Text)
alternatives [] = none ∷ []
alternatives (name ∷ names) = all_some (name ∷ names)

abbrev pub rendered : ResolvedRule → Option Text → Option Text → RenderedRule
rendered rule iif oif = record {
  chain = rule.chain;
  direction = rule.blocklist;
  ingress = iif;
  egress = oif;
  address = field_of rule.blocklist;
}

-- The inner and the outer loop over the interfaces, and the loop over the rules; each pushes at the end.
unfoldable pub render_egress :
    ResolvedRule → Option Text → List (Option Text) → List RenderedRule → List RenderedRule
render_egress rule iif [] out = out
render_egress rule iif (oif ∷ egress) out =
    render_egress rule iif egress (out ++ rendered rule iif oif ∷ [])

unfoldable pub render_ingress :
    ResolvedRule → List (Option Text) → List (Option Text) → List RenderedRule → List RenderedRule
render_ingress rule [] egress out = out
render_ingress rule (iif ∷ ingress) egress out =
    render_ingress rule ingress egress (render_egress rule iif egress out)

unfoldable pub render_into : List ResolvedRule → List RenderedRule → List RenderedRule
render_into [] out = out
render_into (rule ∷ rules) out =
    render_into rules
      (render_ingress rule (alternatives rule.ingress) (alternatives rule.egress) out)

unfoldable pub render : List ResolvedRule → List RenderedRule
render rules = render_into rules []
