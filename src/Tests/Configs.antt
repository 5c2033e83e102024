-- ===== src/Tests/Configs.antt =====
-- A configuration (src/config.rs) with nftables rules and an XDP rule on other interfaces, and the
-- witness.
use nftblock.Prelude.{◌≡◌, refl, false, some, [], ◌∷◌}
use nftblock.Prelude.Results.{ok, err}
use nftblock.Text.{codes}
use nftblock.Zones.{
  Direction, Zones, resolve, resolve_all, resolve_one, resolve_checked, check_chain, expand,
  expand_into,
}
use nftblock.Zones.Load.{ParserLib}
use nftblock.Config.{
  Config, ConfigError, uses, uses_nftables, blocklist_path, resolve_rules, resolve_xdp_from,
  resolve_xdp_interfaces,
}
use nftblock.Config.Validate.{
  overlaps, validate, validate_rules, load_zones, check_xdp_rules, check_blocklist, check_overlap,
}
use nftblock.Config.Accepted.{Accepted, validate-Accepted}
use nftblock.Tests.Samples.{Refused, refused}
use nftblock.Tests.Maps.{SampleFile, sample_files}
use nftblock.Tests.Backends.{sample_config}

abbrev sample_parser : ParserLib
sample_parser = record {
  ParseError = Refused;
  ConfigParseError = Refused;
  parse_zones = λ text. err refused;
}

abbrev zones : Zones
zones =
    (codes "wan", record { interfaces = codes "wan0" ∷ []; local = false })
    ∷ (codes "lan", record { interfaces = codes "lan0" ∷ []; local = false })
    ∷ (codes "dmz", record { interfaces = codes "dmz0" ∷ []; local = false })
    ∷ []

abbrev config : Config SampleFile
config = record sample_config {
  zones = some zones;
  xdp = record sample_config.xdp {
    rules = record { blocklist = Direction.inbound; ingress_zones = codes "dmz" ∷ [] } ∷ [];
  };
}

validate_config : validate sample_files sample_parser config false ≡ ok tt
unfolding validate validate_rules load_zones check_xdp_rules check_blocklist check_overlap uses
    uses_nftables blocklist_path resolve_rules resolve_xdp_from resolve_xdp_interfaces overlaps
    resolve resolve_all resolve_one resolve_checked check_chain expand expand_into
validate_config = refl

-- The same with an XDP rule on the interface of the nftables rule.
overlapping :
    validate sample_files sample_parser
      (record config {
        xdp = record sample_config.xdp {
          rules = record { blocklist = Direction.inbound; ingress_zones = codes "wan" ∷ [] } ∷ [];
        };
      })
      false
    ≡ err ConfigError.overlap
unfolding validate validate_rules load_zones check_xdp_rules check_blocklist check_overlap uses
    uses_nftables blocklist_path resolve_rules resolve_xdp_from resolve_xdp_interfaces overlaps
    resolve resolve_all resolve_one resolve_checked check_chain expand expand_into
overlapping = refl

validate-Accepted_example : Accepted sample_files sample_parser config
validate-Accepted_example = validate-Accepted sample_files sample_parser config validate_config
