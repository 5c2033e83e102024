-- ===== src/Config/Validate.antt =====
-- `load_zones` and `validate` of src/config.rs: the guards, in their order.
use nftblock.Prelude.{
  ◌*◌, Bool, true, false, not, ◌&&◌, ◌||◌, Option, none, some, List, [], ◌∷◌, ltb, ◌==◌,
  if◌then◌else◌, any,
}
use nftblock.Prelude.Results.{Result, ok, err, and_then}
use nftblock.Prelude.Effects.{map_err}
use nftblock.Text.{Text, is_empty}
use nftblock.Files.{FileLib}
use nftblock.Zones.{Direction, inbound, outbound, Rules, Chain, ResolvedRule, Zones, same}
use nftblock.Zones.Load.{ParserLib, load as load_document}
use nftblock.Config.{
  XdpRule, Config, ConfigError, load_failed, zones_failed, invalid_table, zero_interval, small_page,
  zero_batch, zero_xdp, relative_pin_path, no_rules, xdp_outbound, xdp_without_zones, no_zones,
  two_zones, overlap, missing_blocklist, same_direction, is_some, table_char, uses, blocklist_path,
  resolve_rules, resolve_xdp_interfaces,
}

abbrev pub input_or_forward : Chain → Bool
input_or_forward Chain.input = true
input_or_forward Chain.forward = true
input_or_forward Chain.output = false

-- The guards in the loop over the resolved rules.
unfoldable pub overlaps : List Text → ResolvedRule → Bool
overlaps interfaces rule =
    same_direction rule.blocklist inbound
    && input_or_forward rule.chain
    && (is_empty rule.ingress || any (λ name. any (same name) interfaces) rule.ingress)

abbrev pub no_mappings : Rules → Bool
no_mappings rules = is_empty rules.input && is_empty rules.forward && is_empty rules.output

-- `(&files.zones, &zones)`
abbrev pub zones_source :
    {P E A : Type 0}
    → Option P
    → Option Zones
    → (P → Result E A)
    → (Zones → Result E A)
    → E
    → E
    → Result E A
zones_source (some path) none f g e d = f path
zones_source none (some zones) f g e d = g zones
zones_source none none f g e d = err e
zones_source (some path) (some zones) f g e d = err d

module _ (files : FileLib) (parser : ParserLib) where
  abbrev pub Error : Type 0
  Error = ConfigError files.OpenError parser.ParseError parser.ConfigParseError

  unfoldable pub load_zones : Config files.FilePath → Result Error Zones
  load_zones config =
      zones_source config.files.zones config.zones
        (λ path. map_err load_failed (load_document files parser path)) ok no_zones two_zones

  unfoldable pub check_xdp_rules : List XdpRule → Result Error (Unit {0})
  check_xdp_rules [] = ok tt
  check_xdp_rules (rule ∷ rules) =
      let rest = check_xdp_rules rules in
      if not (same_direction rule.blocklist inbound)
      then err xdp_outbound
      else if is_empty rule.ingress_zones
      then err xdp_without_zones
      else rest

  unfoldable pub check_blocklist : Config files.FilePath → Direction → Result Error (Unit {0})
  check_blocklist config direction =
      if uses config direction && not (is_some (blocklist_path config direction))
      then err (missing_blocklist direction)
      else ok tt

  unfoldable pub check_overlap : Config files.FilePath → Zones → List Text → Result Error (Unit {0})
  check_overlap config zones interfaces =
      if not config.xdp.allow_nftables_overlap && not (is_empty interfaces)
      then and_then (map_err zones_failed (resolve_rules config zones))
          (λ rules. if any (overlaps interfaces) rules then err overlap else ok tt)
      else ok tt

  -- The guards of `validate` after those that a cleanup runs too.
  unfoldable pub validate_rules : Config files.FilePath → Result Error (Unit {0})
  validate_rules config =
      if no_mappings config.rules && is_empty config.xdp.rules
      then err no_rules
      else and_then (check_xdp_rules config.xdp.rules) λ _.
        and_then (check_blocklist config inbound) λ _.
          and_then (check_blocklist config outbound) λ _.
            and_then
              (zones_source config.files.zones config.zones (λ _. ok tt) (λ _. ok tt) no_zones
                two_zones)
              λ (_ : Unit {0}). and_then (load_zones config) λ zones.
                and_then (map_err zones_failed (resolve_xdp_interfaces config zones))
                  (check_overlap config zones)

  unfoldable pub validate : Config files.FilePath → Bool → Result Error (Unit {0})
  validate config cleanup =
      if is_empty config.nftables.table || any (λ c. not (table_char c)) config.nftables.table
      then err invalid_table
      else if config.runtime.debounce_ms == 0 || config.runtime.reconcile_secs == 0
      then err zero_interval
      else if ltb config.nftables.batch_page_bytes (64 * 1024)
      then err small_page
      else if config.nftables.populate_batch_elements == 0
      then err zero_batch
      else if config.xdp.ipv4_max_entries == 0
          || config.xdp.ipv6_max_entries == 0
          || config.xdp.populate_batch_elements == 0
      then err zero_xdp
      else if files.is_empty_path config.xdp.pin_path || not (files.is_absolute config.xdp.pin_path)
      then err relative_pin_path
      else if cleanup
      then ok tt
      else validate_rules config
