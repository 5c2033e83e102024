-- ===== src/Config.antt =====
-- src/config.rs: the configuration, what the command line overrides in it, and its validation. The
-- derived parsers of clap and serde are parameters. An error of `bail!` is a constructor.
pub mod Validate
pub mod Overrides
pub mod Conditions
pub mod Accepted
use nftblock.Prelude.{
  ℕ, ◌*◌, Bool, true, false, not, ◌&&◌, ◌||◌, Option, none, some, List, [], ◌∷◌, ◌++◌, ltb, leb,
  ◌==◌, if◌then◌else◌, any,
}
use nftblock.Prelude.Results.{Result, ok, err, and_then}
use nftblock.Prelude.Effects.{map_err}
use nftblock.Text.{Text, codes, is_empty}
use nftblock.Files.{FileLib}
use nftblock.Zones.{
  Direction, inbound, outbound, RuleMapping, Rules, Chain, ResolvedRule, ZoneError, Zones, same,
  extend, expand, resolve, is_forward,
}
use nftblock.Zones.Load.{ParserLib, LoadError, load as load_document}

pub data ℤ : Type 0 where
  pos negsuc : ℕ → ℤ

pub data CleanupTarget : Type 0 where
  xdp nftables all : CleanupTarget

pub record Cli (P : Type 0) : Type 0 where
  pub config : P
  pub zones : Option P
  pub inbound : Option P
  pub outbound : Option P
  pub table : Option Text
  pub priority : Option ℤ
  pub debounce_ms : Option ℕ
  pub reconcile_secs : Option ℕ
  pub allow_flowtable_bypass : Option Bool
  pub populate_batch_elements : Option ℕ
  pub check : Bool
  pub cleanup : Option CleanupTarget

pub record Files (P : Type 0) : Type 0 where
  pub zones : Option P
  pub inbound : Option P
  pub outbound : Option P

pub record Nftables : Type 0 where
  pub table : Text
  pub priority : ℤ
  pub allow_flowtable_bypass : Bool
  pub batch_page_bytes : ℕ
  pub populate_batch_elements : ℕ
  pub cleanup_on_exit : Bool

abbrev pub default_nftables : Nftables
default_nftables = record {
  table = codes "cidrwall";
  priority = negsuc 4;
  allow_flowtable_bypass = false;
  batch_page_bytes = 128 * 1024;
  populate_batch_elements = 2000;
  cleanup_on_exit = false;
}

pub data XdpMode : Type 0 where
  auto native generic : XdpMode

pub record XdpRule : Type 0 where
  pub blocklist : Direction
  pub ingress_zones : List Text

pub record Xdp (P : Type 0) : Type 0 where
  pub mode : XdpMode
  pub pin_path : P
  pub ipv4_max_entries : ℕ
  pub ipv6_max_entries : ℕ
  pub populate_batch_elements : ℕ
  pub allow_nftables_overlap : Bool
  pub cleanup_on_exit : Bool
  pub rules : List XdpRule

-- `pin_path` is the path "/sys/fs/bpf/cidrwall".
abbrev pub default_xdp : {P : Type 0} → P → Xdp P
default_xdp pin_path = record {
  mode = auto;
  pin_path = pin_path;
  ipv4_max_entries = 5000000;
  ipv6_max_entries = 5000000;
  populate_batch_elements = 2000;
  allow_nftables_overlap = false;
  cleanup_on_exit = false;
  rules = [];
}

pub record Runtime : Type 0 where
  pub debounce_ms : ℕ
  pub reconcile_secs : ℕ

abbrev pub default_runtime : Runtime
default_runtime = record { debounce_ms = 500; reconcile_secs = 60 }

pub record Config (P : Type 0) : Type 0 where
  pub files : Files P
  pub zones : Option Zones
  pub nftables : Nftables
  pub xdp : Xdp P
  pub runtime : Runtime
  pub rules : Rules

pub data ConfigError (O Z C : Type 0) : Type 0 where
  read_failed : O → ConfigError O Z C
  parse_failed : C → ConfigError O Z C
  load_failed : LoadError O Z → ConfigError O Z C
  zones_failed : ZoneError → ConfigError O Z C
  invalid_table zero_interval small_page zero_batch zero_xdp relative_pin_path no_rules :
      ConfigError O Z C
  xdp_outbound xdp_without_zones no_zones two_zones overlap : ConfigError O Z C
  missing_blocklist : Direction → ConfigError O Z C

abbrev pub same_direction : Direction → Direction → Bool
same_direction inbound inbound = true
same_direction inbound outbound = false
same_direction outbound inbound = false
same_direction outbound outbound = true

abbrev pub is_some {ℓ} : {A : Type ℓ} → Option A → Bool
is_some none = false
is_some (some a) = true

-- `is_ascii_alphanumeric`, `_` and `-`. The bytes of a character outside ASCII are no such bytes.
abbrev pub table_char : ℕ → Bool
table_char c =
    (leb b'0' c && leb c b'9')
    || (leb b'A' c && leb c b'Z')
    || (leb b'a' c && leb c b'z')
    || c == b'_'
    || c == b'-'

module _ {P : Type 0} (config : Config P) where
  -- `input.iter().chain(&forward).chain(&output).any(…)`
  unfoldable pub uses_nftables : Direction → Bool
  uses_nftables direction =
      any (λ (rule : RuleMapping). same_direction rule.blocklist direction)
        (config.rules.input ++ config.rules.forward ++ config.rules.output)

  unfoldable pub uses : Direction → Bool
  unfolding uses_nftables
  uses direction =
      uses_nftables direction
      || any (λ (rule : XdpRule). same_direction rule.blocklist direction) config.xdp.rules

  unfoldable pub blocklist_path : Direction → Option P
  blocklist_path inbound = config.files.inbound
  blocklist_path outbound = config.files.outbound

  unfoldable pub resolve_rules : Zones → Result ZoneError (List ResolvedRule)
  resolve_rules zones = resolve zones config.rules

  unfoldable pub resolve_xdp_from : Zones → List XdpRule → List Text → Result ZoneError (List Text)
  resolve_xdp_from zones [] interfaces = ok interfaces
  resolve_xdp_from zones (rule ∷ rules) interfaces =
      and_then (expand zones rule.ingress_zones false)
        λ names. resolve_xdp_from zones rules (extend interfaces names)

  unfoldable pub resolve_xdp_interfaces : Zones → Result ZoneError (List Text)
  unfolding resolve_xdp_from
  resolve_xdp_interfaces zones = resolve_xdp_from zones config.xdp.rules []

  -- The values in seconds and in milliseconds.
  unfoldable pub reconcile : ℕ
  reconcile = config.runtime.reconcile_secs

  unfoldable pub debounce : ℕ
  debounce = config.runtime.debounce_ms
