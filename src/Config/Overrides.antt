-- ===== src/Config/Overrides.antt =====
-- `Config::load` of src/config.rs: what the command line overrides, and the validation.
use nftblock.Prelude.{Option, none, some}
use nftblock.Prelude.Results.{Result, ok, and_then}
use nftblock.Prelude.Effects.{map_err}
use nftblock.Text.{Text}
use nftblock.Files.{FileLib}
use nftblock.Zones.Load.{ParserLib}
use nftblock.Config.{Cli, Config, read_failed, parse_failed, is_some}
use nftblock.Config.Validate.{Error, validate}

-- `if let Some(v) = &cli.… { value.… = v }`
abbrev or_old : {A : Type 0} → Option A → A → A
or_old none a = a
or_old (some v) a = v

abbrev or_some : {A : Type 0} → Option A → Option A → Option A
or_some none o = o
or_some (some v) o = some v

abbrev unless_some : {A B : Type 0} → Option A → Option B → Option B
unless_some none o = o
unless_some (some v) o = none

-- The overrides of `load`.
unfoldable pub override : {P : Type 0} → Cli P → Config P → Config P
override cli value = record {
  files = record {
    zones = or_some cli.zones value.files.zones;
    inbound = or_some cli.inbound value.files.inbound;
    outbound = or_some cli.outbound value.files.outbound;
  };
  zones = unless_some cli.zones value.zones;
  nftables = record value.nftables {
    table = or_old cli.table value.nftables.table;
    priority = or_old cli.priority value.nftables.priority;
    allow_flowtable_bypass =
        or_old cli.allow_flowtable_bypass value.nftables.allow_flowtable_bypass;
    populate_batch_elements =
        or_old cli.populate_batch_elements value.nftables.populate_batch_elements;
  };
  xdp = value.xdp;
  runtime = record {
    debounce_ms = or_old cli.debounce_ms value.runtime.debounce_ms;
    reconcile_secs = or_old cli.reconcile_secs value.runtime.reconcile_secs;
  };
  rules = value.rules;
}

-- `parse_config` is the parser of the crate toml for the derived `Deserialize`.
unfoldable pub load :
    (files : FileLib) (parser : ParserLib)
    → (Text → Result parser.ConfigParseError (Config files.FilePath))
    → Cli files.FilePath
    → Result (Error files parser) (Config files.FilePath)
load files parser parse_config cli =
    and_then (map_err read_failed (files.read_to_string cli.config)) λ text.
      and_then (map_err parse_failed (parse_config text)) λ value.
        and_then (validate files parser (override cli value) (is_some cli.cleanup))
          λ _. ok (override cli value)
