-- ===== src/Zones/Load.antt =====
-- `Zones::load` of src/zones.rs; the parsers, of serde_json here and of toml in
-- src/config.rs, are parameters.
use nftblock.Prelude.{List}
use nftblock.Prelude.Results.{Result, and_then}
use nftblock.Prelude.Effects.{map_err}
use nftblock.Text.{Text}
use nftblock.Files.{FileLib}
use nftblock.Zones.{ZoneEntry, ZoneValue, ZoneError, Zones, from_entries, from_map}

-- The entries of a map come in the order of their names.
pub data ZonesDocument : Type 0 where
  list : List ZoneEntry → ZonesDocument
  map : List (Text × ZoneValue) → ZonesDocument

pub record ParserLib : Type 1 where
  pub ParseError : Type 0
  pub ConfigParseError : Type 0
  pub parse_zones : Text → Result ParseError ZonesDocument

pub data LoadError (O P : Type 0) : Type 0 where
  read_failed : O → LoadError O P
  parse_failed : P → LoadError O P
  zones_failed : ZoneError → LoadError O P

unfoldable pub document_zones : ZonesDocument → Result ZoneError Zones
document_zones (list zones) = from_entries zones
document_zones (map values) = from_map values

unfoldable pub load :
    (files : FileLib) (parser : ParserLib)
    → files.FilePath
    → Result (LoadError files.OpenError parser.ParseError) Zones
unfolding document_zones
load files parser path = and_then (map_err read_failed (files.read_to_string path)) λ text.
    and_then (map_err parse_failed (parser.parse_zones text))
      λ doc. map_err zones_failed (document_zones doc)
