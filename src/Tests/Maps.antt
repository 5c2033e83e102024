-- ===== src/Tests/Maps.antt =====
-- Concrete maps and a concrete file system for the tests of src/xdp.rs: a map is the list of its
-- keys, and a file is its lines.
use nftblock.Prelude.{
  ℕ, ◌*◌, ◌≡◌, refl, ap, ◌∙◌, Bool, true, false, not, ◌&&◌, Option, none, some, List, [], ◌∷◌,
  if◌then◌else◌, arith, ◌==◌, any, length,
}
use nftblock.Prelude.Results.{Result, ok, err}
use nftblock.Text.{Text}
use nftblock.Filter.{Control, is_some}
use nftblock.Xdp.Maps.{Key, same_key, MapLib, MapLaws, number, prefix_of, Octets}
use nftblock.Files.{FileLib}
use nftblock.Tests.Samples.{Refused, refused}

-- A file is its name and its lines, if it can be opened.
pub record SampleFile : Type 0 where
  pub name : ℕ
  pub lines : Option (List (Result (Unit {0}) Text))

abbrev opened :
    Option (List (Result (Unit {0}) Text)) → Result Refused (List (Result (Unit {0}) Text))
opened none = err refused
opened (some lines) = ok lines

abbrev pub sample_files : FileLib
sample_files = record {
  FilePath = SampleFile;
  OpenError = Refused;
  IoError = Unit {0};
  open_blocklist = λ path. opened path.lines;
  read_to_string = λ path. err refused;
  is_absolute = λ path. true;
  is_empty_path = λ path. false;
  same_path = λ p q. p.name == q.name;
  parent = λ path. none;
  file_name = λ path. some (path.name ∷ []);
}

abbrev removed : Key → List Key → List Key
removed key [] = []
removed key (j ∷ keys) = let rest = removed key keys in if same_key j key then rest else j ∷ rest

abbrev found : Bool → Option ℕ
found true = some 1
found false = none

abbrev entry : Option Control → Result Refused Control
entry none = err refused
entry (some value) = ok value

abbrev pub sample_maps : MapLib
sample_maps = record {
  Trie = List Key;
  ControlMap = Option Control;
  MapError = Refused;
  insert = λ key value t. (ok tt, key ∷ t);
  remove = λ key t. (ok tt, removed key t);
  keys = ok;
  get_control = entry;
  set_control = λ value c. (ok tt, some value);
  look_up = λ t address. found (any (prefix_of (8 * length address) (number address)) t);
  control_entry = λ c. c;
  contents = λ t. t;
}

any-removed :
    (key : Key) (t : List Key) (p : Key → Bool)
    → any p (removed key t) ≡ any (λ j. p j && not (same_key j key)) t
any-removed key [] p = refl
any-removed key (j ∷ t) p = ground (arith, any-removed key t p)

is_some-found : (b : Bool) → is_some (found b) ≡ b
is_some-found true = refl
is_some-found false = refl

entry_read : (c : Option Control) (value : Control) → entry c ≡ ok value → c ≡ some value
entry_read none value h = cc
entry_read (some w) value h = cc

look_up_of :
    (n : ℕ) (t : List Key) (address : List ℕ)
    → Octets n address
    → is_some (sample_maps.look_up t address) ≡ any (prefix_of (8 * n) (number address)) t
look_up_of n t address (h, _) =
    is_some-found _ ∙ ap (λ m. any (prefix_of (8 * m) (number address)) t) h

pub sample_maps-MapLaws : MapLaws sample_maps
sample_maps-MapLaws = record {
  any-insert = λ key value t p. refl;
  any-remove = any-removed;
  any-keys = λ t keys p h. cc;
  look_up_ipv4 = λ t address h. look_up_of 4 t address h;
  look_up_ipv6 = λ t address h. look_up_of 16 t address h;
  get-control = entry_read;
  set-control = λ c c' value h. cc;
  set_control_failed = λ c c' value e h. cc;
}
