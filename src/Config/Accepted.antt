-- ===== src/Config/Accepted.antt =====
-- What a configuration has that `validate` of src/config.rs accepts for a run of the daemon.
use nftblock.Prelude.{
  ℕ, ◌*◌, ◌≤◌, ◌≡◌, refl, sym, ◌∙◌, Bool, true, false, not, ◌&&◌, ◌||◌, List, [], ◌∷◌, ◌++◌, ltb,
  ap, Option, none, some, All, any-append, ◌==◌, if◌then◌else◌, any, arith,
}
use nftblock.Prelude.Results.{Result, ok, err, and_then}
use nftblock.Prelude.Effects.{map_err}
use nftblock.Text.{Text, is_empty}
use nftblock.Files.{FileLib}
use nftblock.Zones.{Direction, ResolvedRule, RuleMapping, Zones}
use nftblock.Zones.Load.{ParserLib}
use nftblock.Config.{
  Config, XdpRule, uses, blocklist_path, resolve_rules, resolve_xdp_interfaces, is_some, table_char,
  same_direction, uses_nftables, zones_failed, overlap, no_zones, two_zones,
}
use nftblock.Config.Validate.{
  validate, validate_rules, load_zones, check_xdp_rules, check_blocklist, check_overlap, overlaps,
  no_mappings, zones_source,
}
use nftblock.Config.Conditions.{
  IsTableChar, Given, Listed, Apart, directions-All, All-of_any, is_table_char, apart,
}

-- A step of a chain that succeeds.
guard_ok :
    {E A : Type 0} (b : Bool) (e : E) (r : Result E A) (a : A)
    → (if b then err e else r) ≡ ok a
    → (b ≡ false) × (r ≡ ok a)
guard_ok true e r a h = let never : ⊥ = cc in elim never [ ]
guard_ok false e r a h = (refl, h)

step_ok :
    {E A B : Type 0} (r : Result E A) (f : A → Result E B) (b : B)
    → and_then r f ≡ ok b
    → (a : A) × (r ≡ ok a) × (f a ≡ ok b)
step_ok (ok a) f b h = (a, refl, h)
step_ok (err e) f b h = let never : ⊥ = cc in elim never [ ]

map_err_ok : {E F A : Type 0} (f : E → F) (r : Result E A) (a : A) → map_err f r ≡ ok a → r ≡ ok a
map_err_ok f (ok b) a h = cc
map_err_ok f (err e) a h = let never : ⊥ = cc in elim never [ ]

neither :
    {E A : Type 0} (b c : Bool) (r s : Result E A)
    → b ≡ false
    → c ≡ false
    → (if not b && not c then r else s) ≡ r
neither false false r s h k = refl
neither true c r s h k = let never : ⊥ = cc in elim never [ ]
neither false true r s h k = let never : ⊥ = cc in elim never [ ]

-- The resolved rules do not overlap with the interfaces of XDP, unless that is allowed.
pub record NoOverlap {P : Type 0} (config : Config P) (zones : Zones) (interfaces : List Text)
    : Type 0 where
  pub rules :
      config.xdp.allow_nftables_overlap ≡ false
      → is_empty interfaces ≡ false
      → (resolved : List ResolvedRule) × (resolve_rules config zones ≡ ok resolved)
        × All (Apart interfaces) resolved

pub record Accepted (files : FileLib) (parser : ParserLib) (config : Config files.FilePath)
    : Type 0 where
  pub table : (is_empty config.nftables.table ≡ false) × All IsTableChar config.nftables.table
  pub intervals : (1 ≤ config.runtime.debounce_ms) × (1 ≤ config.runtime.reconcile_secs)
  pub chunks :
      (1 ≤ config.nftables.populate_batch_elements) × (1 ≤ config.xdp.populate_batch_elements)
  pub pages : 64 * 1024 ≤ config.nftables.batch_page_bytes
  pub pin_path :
      (files.is_empty_path config.xdp.pin_path ≡ false)
      × (files.is_absolute config.xdp.pin_path ≡ true)
  pub capacities : (1 ≤ config.xdp.ipv4_max_entries) × (1 ≤ config.xdp.ipv6_max_entries)
  pub xdp_rules :
      All
        (λ (rule : XdpRule).
          (rule.blocklist ≡ Direction.inbound) × (is_empty rule.ingress_zones ≡ false))
        config.xdp.rules
  pub input_lists : All (λ (rule : RuleMapping). Listed config rule.blocklist) config.rules.input
  pub forward_lists :
      All (λ (rule : RuleMapping). Listed config rule.blocklist) config.rules.forward
  pub output_lists : All (λ (rule : RuleMapping). Listed config rule.blocklist) config.rules.output
  pub xdp_lists : All (λ (rule : XdpRule). Listed config rule.blocklist) config.xdp.rules
  pub zones :
      (zones : Zones) × (load_zones files parser config ≡ ok zones)
      × (interfaces : List Text) × (resolve_xdp_interfaces config zones ≡ ok interfaces)
      × NoOverlap config zones interfaces

module _ (files : FileLib) (parser : ParserLib) where
  is_inbound :
      (d : Direction) → not (same_direction d Direction.inbound) ≡ false → d ≡ Direction.inbound
  is_inbound Direction.inbound h = refl
  is_inbound Direction.outbound h = let never : ⊥ = cc in elim never [ ]

  check_xdp_rules_ok :
      (rules : List XdpRule)
      → check_xdp_rules files parser rules ≡ ok tt
      → All
          (λ (rule : XdpRule).
            (rule.blocklist ≡ Direction.inbound) × (is_empty rule.ingress_zones ≡ false))
          rules
  unfolding check_xdp_rules
  check_xdp_rules_ok [] h = tt
  check_xdp_rules_ok (rule ∷ rules) h =
      let (p, g) = guard_ok (not (same_direction rule.blocklist Direction.inbound)) _ _ tt h in
      let (q, k) = guard_ok (is_empty rule.ingress_zones) _ _ tt g in
      ((is_inbound rule.blocklist p, q), check_xdp_rules_ok rules k)

  check_blocklist_ok :
      (config : Config files.FilePath) (d : Direction)
      → check_blocklist files parser config d ≡ ok tt
      → uses config d ≡ true
      → is_some (blocklist_path config d) ≡ true
  unfolding check_blocklist
  check_blocklist_ok config d h u =
      let (p, _) =
        guard_ok (uses config d && not (is_some (blocklist_path config d))) _ (ok tt) tt h in
      ground (arith, p, u)

  given : {A : Type 0} (o : Option A) → is_some o ≡ true → Given o
  given none h = let never : ⊥ = cc in elim never [ ]
  given (some a) h = tt

  both_blocklists :
      (config : Config files.FilePath)
      → check_blocklist files parser config Direction.inbound ≡ ok tt
      → check_blocklist files parser config Direction.outbound ≡ ok tt
      → (d : Direction) → uses config d ≡ true
      → Listed config d
  unfolding blocklist_path
  both_blocklists config h k Direction.inbound u =
      given config.files.inbound (check_blocklist_ok config Direction.inbound h u)
  both_blocklists config h k Direction.outbound u =
      given config.files.outbound (check_blocklist_ok config Direction.outbound k u)

  -- Where the rules stand that `uses` looks at.
  used :
      (config : Config files.FilePath) (d : Direction)
      → uses config d ≡ (
          (any (λ (rule : RuleMapping). same_direction rule.blocklist d) config.rules.input
            || any (λ (rule : RuleMapping). same_direction rule.blocklist d) config.rules.forward
            || any (λ (rule : RuleMapping). same_direction rule.blocklist d) config.rules.output)
          || any (λ (rule : XdpRule). same_direction rule.blocklist d) config.xdp.rules)
  unfolding uses uses_nftables
  used config d =
      ap (λ b. b || any (λ (rule : XdpRule). same_direction rule.blocklist d) config.xdp.rules)
        (any-append _ (config.rules.input ++ config.rules.forward) config.rules.output
          ∙ ap
              (λ b.
                b
                || any (λ (rule : RuleMapping). same_direction rule.blocklist d)
                    config.rules.output)
              (any-append _ config.rules.input config.rules.forward))

  check_overlap_ok :
      (config : Config files.FilePath) (zones : Zones) (interfaces : List Text)
      → check_overlap files parser config zones interfaces ≡ ok tt
      → NoOverlap config zones interfaces
  unfolding check_overlap
  check_overlap_ok config zones interfaces h = record {
    rules = λ a e.
        let (resolved, r, g) = step_ok (map_err zones_failed (resolve_rules config zones)) _ tt (
          sym (neither config.xdp.allow_nftables_overlap (is_empty interfaces) _ (ok tt) a e)
          ∙ h) in
        (
          resolved,
          map_err_ok zones_failed (resolve_rules config zones) resolved r,
          All-of_any (overlaps interfaces) (Apart interfaces) resolved (apart interfaces)
              (guard_ok (any (overlaps interfaces) resolved) overlap (ok tt) tt g).0,
        );
  }

  positive : (n : ℕ) → (n == 0) ≡ false → 1 ≤ n
  positive n h = ground (arith, h)

  -- A configuration that `validate` accepts for the daemon has a table name of ASCII letters, digits,
  -- `_` and `-`, positive intervals, chunk sizes and capacities, pages of at least 64 KiB, and an
  -- absolute path for the pins; each XDP rule is inbound and has an ingress zone; each rule of
  -- nftables or XDP has the file of its blocklist; the zones load, the XDP interfaces resolve, and,
  -- unless an overlap is allowed or there are none, the rules resolve, and each inbound rule in the
  -- input or forward chain names its ingress interfaces, none of which is one of XDP.
  pub validate-Accepted :
      (config : Config files.FilePath)
      → validate files parser config false ≡ ok tt
      → Accepted files parser config
  unfolding validate validate_rules
  validate-Accepted config h =
      let (t, h1) =
        guard_ok
          (is_empty config.nftables.table || any (λ c. not (table_char c)) config.nftables.table) _
          _ tt h in
      let (i, h2) =
        guard_ok (config.runtime.debounce_ms == 0 || config.runtime.reconcile_secs == 0) _ _ tt
          h1 in
      let (pg, h3) = guard_ok (ltb config.nftables.batch_page_bytes (64 * 1024)) _ _ tt h2 in
      let (n, h4) = guard_ok (config.nftables.populate_batch_elements == 0) _ _ tt h3 in
      let (x, h5) =
        guard_ok
          (config.xdp.ipv4_max_entries == 0
            || config.xdp.ipv6_max_entries == 0
            || config.xdp.populate_batch_elements == 0)
          _ _ tt h4 in
      let (pin, h6) =
        guard_ok
          (files.is_empty_path config.xdp.pin_path || not (files.is_absolute config.xdp.pin_path)) _
          _ tt h5 in
      let (_, h7) = guard_ok (no_mappings config.rules && is_empty config.xdp.rules) _ _ tt h6 in
      let (_, r, h8) = step_ok (check_xdp_rules files parser config.xdp.rules) _ tt h7 in
      let (_, b, h9) = step_ok (check_blocklist files parser config Direction.inbound) _ tt h8 in
      let (_, o, h10) = step_ok (check_blocklist files parser config Direction.outbound) _ tt h9 in
      let (_, _, h11) =
        step_ok
          (zones_source config.files.zones config.zones (λ _. ok tt) (λ _. ok tt) no_zones
            two_zones)
          _ tt h10 in
      let (zones, z, h12) = step_ok (load_zones files parser config) _ tt h11 in
      let (interfaces, f, h13) =
        step_ok (map_err zones_failed (resolve_xdp_interfaces config zones)) _ tt h12 in
      let lists : (d : Direction) → uses config d ≡ true → Listed config d =
        both_blocklists config b o in
      record {
        table = (
          ground (arith, t),
          All-of_any (λ c. not (table_char c)) IsTableChar config.nftables.table is_table_char
              (ground (arith, t)),
        );
        intervals = (ground (arith, i), ground (arith, i));
        pages = ground (arith, pg);
        pin_path = (ground (arith, pin), ground (arith, pin));
        chunks = (positive config.nftables.populate_batch_elements n, ground (arith, x));
        capacities = (ground (arith, x), ground (arith, x));
        xdp_rules = check_xdp_rules_ok config.xdp.rules r;
        input_lists =
            directions-All (λ rule. rule.blocklist) (Listed config) config.rules.input
              λ d g. lists d (used config d ∙ ground (arith, g));
        forward_lists =
            directions-All (λ rule. rule.blocklist) (Listed config) config.rules.forward
              λ d g. lists d (used config d ∙ ground (arith, g));
        output_lists =
            directions-All (λ rule. rule.blocklist) (Listed config) config.rules.output
              λ d g. lists d (used config d ∙ ground (arith, g));
        xdp_lists =
            directions-All (λ rule. rule.blocklist) (Listed config) config.xdp.rules
              λ d g. lists d (used config d ∙ ground (arith, g));
        zones = (
          zones,
          z,
          interfaces,
          map_err_ok zones_failed (resolve_xdp_interfaces config zones) interfaces f,
          check_overlap_ok config zones interfaces h13,
        );
      }
