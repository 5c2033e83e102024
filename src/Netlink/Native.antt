-- ===== src/Netlink/Native.antt =====
-- `NftnlBackend` of src/netlink.rs, as far as it decides: what it makes of the kernel's tables and
-- sets. The kernel, and the batches that are sent to it, are a parameter.
use nftblock.Prelude.{
  ℕ, ◌≡◌, Bool, true, false, not, ◌&&◌, ◌||◌, Option, none, some, List, [], ◌∷◌, ◌==◌,
  if◌then◌else◌, any, ◌⊎◌,
}
use nftblock.Prelude.Results.{Result, ok, err}
use nftblock.Prelude.Effects.{Eff, ◌>>=◌, ◌>>◌, pure, throw, lift, map_err}
use nftblock.Text.{Text, codes, is_empty}
use nftblock.Word.{checked_add}
use nftblock.Zones.{Direction, same}
use nftblock.Config.{Config}
use nftblock.Netlink.{
  DirectionGeneration, ActiveGenerations, iter, LayoutStatus, Health, BackendError,
}
use nftblock.Netlink.Generations.{observe_generations, ipv4_name, ipv6_name}

-- A set with the number of its elements, if the kernel tells it.
abbrev pub Inventory : Type 0
Inventory = List (Text × Option ℕ)

abbrev pub names_of : Inventory → List Text
names_of [] = []
names_of ((name, count) ∷ sets) = name ∷ names_of sets

abbrev pub count_of : Text → Inventory → Option (Option ℕ)
count_of name [] = none
count_of name ((other, count) ∷ sets) = if same name other then some count else count_of name sets

abbrev pub layout_marker : Text
layout_marker = codes "__cidrwall_layout_v2"

abbrev pub has_marker : Inventory → Bool
has_marker sets = any (same layout_marker) (names_of sets)

-- The closures `inspect` and `inspect_direction` of `health`: damage, and whether a count is missing.
abbrev pub inspect_count : ℕ → Option (Option ℕ) → Bool × Bool
inspect_count expected none = (true, false)
inspect_count expected (some none) = (false, true)
inspect_count expected (some (some actual)) = (not (actual == expected), false)

unfoldable pub inspect : Inventory → Text → ℕ → Bool × Bool
inspect sets name expected = inspect_count expected (count_of name sets)

unfoldable pub inspect_direction : Inventory → Option DirectionGeneration → Bool × Bool
unfolding inspect
inspect_direction sets none = (false, false)
inspect_direction sets (some g) =
    let ipv4 : Bool × Bool = inspect sets g.ipv4_set g.ipv4_intervals in
    let ipv6 : Bool × Bool = inspect sets g.ipv6_set g.ipv6_intervals in
    (ipv4.0 || ipv6.0, ipv4.1 || ipv6.1)

abbrev pub health_of : Bool → Bool → Health
health_of false false = Health.healthy
health_of true false = Health.inbound_damaged
health_of false true = Health.outbound_damaged
health_of true true = Health.layout_damaged

unfoldable pub health_from : Inventory → ActiveGenerations → Health
unfolding inspect_direction
health_from sets active =
    if has_marker sets
    then health_of (inspect_direction sets active.inbound).0
        (inspect_direction sets active.outbound).0
    else Health.layout_damaged

-- A set is sound if it is there and the kernel tells no other count.
abbrev pub Sound : Inventory → Text → ℕ → Type 0
Sound sets name expected =
    (count_of name sets ≡ some (some expected)) ⊎ (count_of name sets ≡ some none)

abbrev starts_with : Text → Text → Bool
starts_with [] s = true
starts_with (c ∷ prefix) [] = false
starts_with (c ∷ prefix) (d ∷ s) = c == d && starts_with prefix s

unfoldable pub is_generation : Text → Bool
is_generation name =
    any (λ prefix. starts_with prefix name)
      (codes "in_v4_g" ∷ codes "in_v6_g" ∷ codes "out_v4_g" ∷ codes "out_v6_g" ∷ [])

-- The names that `cleanup_obsolete` keeps, and those that it deletes.
unfoldable pub kept_names : List DirectionGeneration → List Text
kept_names [] = []
kept_names (g ∷ gs) = g.ipv4_set ∷ g.ipv6_set ∷ kept_names gs

abbrev pub is_obsolete : List Text → Text → Bool
is_obsolete keep name = is_generation name && not (any (same name) keep)

unfoldable pub obsolete : List Text → List Text → List Text
unfolding is_generation
obsolete keep [] = []
obsolete keep (name ∷ names) =
    let rest = obsolete keep names in if is_obsolete keep name then name ∷ rest else rest

-- What is sent to the kernel, and read from it.
pub record NftLib : Type 1 where
  pub State : Type 0
  pub IoError : Type 0
  pub invalid_input : IoError
  pub table_names : Eff State IoError (List Text)
  pub set_inventory : Text → Eff State IoError Inventory
  pub add_sets : Text → Text → Text → Eff State IoError (Unit {0})
  pub delete_sets : Text → List Text → Eff State IoError (Unit {0})

-- `NftnlBackend`, with the kernel.
pub record NftnlBackend (S : Type 0) : Type 0 where
  pub kernel : S
  pub next_generation : ℕ
  pub warned_missing_counts : Bool

abbrev has_nul : Text → Bool
has_nul name = any (λ c. c == 0) name

module _ (lib : NftLib) {P : Type 0} (config : Config P) where
  abbrev pub Run : Type 0 → Type 0
  Run A = Eff (NftnlBackend lib.State) (BackendError lib.IoError) A

  abbrev pub of_kernel :
      {A : Type 0}
      → NftnlBackend lib.State
      → Result lib.IoError A × lib.State
      → Result (BackendError lib.IoError) A × NftnlBackend lib.State
  of_kernel b (r, s) = (map_err BackendError.netlink r, record b { kernel = s })

  abbrev pub in_kernel : {A : Type 0} → Eff lib.State lib.IoError A → Run A
  in_kernel m b = of_kernel b (m b.kernel)

  abbrev cstring : Text → Result (BackendError lib.IoError) Text
  cstring value = if has_nul value then err (BackendError.invalid_name value) else ok value

  abbrev pub observe : List Text → Run (Unit {0})
  observe names b =
      (ok tt, record b { next_generation = observe_generations names b.next_generation })

  abbrev layout_of : Inventory → Run LayoutStatus
  layout_of sets =
      observe (names_of sets)
      >> pure (if has_marker sets then LayoutStatus.current else LayoutStatus.incompatible)

  unfoldable pub layout_status : Run LayoutStatus
  layout_status = in_kernel lib.table_names >>= λ tables.
      if any (same config.nftables.table) tables
      then in_kernel (lib.set_inventory config.nftables.table) >>= layout_of
      else pure LayoutStatus.absent

  abbrev staged_generation : Direction → ℕ → DirectionGeneration
  staged_generation direction n = record {
    direction = direction;
    ipv4_set = ipv4_name direction n;
    ipv6_set = ipv6_name direction n;
    ipv4_intervals = 0;
    ipv6_intervals = 0;
    ipv4_boundaries = 0;
    ipv6_boundaries = 0;
  }

  abbrev begin_numbered : Direction → ℕ → Option ℕ → Run DirectionGeneration
  begin_numbered direction n none b =
      (err (BackendError.invalid_name (codes "generation counter exhausted")), b)
  begin_numbered direction n (some next) b =
      (lift (cstring config.nftables.table) >>= λ table.
      lift (cstring (ipv4_name direction n)) >>= λ v4.
      lift (cstring (ipv6_name direction n)) >>= λ v6.
      (in_kernel (lib.add_sets table v4 v6) >> pure (staged_generation direction n)))
        (record b { next_generation = next })

  unfoldable pub begin_stage : Direction → Run DirectionGeneration
  begin_stage direction b =
      begin_numbered direction b.next_generation (checked_add 64 b.next_generation 1) b

  unfoldable pub delete_sets : List Text → Run (Unit {0})
  delete_sets names =
      if has_nul config.nftables.table || any has_nul names
      then throw (BackendError.netlink lib.invalid_input)
      else if is_empty names
      then pure tt
      else in_kernel (lib.delete_sets config.nftables.table names)

  unfoldable pub discard : DirectionGeneration → Run (Unit {0})
  unfolding delete_sets
  discard stage = delete_sets (stage.ipv4_set ∷ stage.ipv6_set ∷ [])

  unfoldable pub cleanup_obsolete : ActiveGenerations → Run (Unit {0})
  unfolding delete_sets kept_names obsolete iter
  cleanup_obsolete active = in_kernel (lib.set_inventory config.nftables.table) >>= λ sets.
      delete_sets (obsolete (kept_names (iter active)) (names_of sets))

  -- `warned_missing_counts` is set when a count is missing behind the marker.
  abbrev counts_missing : Inventory → ActiveGenerations → Bool
  counts_missing sets active =
      has_marker sets
      && ((inspect_direction sets active.inbound).1 || (inspect_direction sets active.outbound).1)

  unfoldable pub health : ActiveGenerations → Run Health
  unfolding health_from inspect_direction
  health active = in_kernel (lib.set_inventory config.nftables.table) >>= λ sets b. (
    ok (health_from sets active),
    record b { warned_missing_counts = b.warned_missing_counts || counts_missing sets active },
  )
