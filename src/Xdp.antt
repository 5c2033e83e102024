-- ===== src/Xdp.antt =====
-- src/xdp.rs: the two slots of the XDP maps, and how a reload fills one and switches to it.
pub mod Maps
pub mod Untouched
pub mod Rejected
pub mod Filled
pub mod Staged
pub mod Covered
pub mod Loaded
pub mod Links
pub mod RollBack
pub mod Pins
use nftblock.Prelude.{
  ℕ, ◌+◌, ◌-◌, Bool, true, false, Option, none, some, List, [], ◌∷◌, ltb, leb, ◌==◌, if◌then◌else◌,
}
use nftblock.Prelude.Results.{Result, ok, err}
use nftblock.Prelude.Effects.{
  Eff, after, ◌>>=◌, ◌>>◌, pure, throw, lift, map_err, with_err, attempt,
}
use nftblock.Text.{Text}
use nftblock.Word.{wrapping_add, wrapping_sub}
use nftblock.Blocklist.{AddressInterval, AddressPrefix, interval_prefixes}
use nftblock.Blocklist.Stream.Net.{IpNetLib}
use nftblock.Blocklist.Stream.Control.{StreamError, StreamStats}
use nftblock.Blocklist.Stream.{stream_chunks}
use nftblock.Files.{FileLib}
use nftblock.Filter.{Control}
use Maps.{Key, MapLib, Kernel}

-- `LAYOUT_VERSION` and `SLOT_COUNT` of cidrwall-common.
abbrev pub layout_version : ℕ
layout_version = 1

abbrev pub slot_count : ℕ
slot_count = 2

-- The part of `config::Xdp` that a reload reads.
pub record XdpConfig : Type 0 where
  pub ipv4_max_entries : ℕ
  pub ipv6_max_entries : ℕ
  pub populate_batch_elements : ℕ

-- What the callback of a reload fails with: a map error, or a full map.
pub data StageError (M : Type 0) : Type 0 where
  map_failed : M → StageError M
  ipv4_capacity ipv6_capacity : ℕ → StageError M

pub data XdpError (M O I A : Type 0) : Type 0 where
  map_failed : M → XdpError M O I A
  not_configured incompatible_layout : XdpError M O I A
  open_failed : O → XdpError M O I A
  rejected : StreamError I A (StageError M) → XdpError M O I A

module _ (lib : MapLib) where
  open lib use {Trie, MapError}

  -- `v4_mut` and `v6_mut`: the map of a slot, as `&mut`.
  unfoldable pub v4_of : Bool → Kernel lib → Trie
  v4_of true k = k.ipv4_a
  v4_of false k = k.ipv4_b

  unfoldable pub v6_of : Bool → Kernel lib → Trie
  v6_of true k = k.ipv6_a
  v6_of false k = k.ipv6_b

  unfoldable pub set_v4 : Bool → Kernel lib → Trie → Kernel lib
  set_v4 true k t = record k { ipv4_a = t }
  set_v4 false k t = record k { ipv4_b = t }

  unfoldable pub set_v6 : Bool → Kernel lib → Trie → Kernel lib
  set_v6 true k t = record k { ipv6_a = t }
  set_v6 false k t = record k { ipv6_b = t }

  abbrev pub stored : {T E A : Type 0} → (T → Kernel lib) → Result E A × T → Result E A × Kernel lib
  stored set (r, t) = (r, set t)

  unfoldable pub v4_mut : {A : Type 0} → ℕ → Eff Trie MapError A → Eff (Kernel lib) MapError A
  v4_mut slot m k = stored (set_v4 (slot == 0) k) (m (v4_of (slot == 0) k))

  unfoldable pub v6_mut : {A : Type 0} → ℕ → Eff Trie MapError A → Eff (Kernel lib) MapError A
  v6_mut slot m k = stored (set_v6 (slot == 0) k) (m (v6_of (slot == 0) k))

  -- The two loops of `clear_slot`, over the keys that a map has.
  unfoldable pub remove_all : List Key → Eff Trie MapError (Unit {0})
  remove_all [] = pure tt
  remove_all (key ∷ keys) = lib.remove key >> remove_all keys

  unfoldable pub clear_trie : Eff Trie MapError (Unit {0})
  clear_trie t = (lift (lib.keys t) >>= remove_all) t

  unfoldable pub clear_slot : ℕ → Eff (Kernel lib) MapError (Unit {0})
  clear_slot slot = v4_mut slot clear_trie >> v6_mut slot clear_trie

  -- What the callback owns: the maps, and how many prefixes it has inserted.
  pub record Staging : Type 0 where
    pub kernel : Kernel lib
    pub ipv4 : ℕ
    pub ipv6 : ℕ

  abbrev pub start : Kernel lib → Staging
  start k = record { kernel = k; ipv4 = 0; ipv6 = 0 }

  module _ (config : XdpConfig) (slot : ℕ) where
    unfoldable pub inserted_v4 :
        Staging
        → Result MapError (Unit {0}) × Kernel lib
        → Result (StageError MapError) (Unit {0}) × Staging
    inserted_v4 s (ok u, k) = (ok tt, record s { kernel = k; ipv4 = wrapping_add 64 s.ipv4 1 })
    inserted_v4 s (err e, k) = (err (map_failed e), record s { kernel = k })

    unfoldable pub inserted_v6 :
        Staging
        → Result MapError (Unit {0}) × Kernel lib
        → Result (StageError MapError) (Unit {0}) × Staging
    inserted_v6 s (ok u, k) = (ok tt, record s { kernel = k; ipv6 = wrapping_add 64 s.ipv6 1 })
    inserted_v6 s (err e, k) = (err (map_failed e), record s { kernel = k })

    -- The body of the inner loop: a capacity check, and an insertion.
    unfoldable pub stage_prefix : AddressPrefix → Eff Staging (StageError MapError) (Unit {0})
    unfolding inserted_v4 inserted_v6
    stage_prefix (AddressPrefix.v4 address prefix_len) s =
        if leb config.ipv4_max_entries s.ipv4
        then (err (ipv4_capacity config.ipv4_max_entries), s)
        else inserted_v4 s (
            v4_mut slot (lib.insert (record { prefix_len = prefix_len; address = address }) 1)
              s.kernel)
    stage_prefix (AddressPrefix.v6 address prefix_len) s =
        if leb config.ipv6_max_entries s.ipv6
        then (err (ipv6_capacity config.ipv6_max_entries), s)
        else inserted_v6 s (
            v6_mut slot (lib.insert (record { prefix_len = prefix_len; address = address }) 1)
              s.kernel)

    unfoldable pub stage_prefixes :
        List AddressPrefix → Eff Staging (StageError MapError) (Unit {0})
    stage_prefixes [] = pure tt
    stage_prefixes (prefix ∷ prefixes) = stage_prefix prefix >> stage_prefixes prefixes

    -- The callback.
    unfoldable pub stage_chunk : List AddressInterval → Eff Staging (StageError MapError) (Unit {0})
    stage_chunk [] = pure tt
    stage_chunk (interval ∷ intervals) =
        stage_prefixes (interval_prefixes interval) >> stage_chunk intervals

  module _ (net : IpNetLib) (files : FileLib) where
    abbrev pub Error : Type 0
    Error = XdpError MapError files.OpenError files.IoError net.AddrParseError

    abbrev pub Lines : Type 0
    Lines = List (Result files.IoError Text)

    abbrev pub in_kernel : {A : Type 0} → Eff (Kernel lib) MapError A → Eff (Kernel lib) Error A
    in_kernel m k = with_err map_failed (m k)

    -- `control.get(&0, 0)?` and `control.set(0, value, 0)?`
    unfoldable pub get_control : Eff (Kernel lib) Error Control
    get_control k = (map_err map_failed (lib.get_control k.control), k)

    unfoldable pub set_control : ℕ → Eff (Kernel lib) Error (Unit {0})
    set_control slot = in_kernel λ k.
        stored (λ c. record k { control = c })
          (lib.set_control (record { layout_version = layout_version; active_slot = slot })
            k.control)

    unfoldable pub open_lines : Option files.FilePath → Result Error Lines
    open_lines none = err not_configured
    open_lines (some path) = map_err open_failed (files.open_blocklist path)

    -- What follows the parse: a rejected slot is cleared again.
    unfoldable pub staged :
        ℕ
        → Result (StreamError files.IoError net.AddrParseError (StageError MapError)) StreamStats
          × Staging
        → Result Error (Unit {0}) × Kernel lib
    staged slot (ok stats, s) = (ok tt, s.kernel)
    staged slot (err e, s) = (err (rejected e), (clear_slot slot s.kernel).1)

    unfoldable pub stage : XdpConfig → ℕ → Lines → Eff (Kernel lib) Error (Unit {0})
    unfolding staged
    stage config slot lines k =
        staged slot (
          stream_chunks net (stage_chunk config slot) config.populate_batch_elements lines
            (start k))

    -- All before the switch; `path` is the file that is configured.
    unfoldable pub prepare :
        XdpConfig → Option files.FilePath → ℕ → Eff (Kernel lib) Error (Unit {0})
    prepare config path slot = do
      in_kernel (clear_slot slot)
      lines ← lift (open_lines path)
      stage config slot lines

    -- The switch, and the clearing of the slot that was active.
    unfoldable pub switch_to : ℕ → ℕ → Eff (Kernel lib) Error (Unit {0})
    switch_to active inactive = set_control inactive >> attempt (clear_slot active)

    unfoldable pub reload : XdpConfig → Option files.FilePath → Eff (Kernel lib) Error (Unit {0})
    reload config path = get_control >>= λ control.
        prepare config path (wrapping_sub 32 1 control.active_slot)
        >> switch_to control.active_slot (wrapping_sub 32 1 control.active_slot)
