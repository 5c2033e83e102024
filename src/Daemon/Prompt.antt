-- ===== src/Daemon/Prompt.antt =====
-- What an iteration of the event loop of src/daemon.rs does: it acts on what is due, once.
use nftblock.Prelude.{Bool, true, false, List, [], ◌∷◌, ◌++◌, leb, if◌then◌else◌}
use nftblock.Files.{FileLib}
use nftblock.Blocklist.Stream.Net.{IpNetLib}
use nftblock.Zones.{Direction}
use nftblock.Config.{Config}
use nftblock.Netlink.{Backend}
use nftblock.Daemon.{XdpManager, State, Run, reload_backends, reconcile}
use nftblock.Daemon.Watch.{Tick, Pending, Watching, is_due, remove}

abbrev without_all : List Direction → Pending → Pending
without_all [] p = p
without_all (d ∷ ds) p = without_all ds (remove d p)

abbrev chosen : Bool → Bool → List Direction
chosen a b =
    (if a then Direction.inbound ∷ [] else []) ++ (if b then Direction.outbound ∷ [] else [])

abbrev by_direction : Bool → Bool → Direction → Bool
by_direction a b Direction.inbound = a
by_direction a b Direction.outbound = b

module _ (files : FileLib) (net : IpNetLib) (lib : Backend files.FilePath)
    (manager : XdpManager files.FilePath) (config : Config files.FilePath) where
  abbrev Daemon : Type 0
  Daemon = State files net lib manager config

  abbrev reload : Direction → Run files net lib manager config (Unit {0})
  reload x = reload_backends files net lib manager config x

  -- The daemon after a run, when there is one, whether the run fails or not.
  abbrev pub when_due : Bool → Run files net lib manager config (Unit {0}) → Daemon → Daemon
  when_due true m d = (m d).1
  when_due false m d = d

  abbrev in_both : Bool → Bool → Bool → Daemon → Daemon
  in_both outbound_first a b d =
      if outbound_first
      then when_due a (reload Direction.inbound) (when_due b (reload Direction.outbound) d)
      else when_due b (reload Direction.outbound) (when_due a (reload Direction.inbound) d)

  -- The daemon after an iteration with these deadlines: each direction whose deadline has come is
  -- reloaded, in the order of the map, and then all is reconciled if it is time.
  abbrev pub after_iteration :
      Tick files.FilePath → Pending → Watching files net lib manager config → Daemon
  after_iteration tick p w =
      when_due (leb w.next_reconcile tick.now) (reconcile files net lib manager config) (
        in_both tick.outbound_first (is_due tick.now p.inbound) (is_due tick.now p.outbound)
          w.daemon)
