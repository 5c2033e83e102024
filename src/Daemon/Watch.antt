-- ===== src/Daemon/Watch.antt =====
-- src/daemon.rs: which directions an event of the file system is about, and the loop of `watch`. The
-- events, the clock and the order in which the map of pending directions is read come as data.
use nftblock.Prelude.{
  ℕ, ◌+◌, ◌*◌, Bool, true, false, ◌&&◌, ◌||◌, Option, none, some, List, [], ◌∷◌, leb, if◌then◌else◌,
  any,
}
use nftblock.Files.{FileLib}
use nftblock.Blocklist.Stream.Net.{IpNetLib}
use nftblock.Zones.{Direction, inbound, outbound, same}
use nftblock.Config.{Config, blocklist_path}
use nftblock.Netlink.{Backend}
use nftblock.Daemon.{XdpManager, directions_of, State, reload_backends, reconcile}

-- `notify::Event`, and what `recv_timeout` returns.
pub data EventKind : Type 0 where
  access other : EventKind

pub record Event (P : Type 0) : Type 0 where
  pub kind : EventKind
  pub paths : List P

pub data Received (P : Type 0) : Type 0 where
  observed : Event P → Received P
  watcher_error disconnected timeout : Received P

abbrev same_option : {A : Type 0} → (A → A → Bool) → Option A → Option A → Bool
same_option p none none = true
same_option p none (some b) = false
same_option p (some a) none = false
same_option p (some a) (some b) = p a b

module _ (files : FileLib) where
  unfoldable pub same_target : files.FilePath → files.FilePath → Bool
  same_target event_path target =
      files.same_path event_path target
      || (same_option files.same_path (files.parent event_path) (files.parent target)
          && same_option same (files.file_name event_path) (files.file_name target))

  unfoldable pub is_about : Option files.FilePath → List files.FilePath → Bool
  is_about none paths = false
  is_about (some target) paths = any (λ path. same_target path target) paths

  unfoldable pub classify_event :
      Event files.FilePath → Option files.FilePath → Option files.FilePath → List Direction
  classify_event event inbound_path outbound_path = elim event.kind [
    | EventKind.access ↦ []
    | EventKind.other ↦ directions_of λ direction. elim direction [
      | Direction.inbound ↦ is_about inbound_path event.paths
      | Direction.outbound ↦ is_about outbound_path event.paths
    ]
  ]

-- `pending`, with the deadline of each direction.
pub record Pending : Type 0 where
  pub inbound : Option ℕ
  pub outbound : Option ℕ

unfoldable pub insert : Direction → ℕ → Pending → Pending
insert Direction.inbound deadline p = record p { inbound = some deadline }
insert Direction.outbound deadline p = record p { outbound = some deadline }

unfoldable pub remove : Direction → Pending → Pending
remove Direction.inbound p = record p { inbound = none }
remove Direction.outbound p = record p { outbound = none }

abbrev pub deadline_of : Pending → Direction → Option ℕ
deadline_of p Direction.inbound = p.inbound
deadline_of p Direction.outbound = p.outbound

abbrev pub is_due : ℕ → Option ℕ → Bool
is_due now none = false
is_due now (some deadline) = leb deadline now

-- The order of a `HashMap`'s entries is not fixed.
abbrev pub in_order : Bool → List Direction → List Direction
in_order outbound_first (d ∷ e ∷ []) = if outbound_first then e ∷ d ∷ [] else d ∷ e ∷ []
in_order outbound_first directions = directions

-- What an iteration reads: an event, and the clock in milliseconds, at each insertion and after.
pub record Tick (P : Type 0) : Type 0 where
  pub received : Received P
  pub inserted_at : Direction → ℕ
  pub now : ℕ
  pub outbound_first : Bool

unfoldable pub due : Bool → ℕ → Pending → List Direction
due outbound_first now p =
    in_order outbound_first (directions_of λ direction. is_due now (deadline_of p direction))

module _ (files : FileLib) (net : IpNetLib) (lib : Backend files.FilePath)
    (manager : XdpManager files.FilePath) (config : Config files.FilePath) where
  pub record Watching : Type 0 where
    pub daemon : State files net lib manager config
    pub pending : Pending
    pub next_reconcile : ℕ

  unfoldable pub insert_all : (Direction → ℕ) → List Direction → Pending → Pending
  unfolding insert
  insert_all at [] p = p
  insert_all at (direction ∷ directions) p =
      insert_all at directions (insert direction (at direction + config.runtime.debounce_ms) p)

  -- The match on `recv_timeout`; `none` is the end of the loop, with an error.
  unfoldable pub take_received :
      (Direction → ℕ) → Received files.FilePath → Pending → Option Pending
  unfolding insert_all classify_event
  take_received at (Received.observed event) p = some (
      insert_all at
        (classify_event files event (blocklist_path config inbound)
          (blocklist_path config outbound))
        p)
  take_received at Received.watcher_error p = some p
  take_received at Received.disconnected p = none
  take_received at Received.timeout p = some p

  -- The loop over what is due: an error is logged.
  unfoldable pub reload_due : List Direction → Watching → Watching
  unfolding remove
  reload_due [] w = w
  reload_due (direction ∷ directions) w = reload_due directions (record w {
    daemon = (reload_backends files net lib manager config direction w.daemon).1;
    pending = remove direction w.pending;
  })

  unfoldable pub reconcile_due : ℕ → Watching → Watching
  reconcile_due now w =
      if leb w.next_reconcile now
      then record w {
        daemon = (reconcile files net lib manager config w.daemon).1;
        next_reconcile = now + config.runtime.reconcile_secs * 1000;
      }
      else w

  abbrev pub proceed : Tick files.FilePath → Watching → Option Pending → Option Watching
  proceed tick w none = none
  proceed tick w (some pending) = some (
      reconcile_due tick.now
        (reload_due (due tick.outbound_first tick.now pending) (record w { pending = pending })))

  unfoldable pub iteration : Tick files.FilePath → Watching → Option Watching
  unfolding take_received due reload_due reconcile_due
  iteration tick w = proceed tick w (take_received tick.inserted_at tick.received w.pending)

  abbrev pub continue_with :
      (Watching → Bool × Watching) → Watching → Option Watching → Bool × Watching
  continue_with f w none = (false, w)
  continue_with f w (some v) = f v

  -- The loop until a signal, which is the end of the list, or until the watcher has stopped. The
  -- result tells which of the two it was.
  unfoldable pub watch_loop : List (Tick files.FilePath) → Watching → Bool × Watching
  unfolding iteration
  watch_loop [] w = (true, w)
  watch_loop (tick ∷ ticks) w = continue_with (watch_loop ticks) w (iteration tick w)
