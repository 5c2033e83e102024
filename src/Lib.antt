-- ===== src/Lib.antt =====
-- cidrwall: a daemon that enforces lists of IPv4 and IPv6 networks with nftables and XDP.
--
-- The parts. The daemon (src/daemon.rs) watches the blocklists, parses a list with `stream_chunks`
-- (src/blocklist.rs), and hands its chunks to a backend: nftables over netlink
-- (src/netlink.rs, src/netlink/ffi.rs), whose sets hold intervals, or XDP (src/xdp.rs), whose maps
-- hold the prefixes of `interval_prefixes` (src/blocklist.rs). A packet filter
-- (cidrwall-ebpf/src/main.rs) looks source addresses up in these maps, in the slot that a control
-- record (cidrwall-common/src/lib.rs) says is active. Which packets nftables judges is told by rules:
-- `resolve` (src/zones.rs) turns zone names into interfaces, `render` (src/rules.rs) turns the
-- result into the rules of the kernel.
--
-- What models what:
--   Prelude, Text, Word   numbers, lists, results, `str` operations, fixed-width integers
--   Blocklist             src/blocklist.rs: AddressInterval, AddressPrefix, interval_prefixes
--   Blocklist/Prefixes    what the prefixes of an interval are: coverage, minimality
--   Blocklist/Stream      stream_chunks, flush_pending; Control has the state and the errors
--   Blocklist/Stream/*    its invariant, its steps, its results, and callbacks (Replay)
--   Filter                cidrwall-ebpf/src/main.rs: try_cidrwall, read_u8, read_be_u16, read_array
--   Filter/*              the same decision told from the bytes of the frame (Frame)
--   Zones                 src/zones.rs: from_entries, from_map, expand, resolve, resolve_one
--   Zones/*               what expansion and resolution give
--   Zones/Load            Zones::load, over the file system (Files) and the parser of serde_json
--   Rules                 src/rules.rs: render; Rules/Matching: which packets the rules match
--   Config                src/config.rs: the records and the accessors
--   Config/Validate       load_zones and validate; Config/Overrides: load and the command line
--   Config/Accepted       what validate asks for, with Config/Conditions for its parts
--   Xdp, Xdp/Maps         src/xdp.rs: reload, clear_slot, v4_mut, v6_mut over the maps of the kernel
--   Xdp/*                 a reload that fails (Untouched, Rejected), a cleared slot (Filled), the keys
--                         that are added and their addresses (Staged, Covered), a success (Loaded)
--   Xdp/Links             attach, unsupported_native and reconcile_links with its roll back
--   Xdp/RollBack, Pins    the links in the map of the manager, and those pinned in the kernel
--   Netlink               src/netlink.rs: the generations, apply_stats, the trait Backend
--   Netlink/Generations   the names of sets and observe_generations; Netlink/Fresh: new names are new
--   Netlink/Native        NftnlBackend: begin_stage, layout_status, health, cleanup_obsolete
--   Netlink/Healthy       what a good health says; Netlink/Obsolete: which sets are obsolete
--   Daemon                src/daemon.rs: stage, replace_both, reload_nft_for, reconcile, initial_load
--   Daemon/Watch, Start   classify_event, the event loop; new, start and watch
--   Daemon/Traced         what the daemon takes to be active, next to a trace of the backend's calls
--   Daemon/Dispatch, Loading, Agrees, Always    the same for the operations that a run consists of
--   Daemon/Prompt         what an iteration of the event loop does
--   Tests                 the source's tests, and the theorems at concrete inputs
--
-- Addresses are numbers below `2 ^ 32` and `2 ^ 128`; texts are lists of code points. The reader of
-- `stream_chunks` is the list of its lines, each a text or an I/O error; its callback is a function
-- over a state of its own; its local variables are a record. The two loops of `interval_prefixes` run
-- on fuel `2 ^ 32` and `2 ^ 128`: each round goes on by one address at least, and the theorems hold
-- of the function with that fuel, so it never runs out on an interval that holds an address.
-- The crate ipnet is a parameter, with the laws that its documentation gives of its values.
-- `chunk_boundaries` is a plain number: it stays at most the larger of the limit and 2.
--
-- The packet filter has the memory as a function and the maps as the answers of lookups; the sums of
-- an address and an offset do not wrap around. A `BTreeSet` of names is a strictly ascending list; a
-- `BTreeMap` of zones is an association list, since it is only looked up, and the error of a zone map
-- is that of the first entry in the order that is given.
--
-- A configuration has the values that the parsers give; their bounds as machine integers are not
-- used. The kernel's maps, the backend of nftables and the XDP manager of the daemon are records of
-- operations on a state of their own; the maps come with the laws of their documentation. Of the
-- backend nothing is taken for granted: `Traced` records the calls of any backend that return without
-- an error, and `told_by` reads from them what they have put in force. A call that commits in the
-- kernel and still returns an error is in the trace as not having happened. In the same way `ledger`
-- records which links have been pinned and not been asked to be unpinned. `replace_both` and
-- `reload_nft_for` call each other: without active generations the reload is the first load, and
-- with them the replacement reloads each direction, so `first_load` and `reload_active` stand for
-- these parts and nothing calls itself. The event loop runs on a list of ticks, each with what was
-- received, the clock, and the order in which the map of pending directions was read; the list ends
-- when a signal has come. Errors are constructors, without their text and context; the log is left
-- out.
--
-- Not modelled: the start and the cleanup of the XDP manager (the rest of src/xdp.rs), the batches
-- that the backend sends (the rest of src/netlink.rs) and its messages (src/netlink/ffi.rs), and the
-- choice of the mode of operation in src/main.rs.
mod Prelude
pub mod Text
pub mod Word
pub mod Blocklist
pub mod Filter
pub mod Zones
pub mod Config
pub mod Files
pub mod Xdp
pub mod Rules
pub mod Netlink
pub mod Daemon
mod Tests
