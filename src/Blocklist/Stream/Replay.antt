-- ===== src/Blocklist/Stream/Replay.antt =====
-- Callbacks of `stream_chunks` (src/blocklist.rs): the one that records, and handing a record to
-- another.
pub mod Rules
pub mod Parts
pub mod Keeping
use mathlib.Core.List.{append_assoc, append-nil}
use nftblock.Prelude.{
  ℕ, zero, suc, ◌+◌, ◌≡◌, refl, sym, ap, ◌∙◌, Bool, true, false, not, ◌&&◌, ◌||◌, Option, none,
  some, List, [], ◌∷◌, ◌++◌, ◌⊎◌, inl, inr, ltb, leb, ◌==◌, if◌then◌else◌, arith,
}
use nftblock.Text.{Text, trim, is_empty, starts_with_char}
use nftblock.Blocklist.{AddressInterval, boundary_elements}
use nftblock.Blocklist.Stream.Net.{IpNet, IpNetLib}
use nftblock.Blocklist.Stream.Control.{
  Result, ok, err, StreamStats, StreamError, Pending, Locals, initial, Emit, interval_of,
  push_interval, Exec, continue, ◌>>◌, fail, modify, pure, when, emit_failed, panicked,
}
use nftblock.Blocklist.Stream.{
  emitted, emit_chunk, flush_interval, flush_taken, flush_pending, extend_v4, extend_v6, take_v4,
  take_v6, begin_v6, take_net, take_parsed, take_line, take_lines, finish, stream_chunks, stats_of,
  stats_result, Outcome, follows, ipv6_last, no_room, is_full, has_chunk,
}

abbrev pub Chunks : Type 0
Chunks = List (List AddressInterval)

-- The callback that records.
abbrev pub collect : {E : Type 0} → Emit E Chunks
collect chunk log = (ok tt, log ++ chunk ∷ [])

abbrev pub and_then :
    {E S : Type 0}
    → Result E (Unit {0}) × S
    → (S → Result E (Unit {0}) × S)
    → Result E (Unit {0}) × S
and_then (ok u, s) f = f s
and_then (err e, s) f = (err e, s)

-- Hands the chunks to a callback, in order, up to the first error.
unfoldable pub replay : {E S : Type 0} → Emit E S → Chunks → S → Result E (Unit {0}) × S
replay emit [] s = (ok tt, s)
replay emit (c ∷ cs) s = and_then (emit c s) (replay emit cs)

module _ {I A E S : Type 0} {B : Type 0} where
  abbrev pub play_on :
      Result (StreamError I A E) B → Result E (Unit {0}) × S → Result (StreamError I A E) B × S
  play_on r (ok u, s) = (r, s)
  play_on r (err e, s) = (err (emit_failed e), s)

  -- A recorded run, played to a callback: its first error, or the run's own result.
  abbrev pub play :
      Emit E S → Result (StreamError I A E) B × Chunks → S → Result (StreamError I A E) B × S
  play emit (r, log) s = play_on r (replay emit log s)
