-- ===== src/Blocklist/Stream.antt =====
-- `stream_chunks` of src/blocklist.rs and its helper `flush_pending`.
pub mod Net
pub mod Control
pub mod Replay
pub mod Flush
pub mod Order
pub mod Invariant
pub mod Steps
pub mod Nets
pub mod Closing
pub mod Families
pub mod Verdict
pub mod Loop
pub mod Finish
pub mod Results
pub mod Errors
pub mod Canonical
pub mod Panics
use Prim.Native.Nat.{bit_or}
use nftblock.Prelude.{
  ℕ, suc, ◌+◌, ◌-◌, ◌%◌, ◌^◌, Bool, true, false, not, ◌&&◌, ◌||◌, Option, none, some, List, [], ◌∷◌,
  ◌++◌, ◌⊎◌, inl, inr, ltb, leb, ◌==◌, if◌then◌else◌,
}
use nftblock.Text.{Text, trim, is_empty, starts_with_char}
use nftblock.Word.{wrapping_add, wrapping_sub, checked_add}
use nftblock.Blocklist.{AddressInterval, boundary_elements, u128_max}
use Net.{IpNet, IpNetLib}
use Control.{
  Result, ok, err, StreamStats, Reason, host_bits_set, ipv4_after_ipv6, out_of_order, StreamError,
  Pending, Locals, initial, Emit, interval_of, push_interval, Exec, continue, ◌>>◌, fail, modify,
  pure, when, ◌>>=◌, invalid, io, non_canonical, emit_failed, panicked,
}

-- `old_last.checked_add(1) == Some(first)`
abbrev is_some_of : Option ℕ → ℕ → Bool
is_some_of none n = false
is_some_of (some m) n = m == n

unfoldable pub follows : ℕ → ℕ → ℕ → Bool
follows w old_last first = is_some_of (checked_add w old_last 1) first

abbrev pub set_pending : Option Pending → Locals → Locals
set_pending value l = record l { pending = value }

abbrev pub see_ipv6 : Locals → Locals
see_ipv6 l = record l { seen_ipv6 = true }

-- `stats.cidrs += 1`
abbrev pub count_cidr : Locals → Locals
count_cidr l = record l { stats = record l.stats { cidrs = wrapping_add 64 l.stats.cidrs 1 } }

-- The last address of an IPv6 network.
unfoldable pub ipv6_last : ℕ → ℕ → ℕ
ipv6_last first prefix_len =
    let host_bits : ℕ = 128 - prefix_len in
    if host_bits == 128 then u128_max else bit_or first (2 ^ host_bits - 1)

abbrev pub has_chunk : Locals → Bool
has_chunk l = not (is_empty l.chunk)

-- The chunk would go past the limit with the interval; the chunk has reached the limit.
abbrev pub no_room : ℕ → AddressInterval → Locals → Bool
no_room limit interval l =
    has_chunk l && ltb limit (l.chunk_boundaries + boundary_elements interval)

abbrev pub is_full : ℕ → Locals → Bool
is_full limit l = leb limit l.chunk_boundaries

module _ {I A E S : Type 0} where
  unfoldable pub emitted :
      Locals → Result E (Unit {0}) × S → Result (StreamError I A E) (Unit {0} × Locals) × S
  emitted l (ok u, s) = (ok (tt, record l { chunk = []; chunk_boundaries = 0 }), s)
  emitted l (err e, s) = (err (emit_failed e), s)

  -- `emit(chunk)?; chunk.clear(); chunk_boundaries = 0`
  unfoldable pub emit_chunk : Emit E S → Exec I A E S (Unit {0})
  unfolding emitted
  emit_chunk emit l s = emitted l (emit l.chunk s)

module _ {I A E S : Type 0} (emit : Emit E S) (limit : ℕ) where
  -- What `flush_pending` does with an interval.
  unfoldable pub flush_interval : AddressInterval → Exec I A E S (Unit {0})
  flush_interval interval l =
      (do
        when (no_room limit interval l) (emit_chunk emit)
        modify (push_interval interval)
        (λ l. when (is_full limit l) (emit_chunk emit) l))
        l

  unfoldable pub flush_taken : Option Pending → Exec I A E S (Unit {0})
  flush_taken none = pure tt
  flush_taken (some value) = flush_interval (interval_of value)

  unfoldable pub flush_pending : Exec I A E S (Unit {0})
  unfolding flush_taken
  flush_pending l = flush_taken l.pending (record l { pending = none })

  -- The matches on the pending range, for a network of either family.
  unfoldable pub extend_v4 : ℕ → Text → ℕ → ℕ → Option Pending → Exec I A E S (Unit {0})
  extend_v4 number value first last none = modify (set_pending (some (Pending.v4 first last)))
  extend_v4 number value first last (some (Pending.v6 old_first old_last)) = fail panicked
  extend_v4 number value first last (some (Pending.v4 old_first old_last)) =
      if leb first old_last
      then fail (non_canonical number value out_of_order)
      else if follows 32 old_last first
      then modify (set_pending (some (Pending.v4 old_first last)))
      else flush_pending >> modify (set_pending (some (Pending.v4 first last)))

  unfoldable pub extend_v6 : ℕ → Text → ℕ → ℕ → Option Pending → Exec I A E S (Unit {0})
  extend_v6 number value first last none = modify (set_pending (some (Pending.v6 first last)))
  extend_v6 number value first last (some (Pending.v4 old_first old_last)) = fail panicked
  extend_v6 number value first last (some (Pending.v6 old_first old_last)) =
      if leb first old_last
      then fail (non_canonical number value out_of_order)
      else if follows 128 old_last first
      then modify (set_pending (some (Pending.v6 old_first last)))
      else flush_pending >> modify (set_pending (some (Pending.v6 first last)))

  -- `IpNet::V4(net)`, with its network and broadcast address.
  unfoldable pub take_v4 : ℕ → Text → ℕ → ℕ → Exec I A E S (Unit {0})
  unfolding extend_v4
  take_v4 number value first last l =
      (if l.seen_ipv6
          then fail (non_canonical number value ipv4_after_ipv6)
          else extend_v4 number value first last l.pending)
        l

  -- `if !seen_ipv6 { … }`
  unfoldable pub begin_first : Exec I A E S (Unit {0})
  begin_first = do flush_pending; (λ l. when (has_chunk l) (emit_chunk emit) l); modify see_ipv6

  unfoldable pub begin_v6 : Exec I A E S (Unit {0})
  unfolding begin_first
  begin_v6 l = (if l.seen_ipv6 then pure tt else begin_first) l

  -- `IpNet::V6(net)`, with its network address and prefix length.
  unfoldable pub take_v6 : ℕ → Text → ℕ → ℕ → Exec I A E S (Unit {0})
  unfolding begin_v6 extend_v6
  take_v6 number value first prefix_len =
      begin_v6 >> λ l. extend_v6 number value first (ipv6_last first prefix_len) l.pending l

-- The result of the function: its locals are dropped.
abbrev pub Outcome : (I A E S : Type 0) → Type 0
Outcome I A E S = Result (StreamError I A E) StreamStats × S

abbrev pub stats_result :
    {I A E : Type 0}
    → Result (StreamError I A E) (Unit {0} × Locals)
    → Result (StreamError I A E) StreamStats
stats_result (ok (u, l)) = ok l.stats
stats_result (err e) = err e

abbrev pub stats_of :
    {I A E S : Type 0} → Result (StreamError I A E) (Unit {0} × Locals) × S → Outcome I A E S
stats_of (r, s) = (stats_result r, s)

module _ (lib : IpNetLib) {I E S : Type 0} (emit : Emit E S) (limit : ℕ) where
  open lib use {
    Ipv4Net, Ipv6Net, AddrParseError, parse, is_trunc, ipv4_network, ipv4_broadcast, ipv6_network,
    ipv6_prefix_len,
  }

  unfoldable pub take_net : ℕ → Text → IpNet Ipv4Net Ipv6Net → Exec I AddrParseError E S (Unit {0})
  take_net number value (IpNet.v4 net) =
      take_v4 emit limit number value (ipv4_network net) (ipv4_broadcast net)
  take_net number value (IpNet.v6 net) =
      take_v6 emit limit number value (ipv6_network net) (ipv6_prefix_len net)

  unfoldable pub take_parsed :
      ℕ → Text → AddrParseError ⊎ IpNet Ipv4Net Ipv6Net → Exec I AddrParseError E S (Unit {0})
  take_parsed number value (inl e) = fail (invalid number value e)
  take_parsed number value (inr net) =
      if is_trunc net
      then modify count_cidr >> take_net number value net
      else fail (non_canonical number value host_bits_set)

  -- The body of the `for` loop, for one line of the reader.
  unfoldable pub take_line : ℕ → Result I Text → Exec I AddrParseError E S (Unit {0})
  unfolding take_parsed
  take_line number (err source) = fail (io number source)
  take_line number (ok line) =
      let value = trim line in
      if is_empty value || starts_with_char b'#' value
      then pure tt
      else take_parsed number value (parse value)

  unfoldable pub take_lines : ℕ → List (Result I Text) → Exec I AddrParseError E S (Unit {0})
  take_lines number [] = pure tt
  take_lines number (line ∷ lines) = take_line number line >> take_lines (suc number) lines

  unfoldable pub finish : Exec I AddrParseError E S (Unit {0})
  finish = flush_pending emit limit >> λ l. when (has_chunk l) (emit_chunk emit) l

  -- All behind the `assert!`.
  unfoldable pub run_chunks : List (Result I Text) → S → Outcome I AddrParseError E S
  run_chunks lines s = stats_of ((take_lines 1 lines >> finish) initial s)

  unfoldable pub stream_chunks : List (Result I Text) → S → Outcome I AddrParseError E S
  unfolding run_chunks
  stream_chunks lines s = if limit == 0 then (err panicked, s) else run_chunks lines s
