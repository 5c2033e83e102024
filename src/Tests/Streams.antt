-- ===== src/Tests/Streams.antt =====
-- The tests of src/blocklist.rs on `stream_chunks`, and the witnesses.
use nftblock.Prelude.{
  ℕ, ◌^◌, ◌%◌, ◌≡◌, refl, false, none, some, List, [], ◌∷◌, ◌++◌, All, concat, length, arith, leb,
  if◌then◌else◌,
}
use nftblock.Text.{Text, trim, trim_start, is_whitespace}
use nftblock.Blocklist.{AddressInterval, boundary_elements}
use nftblock.Blocklist.Stream.Control.{
  Result, ok, err, StreamStats, StreamError, non_canonical, host_bits_set, ipv4_after_ipv6,
  out_of_order, count_interval, push_interval, interval_of, Emit,
}
use nftblock.Blocklist.Stream.{
  stream_chunks, run_chunks, finish, take_lines, take_line, take_parsed, take_net, take_v4, take_v6,
  begin_v6, begin_first, extend_v4, extend_v6, flush_pending, flush_taken, flush_interval,
  emit_chunk, emitted, follows, ipv6_last,
}
use nftblock.Blocklist.Stream.Replay.{collect, Chunks, play, replay}
use nftblock.Blocklist.Stream.Replay.Parts.{stream_chunks-play}
use nftblock.Blocklist.Stream.Flush.{IsChunk}
use nftblock.Blocklist.Stream.Order.{Chain, covers, nets, nets_cover}
use nftblock.Blocklist.Stream.Invariant.{IsCounted}
use nftblock.Blocklist.Stream.Verdict.{verdict, error_of}
use nftblock.Blocklist.Stream.Results.{
  stream_chunks-IsChunk, stream_chunks-covers, stream_chunks-stats,
}
use nftblock.Blocklist.Stream.Errors.{refused_or, stream_chunks-verdict}
use nftblock.Blocklist.Stream.Canonical.{stream_chunks_canonical, stream_chunks-Chain}
use nftblock.Blocklist.Stream.Panics.{is_panic, stream_chunks_calm}
use nftblock.Tests.Samples.{sample_net, sample_net-IpNetLaws, Refused}

abbrev Lines : Type 0
Lines = List (Result (Unit {0}) Text)

abbrev Run : Type 0
Run = Result (StreamError (Unit {0}) Refused (Unit {0})) StreamStats × Chunks

abbrev ipv4_line : ℕ → ℕ → Result (Unit {0}) Text
ipv4_line address wide = ok (b'4' ∷ address ∷ wide ∷ b';' ∷ [])

abbrev ipv6_line : ℕ → ℕ → Result (Unit {0}) Text
ipv6_line address wide = ok (b' ' ∷ b'6' ∷ address ∷ wide ∷ b';' ∷ b' ' ∷ [])

abbrev comment : Result (Unit {0}) Text
comment = ok (b'#' ∷ b'x' ∷ [])

unfoldable run : ℕ → Lines → Run
unfolding stream_chunks run_chunks finish take_lines take_line take_parsed take_net take_v4 take_v6
    begin_v6 begin_first extend_v4 extend_v6 flush_pending flush_taken flush_interval emit_chunk
    emitted follows ipv6_last count_interval push_interval interval_of boundary_elements trim
    trim_start is_whitespace
run limit lines = stream_chunks sample_net collect limit lines []

abbrev mixed : Lines
mixed =
    comment ∷ ipv4_line 0x0a000000 1 ∷ ipv4_line 0x0a000080 1 ∷ ok [] ∷ ipv6_line 0x200000 1 ∷ []

abbrev mixed_chunks : Chunks
mixed_chunks =
    (AddressInterval.v4 0x0a000000 (some 0x0a000100) ∷ [])
    ∷ (AddressInterval.v6 0x200000 (some 0x200002) ∷ [])
    ∷ []

abbrev mixed_stats : StreamStats
mixed_stats = record {
  cidrs = 3;
  ipv4_intervals = 1;
  ipv6_intervals = 1;
  ipv4_boundaries = 2;
  ipv6_boundaries = 2;
}

run-mixed : run 100 mixed ≡ (ok mixed_stats, mixed_chunks)
unfolding run
run-mixed = refl

three_hosts :
    error_of
      (run 2 (ipv4_line 0x0a000000 0 ∷ ipv4_line 0x0a000002 0 ∷ ipv4_line 0x0a000004 0 ∷ [])).0
    ≡ none
unfolding run
three_hosts = refl

three_hosts_chunks :
    length (run 2 (ipv4_line 0x0a000000 0 ∷ ipv4_line 0x0a000002 0 ∷ ipv4_line 0x0a000004 0 ∷ [])).1
    ≡ 3
unfolding run
three_hosts_chunks = refl

-- One interval of two elements under a limit of 1.
above_limit :
    (run 1 (ipv4_line 0x0a000000 0 ∷ [])).1
    ≡ (AddressInterval.v4 0x0a000000 (some 0x0a000001) ∷ []) ∷ []
unfolding run
above_limit = refl

address_space_end :
    (run 1 (ipv4_line 0xffffffff 0 ∷ [])).1 ≡ (AddressInterval.v4 0xffffffff none ∷ []) ∷ []
unfolding run
address_space_end = refl

host_bits :
    error_of (run 100 (ipv4_line 0x0a000007 1 ∷ [])).0
    ≡ some (non_canonical 1 (b'4' ∷ 0x0a000007 ∷ 1 ∷ b';' ∷ []) host_bits_set)
unfolding run
host_bits = refl

abbrev backwards : Lines
backwards = ipv4_line 0x0a000002 0 ∷ ipv4_line 0x0a000000 0 ∷ []

abbrev backwards_error : StreamError (Unit {0}) Refused (Unit {0})
backwards_error = non_canonical 2 (b'4' ∷ 0x0a000000 ∷ 0 ∷ b';' ∷ []) out_of_order

backwards_rejected : error_of (run 100 backwards).0 ≡ some backwards_error
unfolding run
backwards_rejected = refl

twice :
    error_of (run 100 (ipv4_line 0x0a000000 0 ∷ ipv4_line 0x0a000000 0 ∷ [])).0
    ≡ some backwards_error
unfolding run
twice = refl

ipv4_last :
    error_of (run 100 (ipv6_line 0x200000 0 ∷ ipv4_line 0x0a000000 0 ∷ [])).0
    ≡ some (non_canonical 2 (b'4' ∷ 0x0a000000 ∷ 0 ∷ b';' ∷ []) ipv4_after_ipv6)
unfolding run
ipv4_last = refl

-- The callback that refuses the third chunk.
abbrev refuse_third : Emit (Unit {0}) Chunks
refuse_third chunk log = if leb 2 (length log) then (err tt, log) else (ok tt, log ++ chunk ∷ [])

run-backwards : run 100 backwards ≡ (err backwards_error, [])
unfolding run
run-backwards = refl

stream_chunks-verdict_example :
    error_of (stream_chunks sample_net refuse_third 100 backwards []).0
    ≡ refused_or
        (replay refuse_third
          (stream_chunks sample_net (collect {E = Unit {0}}) 100 backwards []).1
          []).0
        (verdict sample_net 1 false 0 backwards)
stream_chunks-verdict_example =
    stream_chunks-verdict sample_net sample_net-IpNetLaws (Unit {0}) (Unit {0}) Chunks 100
      refuse_third backwards [] (omega arith)

stream_chunks-IsChunk_example :
    All (IsChunk 100) (stream_chunks sample_net {E = Unit {0}} collect 100 mixed []).1
stream_chunks-IsChunk_example =
    stream_chunks-IsChunk sample_net sample_net-IpNetLaws (Unit {0}) (Unit {0}) 100 mixed
      (omega arith)

stream_chunks-covers_example :
    covers 0x0a000081 (concat mixed_chunks)
    ≡ nets_cover sample_net 0x0a000081 (nets sample_net mixed)
unfolding run
stream_chunks-covers_example =
    stream_chunks-covers sample_net sample_net-IpNetLaws (Unit {0}) (Unit {0}) 100 mixed mixed_stats
      mixed_chunks 0x0a000081 (omega arith) run-mixed

stream_chunks-stats_example :
    IsCounted mixed_stats (concat mixed_chunks)
    × (mixed_stats.cidrs ≡ length (nets sample_net mixed) % 2 ^ 64)
unfolding run
stream_chunks-stats_example =
    stream_chunks-stats sample_net sample_net-IpNetLaws (Unit {0}) (Unit {0}) 100 mixed mixed_stats
      mixed_chunks (omega arith) run-mixed

-- A network and a host, in one chunk, and the same addresses as three hosts, in two.
abbrev whole : Lines
whole = ipv6_line 2 1 ∷ ipv6_line 9 0 ∷ []

abbrev halves : Lines
halves = ipv6_line 2 0 ∷ ipv6_line 3 0 ∷ ipv6_line 9 0 ∷ []

abbrev whole_stats : ℕ → StreamStats
whole_stats n = record {
  cidrs = n;
  ipv4_intervals = 0;
  ipv6_intervals = 2;
  ipv4_boundaries = 0;
  ipv6_boundaries = 4;
}

abbrev whole_chunks : Chunks
whole_chunks = (AddressInterval.v6 2 (some 4) ∷ AddressInterval.v6 9 (some 10) ∷ []) ∷ []

abbrev halves_chunks : Chunks
halves_chunks = (AddressInterval.v6 2 (some 4) ∷ []) ∷ (AddressInterval.v6 9 (some 10) ∷ []) ∷ []

run-whole : run 100 whole ≡ (ok (whole_stats 2), whole_chunks)
unfolding run
run-whole = refl

run-halves : run 2 halves ≡ (ok (whole_stats 3), halves_chunks)
unfolding run
run-halves = refl

same_addresses :
    (x : ℕ)
    → nets_cover sample_net x (nets sample_net whole)
      ≡ nets_cover sample_net x (nets sample_net halves)
unfolding trim trim_start is_whitespace
same_addresses x = ground arith

stream_chunks_canonical_example : concat whole_chunks ≡ concat halves_chunks
unfolding run
stream_chunks_canonical_example =
    stream_chunks_canonical sample_net sample_net-IpNetLaws (Unit {0}) (Unit {0}) 100 2 whole halves
      (whole_stats 2) (whole_stats 3) whole_chunks halves_chunks (omega arith) (omega arith)
      run-whole run-halves same_addresses

stream_chunks-Chain_example : Chain 0 (2 ^ 129) (concat mixed_chunks)
unfolding run
stream_chunks-Chain_example =
    stream_chunks-Chain sample_net sample_net-IpNetLaws (Unit {0}) (Unit {0}) 100 mixed mixed_stats
      mixed_chunks (omega arith) run-mixed

stream_chunks-play_example :
    stream_chunks sample_net refuse_third 100 mixed []
    ≡ play refuse_third (stream_chunks sample_net {E = Unit {0}} collect 100 mixed []) []
stream_chunks-play_example = stream_chunks-play sample_net refuse_third 100 mixed []

stream_chunks_calm_example :
    is_panic (error_of (stream_chunks sample_net refuse_third 100 mixed []).0) ≡ false
stream_chunks_calm_example =
    stream_chunks_calm sample_net sample_net-IpNetLaws (Unit {0}) (Unit {0}) Chunks refuse_third 100
      mixed [] (omega arith)
