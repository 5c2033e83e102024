-- ===== src/Blocklist/Stream/Results.antt =====
-- What `stream_chunks` (src/blocklist.rs) returns and what it hands out, with the callback that
-- records the chunks.
use nftblock.Prelude.{
  ℕ, ◌%◌, ◌^◌, ◌<◌, ◌≡◌, refl, ◌∙◌, false, Option, none, some, List, [], ◌==◌, arith, subst, All,
  length, concat, Bool-cases, ==→≡, inl, inr, sym,
}
use nftblock.Text.{Text}
use nftblock.Blocklist.Stream.Control.{
  Result, ok, err, Locals, initial, StreamStats, StreamError, continue,
}
use nftblock.Blocklist.Stream.{stats_of, finish, run_chunks, stream_chunks}
use nftblock.Blocklist.Stream.Net.{IpNetLib, IpNetLaws}
use nftblock.Blocklist.Stream.Replay.{Chunks, collect}
use nftblock.Blocklist.Stream.Flush.{IsChunk}
use nftblock.Blocklist.Stream.Order.{Chain, covers, nets, nets_cover}
use nftblock.Blocklist.Stream.Invariant.{IsCounted}
use nftblock.Blocklist.Stream.Verdict.{verdict, error_of}
use nftblock.Blocklist.Stream.Loop.{IsRead, Reads, done, take_lines-Reads}
use nftblock.Blocklist.Stream.Finish.{initial-IsGood, drain-Drained, Finished, close-Finished}

-- What the function hands out when it returns `stats`.
pub record IsStreamed (lib : IpNetLib) (limit : ℕ) {I : Type 0} (lines : List (Result I Text))
    (stats : StreamStats) (log : Chunks) : Type 0 where
  pub chunks : All (IsChunk limit) log
  pub stop : ℕ
  pub chain : Chain 0 stop (concat log)
  pub counted : IsCounted stats (concat log)
  pub cidrs : stats.cidrs ≡ length (nets lib lines) % 2 ^ 64
  pub covers_all : (x : ℕ) → covers x (concat log) ≡ nets_cover lib x (nets lib lines)

module _ (lib : IpNetLib) (laws : IpNetLaws lib) (I E : Type 0) (limit : ℕ) where
  -- The outcome is the one that the verdict on the lines tells.
  abbrev Settled :
      List (Result I Text)
      → Option (StreamError I lib.AddrParseError E)
      → Result (StreamError I lib.AddrParseError E) StreamStats × Chunks
      → Type 0
  Settled lines v (ok stats, log) = (v ≡ none) × IsStreamed lib limit lines stats log
  Settled lines v (err e, log) = (v ≡ some e) × All (IsChunk limit) log

  Finished-Settled :
      (lines : List (Result I Text)) (v : Option (StreamError I lib.AddrParseError E)) (l : Locals)
      (log : Chunks) (r : Result (StreamError I lib.AddrParseError E) (Unit {0} × Locals) × Chunks)
      → v ≡ none
      → IsRead lib limit initial [] (nets lib lines) l log
      → Finished I lib.AddrParseError E limit l log r
      → Settled lines v (stats_of r)
  Finished-Settled lines v l log (ok (u, l'), log') e a f = (
    e,
    record {
      chunks = f.chunks;
      stop = f.stop;
      chain = f.chain;
      counted = f.counted;
      cidrs = omega (arith, f.cidrs, a.cidrs 0 refl);
      covers_all = λ x. f.covers_all x ∙ a.reads_more x;
    },
  )
  Finished-Settled lines v l log (err x, log') e a f = elim f [ ]

  read-Settled :
      (lines : List (Result I Text)) (v : Option (StreamError I lib.AddrParseError E))
      (r : Result (StreamError I lib.AddrParseError E) (Unit {0} × Locals) × Chunks)
      → Reads lib laws I E limit initial [] (nets lib lines) v (done lib laws I E limit) r
      → Settled lines v (stats_of (continue r (λ _. finish lib collect limit)))
  unfolding finish
  read-Settled lines v (ok (u, l), log) (e, a) = Finished-Settled lines v l log _ e a (
      close-Finished I lib.AddrParseError E limit l log _
        (drain-Drained I lib.AddrParseError E limit l log l.pending refl a.good))
  read-Settled lines v (err x, log) h = h

  stream_chunks-Settled :
      (lines : List (Result I Text))
      → 0 < limit
      → Settled lines (verdict lib 1 false 0 lines) (stream_chunks lib collect limit lines [])
  unfolding stream_chunks run_chunks
  stream_chunks-Settled lines pos = elim (Bool-cases (limit == 0)) [
    | inl e ↦ let none_left : ⊥ = omega (arith, ==→≡ _ _ e) in elim none_left [ ]
    | inr e ↦ rw e (
        read-Settled lines _ _
          (take_lines-Reads lib laws I E limit 1 lines initial [] (initial-IsGood limit pos)))
  ]

  Settled-error :
      (lines : List (Result I Text)) (v : Option (StreamError I lib.AddrParseError E))
      (o : Result (StreamError I lib.AddrParseError E) StreamStats × Chunks)
      → Settled lines v o
      → error_of o.0 ≡ v
  Settled-error lines v (ok stats, log) h = sym h.0
  Settled-error lines v (err e, log) h = sym h.0

  Settled-chunks :
      (lines : List (Result I Text)) (v : Option (StreamError I lib.AddrParseError E))
      (o : Result (StreamError I lib.AddrParseError E) StreamStats × Chunks)
      → Settled lines v o
      → All (IsChunk limit) o.1
  Settled-chunks lines v (ok stats, log) h = h.1.chunks
  Settled-chunks lines v (err e, log) h = h.1

  -- With a callback that records, the function fails exactly when a line cannot be read, cannot be parsed,
  -- has host bits, or is out of order, and its error is that of the first such line.
  pub collect-verdict :
      (lines : List (Result I Text))
      → 0 < limit
      → error_of (stream_chunks lib {E = E} collect limit lines []).0 ≡ verdict lib 1 false 0 lines
  collect-verdict lines pos = Settled-error lines _ _ (stream_chunks-Settled lines pos)

  -- With a positive limit, each chunk handed out, also before an error, has an interval, has
  -- intervals of one family only, and has at most `max limit 2` boundary elements.
  pub stream_chunks-IsChunk :
      (lines : List (Result I Text))
      → 0 < limit
      → All (IsChunk limit) (stream_chunks lib {E = E} collect limit lines []).1
  stream_chunks-IsChunk lines pos = Settled-chunks lines _ _ (stream_chunks-Settled lines pos)

  pub stream_chunks-IsStreamed :
      (lines : List (Result I Text)) (stats : StreamStats) (log : Chunks)
      → 0 < limit
      → stream_chunks lib {E = E} collect limit lines [] ≡ (ok stats, log)
      → IsStreamed lib limit lines stats log
  stream_chunks-IsStreamed lines stats log pos e =
      (subst (Settled lines (verdict lib 1 false 0 lines)) e (stream_chunks-Settled lines pos)).1

  -- With a positive limit, when the function returns, the chunks together have exactly the addresses of the networks.
  pub stream_chunks-covers :
      (lines : List (Result I Text)) (stats : StreamStats) (log : Chunks) (x : ℕ)
      → 0 < limit
      → stream_chunks lib {E = E} collect limit lines [] ≡ (ok stats, log)
      → covers x (concat log) ≡ nets_cover lib x (nets lib lines)
  stream_chunks-covers lines stats log x pos e =
      (stream_chunks-IsStreamed lines stats log pos e).covers_all x

  -- With a positive limit, when the function returns, the counters are those of the intervals handed
  -- out and of the networks read, modulo `2 ^ 64`.
  pub stream_chunks-stats :
      (lines : List (Result I Text)) (stats : StreamStats) (log : Chunks)
      → 0 < limit
      → stream_chunks lib {E = E} collect limit lines [] ≡ (ok stats, log)
      → IsCounted stats (concat log) × (stats.cidrs ≡ length (nets lib lines) % 2 ^ 64)
  stream_chunks-stats lines stats log pos e =
      let s = stream_chunks-IsStreamed lines stats log pos e in (s.counted, s.cidrs)
