-- ===== src/Blocklist/Stream/Closing.antt =====
-- Closing the open chunk before the first IPv6 network in `stream_chunks` (src/blocklist.rs).
use nftblock.Prelude.{ℕ, ◌≤◌, ◌≡◌, refl, ap, ◌∙◌, Bool, true, false, [], some, arith}
use nftblock.Blocklist.Stream.Control.{Locals, Pending, StreamStats}
use nftblock.Blocklist.Stream.{has_chunk, set_pending}
use nftblock.Blocklist.Stream.Replay.{Chunks}
use nftblock.Blocklist.Stream.Flush.{
  IsOpen, intervals, cut-IsOpen, intervals-cut, cut_others, cut_locals, cut_log,
}
use nftblock.Blocklist.Stream.Order.{
  Chain, covers, pending_low, pending_high, IsPending, pending_is_ipv6,
}
use nftblock.Blocklist.Stream.Invariant.{IsCounted, top_of, reads}
use nftblock.Blocklist.Stream.Steps.{IsTaken, start-IsTaken}

-- Closing the chunk before the first IPv6 network: the locals and the record.
abbrev pub closed_locals : Locals → Locals
closed_locals l = record (cut_locals (has_chunk l) l) { seen_ipv6 = true }

abbrev pub closed_log : Locals → Chunks → Chunks
closed_log l log = cut_log (has_chunk l) l log

pub empty_chunk : (l : Locals) → has_chunk l ≡ false → l.chunk ≡ []
empty_chunk l h = ground (arith, h)

pub closed-IsOpen :
    (limit : ℕ) (b : Bool) (l : Locals) (log : Chunks) (c : Bool)
    → has_chunk l ≡ c
    → IsOpen limit b l log
    → IsOpen limit true (record (cut_locals c l) { seen_ipv6 = true }) (cut_log c l log)
closed-IsOpen limit b l log true h o =
    let cut =
      cut-IsOpen limit b l log true (omega (arith, o.below)) o.counted o.one_family o.chunks
        (λ _. (ground (arith, h), omega (arith, o.below, o.counted))) (λ e. cc) in
    record { counted = refl; below = cut.below; one_family = tt; chunks = cut.chunks }
closed-IsOpen limit b l log false h o = record {
  counted = o.counted;
  below = o.below;
  one_family = rw (empty_chunk l h) tt;
  chunks = o.chunks;
}

-- The first IPv6 network behind what has been flushed.
pub closed-IsTaken :
    (limit : ℕ) (l : Locals) (log : Chunks) (lf : Locals) (logf : Chunks) (p : Pending) (hi : ℕ)
    → l.seen_ipv6 ≡ false
    → top_of l.pending ≤ pending_low p
    → IsOpen limit false lf logf
    → IsPending p
    → pending_is_ipv6 p ≡ true
    → Chain 0 (pending_low p) (intervals lf logf)
    → IsCounted lf.stats (intervals lf logf)
    → lf.stats.cidrs ≡ l.stats.cidrs
    → ((x : ℕ) → covers x (intervals lf logf) ≡ reads x l log)
    → pending_high p ≡ hi
    → IsTaken limit l log true
        (pending_low p)
        hi
        (set_pending (some p) (closed_locals lf))
        (closed_log lf logf)
closed-IsTaken limit l log lf logf p hi s top o v b chain counted cidrs same to =
    let c = has_chunk lf in
    let (_, _, stats) = cut_others c lf in
    let all : intervals (closed_locals lf) (closed_log lf logf) ≡ intervals lf logf =
      intervals-cut c lf logf in
    start-IsTaken limit l log (closed_locals lf) (closed_log lf logf) p hi
      (rw s (ground (arith, top))) (closed-IsOpen limit false lf logf c refl o) v b (rw all chain)
      (rw (all, stats) counted) (ap (λ (t : StreamStats). t.cidrs) stats ∙ cidrs)
      (λ x. ap (covers x) all ∙ same x) to
