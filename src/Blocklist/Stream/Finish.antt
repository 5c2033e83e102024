-- ===== src/Blocklist/Stream/Finish.antt =====
-- The end of `stream_chunks` (src/blocklist.rs), with the callback that records: the pending range
-- and the last chunk are handed out.
use mathlib.Core.List.{append-nil}
use nftblock.Prelude.{
  ℕ, ◌<◌, ◌≡◌, refl, ap, ◌∙◌, Bool, true, false, Option, none, some, [], arith, subst, All, concat,
  concat-snoc, sym, suc,
}
use nftblock.Blocklist.Stream.Control.{
  Result, ok, err, Locals, initial, StreamStats, StreamError, Pending, when, continue,
}
use nftblock.Blocklist.Stream.{flush_pending, emit_chunk, has_chunk}
use nftblock.Blocklist.Stream.Replay.{Chunks, collect}
use nftblock.Blocklist.Stream.Flush.{
  IsChunk, IsOpen, intervals, when-cut, cut-IsOpen, cut_others, cut_log,
}
use nftblock.Blocklist.Stream.Order.{Chain, covers, pending_high}
use nftblock.Blocklist.Stream.Invariant.{
  IsGood, IsCounted, PendingFits, reads, flush_pending-runs, flush-IsFlushed,
}
use nftblock.Blocklist.Stream.Nets.{read_none}
use nftblock.Blocklist.Stream.Closing.{empty_chunk}
use nftblock.Blocklist.Stream.Families.{flush_none}

-- Nothing is pending: the open chunk is the last one.
pub record IsDrained (limit : ℕ) (l : Locals) (log : Chunks) (l' : Locals) (log' : Chunks)
    : Type 0 where
  pub is_open : IsOpen limit l.seen_ipv6 l' log'
  pub stop : ℕ
  pub chain : Chain 0 stop (intervals l' log')
  pub counted : IsCounted l'.stats (intervals l' log')
  pub cidrs : l'.stats.cidrs ≡ l.stats.cidrs
  pub covers_all : (x : ℕ) → covers x (intervals l' log') ≡ reads x l log

-- All intervals have been handed out.
pub record IsFinished (limit : ℕ) (l : Locals) (log : Chunks) (stats : StreamStats) (log' : Chunks)
    : Type 0 where
  pub chunks : All (IsChunk limit) log'
  pub stop : ℕ
  pub chain : Chain 0 stop (concat log')
  pub counted : IsCounted stats (concat log')
  pub cidrs : stats.cidrs ≡ l.stats.cidrs
  pub covers_all : (x : ℕ) → covers x (concat log') ≡ reads x l log

pub initial-IsGood : (limit : ℕ) → 0 < limit → IsGood limit initial []
initial-IsGood limit pos = record {
  is_open = record { counted = refl; below = pos; one_family = tt; chunks = tt };
  fits = (refl, refl);
  counted = record {
    ipv4_intervals = refl;
    ipv6_intervals = refl;
    ipv4_boundaries = refl;
    ipv6_boundaries = refl;
  };
}

closed_log-concat :
    (c : Bool) (l : Locals) (log : Chunks)
    → has_chunk l ≡ c
    → concat (cut_log c l log) ≡ intervals l log
closed_log-concat true l log h = concat-snoc log l.chunk
closed_log-concat false l log h = rw (empty_chunk l h) (sym (append-nil (concat log)))

closed_log-IsChunk :
    (limit : ℕ) (b c : Bool) (l : Locals) (log : Chunks)
    → has_chunk l ≡ c
    → IsOpen limit b l log
    → All (IsChunk limit) (cut_log c l log)
closed_log-IsChunk limit b c l log h o =
    (cut-IsOpen limit b l log c (omega (arith, o.below)) o.counted o.one_family o.chunks
      (λ e. (ground (arith, h, e), omega (arith, o.below, o.counted))) (λ _. o.below)).chunks

module _ (I A E : Type 0) (limit : ℕ) where
  abbrev pub Drained :
      Locals → Chunks → Result (StreamError I A E) (Unit {0} × Locals) × Chunks → Type 0
  Drained l log (ok (u, l'), log') = IsDrained limit l log l' log'
  Drained l log (err e, log') = ⊥

  abbrev pub Finished :
      Locals → Chunks → Result (StreamError I A E) (Unit {0} × Locals) × Chunks → Type 0
  Finished l log (ok (u, l'), log') = IsFinished limit l log l'.stats log'
  Finished l log (err e, log') = ⊥

  pub drain-Drained :
      (l : Locals) (log : Chunks) (o : Option Pending)
      → l.pending ≡ o
      → IsGood limit l log
      → Drained l log (flush_pending collect limit l log)
  drain-Drained l log none e g =
      let fits : PendingFits l.seen_ipv6 (intervals l log) none =
        subst (PendingFits l.seen_ipv6 (intervals l log)) e g.fits in
      subst (Drained l log) (sym (flush_none I A E limit 0 [] l log e)) (record {
        is_open = record {
          counted = g.is_open.counted;
          below = g.is_open.below;
          one_family = g.is_open.one_family;
          chunks = g.is_open.chunks;
        };
        stop = 0;
        chain = rw fits.0 (omega arith);
        counted = g.counted;
        cidrs = refl;
        covers_all = λ x. read_none _ x l.pending e;
      })
  drain-Drained l log (some p) e g =
      let h = flush-IsFlushed limit p l log g e in
      subst (Drained l log) (sym (flush_pending-runs limit p l log e)) (record {
        is_open = h.is_open;
        stop = suc (pending_high p);
        chain = h.chain;
        counted = h.counted;
        cidrs = h.cidrs;
        covers_all = h.reads_same;
      })

  pub close-Finished :
      (l : Locals) (log : Chunks) (r : Result (StreamError I A E) (Unit {0} × Locals) × Chunks)
      → Drained l log r
      → Finished l log (continue r (λ _ l. when (has_chunk l) (emit_chunk collect) l))
  close-Finished l log (ok (u, l'), log') d =
      let c = has_chunk l' in
      let all = closed_log-concat c l' log' refl in
      let (_, _, stats) = cut_others c l' in
      subst (Finished l log) (sym (when-cut c l' log')) (record {
        chunks = closed_log-IsChunk limit l.seen_ipv6 c l' log' refl d.is_open;
        stop = d.stop;
        chain = rw all d.chain;
        counted = rw (all, stats) d.counted;
        cidrs = ap (λ (s : StreamStats). s.cidrs) stats ∙ d.cidrs;
        covers_all = λ x. ap (covers x) all ∙ d.covers_all x;
      })
  close-Finished l log (err e, log') d = elim d [ ]
