-- ===== src/Blocklist/Stream/Invariant.antt =====
-- The loop invariant of `stream_chunks` (src/blocklist.rs), with the callback that records: what
-- has been handed out, the open chunk and the pending range, in this order, are the ranges of the
-- networks so far.
use nftblock.Prelude.{
  ℕ, suc, ◌+◌, ◌%◌, ◌^◌, ◌≡◌, refl, ap, ◌∙◌, Bool, true, false, ◌||◌, List, [], ◌∷◌, ◌++◌, Option,
  none, some, if◌then◌else◌, arith, subst,
}
use nftblock.Blocklist.{AddressInterval, boundary_elements}
use nftblock.Blocklist.Stream.Control.{
  ok, Locals, StreamStats, Pending, interval_of, count_interval,
}
use nftblock.Blocklist.Stream.{flush_taken, flush_pending}
use nftblock.Blocklist.Stream.Replay.{Chunks, collect}
use nftblock.Blocklist.Stream.Flush.{
  IsOpen, intervals, flushed_locals, flushed_log, flush_interval-runs, flushed-IsOpen,
  intervals-flushed, flushed_others,
}
use nftblock.Blocklist.Stream.Order.{
  low, high, Chain, Chain-snoc, within, covers, covers-snoc, pending_low, pending_high, IsPending,
  pending_is_ipv6, interval_of_lem,
}

-- How many intervals and boundary elements of a family a list has.
abbrev pub count_of : Bool → List AddressInterval → ℕ
count_of b [] = 0
count_of b (AddressInterval.v4 f a ∷ is) = (if b then 0 else 1) + count_of b is
count_of b (AddressInterval.v6 f a ∷ is) = (if b then 1 else 0) + count_of b is

abbrev pub boundaries_of : Bool → List AddressInterval → ℕ
boundaries_of b [] = 0
boundaries_of b (AddressInterval.v4 f a ∷ is) =
    (if b then 0 else boundary_elements (AddressInterval.v4 f a)) + boundaries_of b is
boundaries_of b (AddressInterval.v6 f a ∷ is) =
    (if b then boundary_elements (AddressInterval.v6 f a) else 0) + boundaries_of b is

-- The counters are those of the intervals, modulo `2 ^ 64`.
pub record IsCounted (stats : StreamStats) (is : List AddressInterval) : Type 0 where
  pub ipv4_intervals : stats.ipv4_intervals ≡ count_of false is % 2 ^ 64
  pub ipv6_intervals : stats.ipv6_intervals ≡ count_of true is % 2 ^ 64
  pub ipv4_boundaries : stats.ipv4_boundaries ≡ boundaries_of false is % 2 ^ 64
  pub ipv6_boundaries : stats.ipv6_boundaries ≡ boundaries_of true is % 2 ^ 64

count_of-append :
    (b : Bool) (is js : List AddressInterval)
    → count_of b (is ++ js) ≡ count_of b is + count_of b js
count_of-append b [] js = omega arith
count_of-append b (AddressInterval.v4 f a ∷ is) js = omega (arith, count_of-append b is js)
count_of-append b (AddressInterval.v6 f a ∷ is) js = omega (arith, count_of-append b is js)

boundaries_of-append :
    (b : Bool) (is js : List AddressInterval)
    → boundaries_of b (is ++ js) ≡ boundaries_of b is + boundaries_of b js
boundaries_of-append b [] js = omega arith
boundaries_of-append b (AddressInterval.v4 f a ∷ is) js =
    omega (arith, boundaries_of-append b is js)
boundaries_of-append b (AddressInterval.v6 f a ∷ is) js =
    omega (arith, boundaries_of-append b is js)

-- Counting an interval that comes behind the others.
IsCounted-snoc :
    (stats : StreamStats) (is : List AddressInterval) (i : AddressInterval)
    → IsCounted stats is
    → IsCounted (count_interval i stats) (is ++ i ∷ [])
unfolding count_interval
IsCounted-snoc stats is (AddressInterval.v4 f a) c =
    let i = AddressInterval.v4 f a in
    omega (
      arith,
      c.ipv4_intervals,
      count_of-append false is (i ∷ []),
      count_of-append true is (i ∷ []),
      boundaries_of-append false is (i ∷ []),
      boundaries_of-append true is (i ∷ []),
    )
IsCounted-snoc stats is (AddressInterval.v6 f a) c =
    let i = AddressInterval.v6 f a in
    omega (
      arith,
      count_of-append false is (i ∷ []),
      count_of-append true is (i ∷ []),
      boundaries_of-append false is (i ∷ []),
      boundaries_of-append true is (i ∷ []),
    )

abbrev pub PendingFits : Bool → List AddressInterval → Option Pending → Type 0
PendingFits b is none = (is ≡ []) × (b ≡ false)
PendingFits b is (some p) = IsPending p × (pending_is_ipv6 p ≡ b) × Chain 0 (pending_low p) is

-- The invariant.
pub record IsGood (limit : ℕ) (l : Locals) (log : Chunks) : Type 0 where
  pub is_open : IsOpen limit l.seen_ipv6 l log
  pub fits : PendingFits l.seen_ipv6 (intervals l log) l.pending
  pub counted : IsCounted l.stats (intervals l log)

-- The position behind all that has been read.
abbrev pub top_of : Option Pending → ℕ
top_of none = 0
top_of (some p) = pending_high p

abbrev pub pending_covers : ℕ → Option Pending → Bool
pending_covers x none = false
pending_covers x (some p) = within (pending_low p) (pending_high p) x

-- Some interval so far, or the pending range, has the address at position `x`.
abbrev pub reads : ℕ → Locals → Chunks → Bool
reads x l log = covers x (intervals l log) || pending_covers x l.pending

-- The locals and the record after `flush_pending`, where a range is pending.
abbrev pub after_flush : ℕ → Pending → Locals → Locals
after_flush limit p l = flushed_locals limit (interval_of p) (record l { pending = none })

abbrev pub log_after_flush : ℕ → Pending → Locals → Chunks → Chunks
log_after_flush limit p l log = flushed_log limit (interval_of p) (record l { pending = none }) log

pub flush_pending-runs :
    {I A E : Type 0} (limit : ℕ) (p : Pending) (l : Locals) (log : Chunks)
    → l.pending ≡ some p
    → flush_pending {I = I} {A = A} {E = E} collect limit l log
      ≡ (ok (tt, after_flush limit p l), log_after_flush limit p l log)
unfolding flush_pending flush_taken
flush_pending-runs limit p l log e =
    rw e (flush_interval-runs limit (interval_of p) (record l { pending = none }) log)

-- The range has become the last interval, and nothing is pending.
pub record IsFlushed (limit : ℕ) (p : Pending) (l : Locals) (log : Chunks) (l' : Locals)
    (log' : Chunks) : Type 0 where
  pub is_open : IsOpen limit l.seen_ipv6 l' log'
  pub seen : l'.seen_ipv6 ≡ l.seen_ipv6
  pub pending : l'.pending ≡ none
  pub cidrs : l'.stats.cidrs ≡ l.stats.cidrs
  pub chain : Chain 0 (suc (pending_high p)) (intervals l' log')
  pub counted : IsCounted l'.stats (intervals l' log')
  pub reads_same : (x : ℕ) → covers x (intervals l' log') ≡ reads x l log

cidrs-count_interval :
    (i : AddressInterval) (s : StreamStats) → (count_interval i s).cidrs ≡ s.cidrs
unfolding count_interval
cidrs-count_interval (AddressInterval.v4 f a) s = refl
cidrs-count_interval (AddressInterval.v6 f a) s = refl

range_read :
    (x : ℕ) (is : List AddressInterval) (i : AddressInterval) (p : Pending) {o : Option Pending}
    → low i ≡ pending_low p
    → high i ≡ pending_high p
    → o ≡ some p
    → (covers x is || within (low i) (high i) x) ≡ (covers x is || pending_covers x o)
range_read x is i p lo hi e = rw (lo, hi, e)

pub flush-IsFlushed :
    (limit : ℕ) (p : Pending) (l : Locals) (log : Chunks)
    → IsGood limit l log
    → l.pending ≡ some p
    → IsFlushed limit p l log (after_flush limit p l) (log_after_flush limit p l log)
flush-IsFlushed limit p l log g e =
    let i = interval_of p in
    let l0 : Locals = record l { pending = none } in
    let (others_p, others_s, others_c) = flushed_others limit i l0 in
    let fits : PendingFits l.seen_ipv6 (intervals l log) (some p) =
      subst (PendingFits l.seen_ipv6 (intervals l log)) e g.fits in
    let (valid, lo, hi, fam) = interval_of_lem p fits.0 in
    let o : IsOpen limit l.seen_ipv6 l0 log = record {
      counted = g.is_open.counted;
      below = g.is_open.below;
      one_family = g.is_open.one_family;
      chunks = g.is_open.chunks;
    } in
    let all = intervals-flushed limit i l0 log in
    record {
      is_open = flushed-IsOpen limit l.seen_ipv6 i l0 log o (fam ∙ fits.1);
      seen = others_s;
      pending = others_p;
      cidrs = ap (λ (s : StreamStats). s.cidrs) others_c ∙ cidrs-count_interval i l.stats;
      chain = rw all (
          Chain-snoc 0 (pending_low p) (suc (pending_high p)) (intervals l log) i fits.2
            (omega (arith, lo)) valid (omega (arith, hi)));
      counted = rw (all, others_c) (IsCounted-snoc l.stats (intervals l log) i g.counted);
      reads_same = λ x.
          ap (covers x) all
          ∙ covers-snoc x (intervals l log) i
          ∙ range_read x (intervals l log) i p lo hi e;
    }
