-- ===== src/Blocklist/Stream/Steps.antt =====
-- What reading one network does to the loop invariant of `stream_chunks` (src/blocklist.rs), and
-- when it is refused.
use nftblock.Prelude.{
  ℕ, suc, ◌^◌, ◌≤◌, ◌<◌, ◌≡◌, ◌≢◌, refl, sym, ap, ◌∙◌, Bool, true, false, not, ◌&&◌, ◌||◌, Option,
  none, some, ltb, if◌then◌else◌, arith, subst,
}
use nftblock.Text.{Text}
use nftblock.Blocklist.Stream.Control.{
  Result, ok, err, Locals, StreamError, Reason, ipv4_after_ipv6, out_of_order, non_canonical,
  Pending,
}
use nftblock.Blocklist.Stream.{set_pending, follows}
use nftblock.Blocklist.Stream.Replay.{Chunks}
use nftblock.Blocklist.Stream.Flush.{IsOpen, intervals}
use nftblock.Blocklist.Stream.Order.{
  Chain, Chain-mono, within, covers, pending_low, pending_high, IsPending, pending_is_ipv6,
}
use nftblock.Blocklist.Stream.Invariant.{
  IsGood, PendingFits, IsCounted, top_of, reads, pending_covers, after_flush, log_after_flush,
  flush-IsFlushed,
}

-- Why a network of the family `b` at the position `lo` is refused behind what has been read.
abbrev pub fault : Bool → ℕ → Bool → ℕ → Option Reason
fault seen top b lo =
    if seen && not b then some ipv4_after_ipv6 else if ltb lo top then some out_of_order else none

-- A network has been read: it was in order, and its range is the last now.
pub record IsTaken (limit : ℕ) (l : Locals) (log : Chunks) (b : Bool) (lo hi : ℕ) (l' : Locals)
    (log' : Chunks) : Type 0 where
  pub clean : fault l.seen_ipv6 (top_of l.pending) b lo ≡ none
  pub good : IsGood limit l' log'
  pub top : top_of l'.pending ≡ hi
  pub seen : l'.seen_ipv6 ≡ b
  pub cidrs : l'.stats.cidrs ≡ l.stats.cidrs
  pub reads_more : (x : ℕ) → reads x l' log' ≡ (reads x l log || within lo hi x)

-- Either that, or the network is refused for the fault that it has.
abbrev pub Taken :
    {I A E : Type 0}
    → ℕ
    → ℕ
    → Text
    → Locals
    → Chunks
    → Bool
    → ℕ
    → ℕ
    → Result (StreamError I A E) (Unit {0} × Locals) × Chunks
    → Type 0
Taken limit number value l log b lo hi (ok (u, l'), log') = IsTaken limit l log b lo hi l' log'
Taken limit number value l log b lo hi (err e, log') =
    (r : Reason) × (fault l.seen_ipv6 (top_of l.pending) b lo ≡ some r)
    × (e ≡ non_canonical number value r)
    × (log' ≡ log)

set-IsGood :
    (limit : ℕ) (l : Locals) (log : Chunks) (p : Pending)
    → IsOpen limit l.seen_ipv6 l log
    → IsPending p
    → pending_is_ipv6 p ≡ l.seen_ipv6
    → Chain 0 (pending_low p) (intervals l log)
    → IsCounted l.stats (intervals l log)
    → IsGood limit (set_pending (some p) l) log
set-IsGood limit l log p o v b chain counted = record {
  is_open = record {
    counted = o.counted;
    below = o.below;
    one_family = o.one_family;
    chunks = o.chunks;
  };
  fits = (v, b, chain);
  counted = counted;
}

-- The first network of all, or the first of its family: nothing is pending.
pub start-IsTaken :
    (limit : ℕ) (l : Locals) (log : Chunks) (l1 : Locals) (log1 : Chunks) (p : Pending) (hi : ℕ)
    → fault l.seen_ipv6 (top_of l.pending) l1.seen_ipv6 (pending_low p) ≡ none
    → IsOpen limit l1.seen_ipv6 l1 log1
    → IsPending p
    → pending_is_ipv6 p ≡ l1.seen_ipv6
    → Chain 0 (pending_low p) (intervals l1 log1)
    → IsCounted l1.stats (intervals l1 log1)
    → l1.stats.cidrs ≡ l.stats.cidrs
    → ((x : ℕ) → covers x (intervals l1 log1) ≡ reads x l log)
    → pending_high p ≡ hi
    → IsTaken limit l log l1.seen_ipv6 (pending_low p) hi (set_pending (some p) l1) log1
start-IsTaken limit l log l1 log1 p hi clean o v b chain counted cidrs same to = record {
  clean = clean;
  good = set-IsGood limit l1 log1 p o v b chain counted;
  top = to;
  seen = refl;
  cidrs = cidrs;
  reads_more = λ x. rw (same x) (ap (λ h. reads x l log || within (pending_low p) h x) to);
}

within_join : (a b c x : ℕ) → a ≤ b → b ≤ c → within a c x ≡ (within a b x || within b c x)
within_join a b c x h k = ground arith

merged_reads :
    (c : Bool) (x : ℕ) (p p' : Pending) {o : Option Pending} (lo hi : ℕ)
    → o ≡ some p
    → pending_low p' ≡ pending_low p
    → pending_high p ≡ lo
    → pending_high p' ≡ hi
    → pending_low p ≤ lo
    → lo ≤ hi
    → (c || pending_covers x (some p')) ≡ ((c || pending_covers x o) || within lo hi x)
merged_reads c x p p' lo hi e at next to h k =
    rw (e, at, to, next) (ground (arith, within_join (pending_low p) lo hi x h k))

module _ (limit : ℕ) (l : Locals) (log : Chunks) (g : IsGood limit l log) where
  -- The pending range, read from the invariant.
  pub pending_facts :
      (p : Pending) → l.pending ≡ some p → PendingFits l.seen_ipv6 (intervals l log) (some p)
  pending_facts p e = subst (PendingFits l.seen_ipv6 (intervals l log)) e g.fits

  in_order :
      (p : Pending) (lo : ℕ)
      → l.pending ≡ some p
      → pending_high p ≤ lo
      → fault l.seen_ipv6 (top_of l.pending) l.seen_ipv6 lo ≡ none
  in_order p lo e h = rw e (ground arith)

  -- The network starts right behind the pending range, which grows.
  pub merge-IsTaken :
      (p p' : Pending) (lo hi : ℕ)
      → l.pending ≡ some p
      → IsPending p'
      → pending_is_ipv6 p' ≡ pending_is_ipv6 p
      → pending_low p' ≡ pending_low p
      → pending_high p ≡ lo
      → pending_high p' ≡ hi
      → pending_low p ≤ lo
      → lo ≤ hi
      → IsTaken limit l log l.seen_ipv6 lo hi (set_pending (some p') l) log
  merge-IsTaken p p' lo hi e v fam at next to h k =
      let (_, b, chain) = pending_facts p e in
      record {
        clean = in_order p lo e (omega arith);
        good = set-IsGood limit l log p' g.is_open v (fam ∙ b) (rw at chain) g.counted;
        top = to;
        seen = refl;
        cidrs = refl;
        reads_more = λ x. merged_reads _ x p p' lo hi e at next to h k;
      }

  -- The network starts further on: the pending range becomes an interval.
  pub gap-IsTaken :
      (p p' : Pending) (hi : ℕ)
      → l.pending ≡ some p
      → IsPending p'
      → pending_is_ipv6 p' ≡ pending_is_ipv6 p
      → pending_high p < pending_low p'
      → pending_high p' ≡ hi
      → IsTaken limit l log l.seen_ipv6
          (pending_low p')
          hi
          (set_pending (some p') (after_flush limit p l))
          (log_after_flush limit p l log)
  gap-IsTaken p p' hi e v fam gap to =
      let (_, b, chain) = pending_facts p e in
      let f = flush-IsFlushed limit p l log g e in
      subst
        (λ s.
          IsTaken limit l log s (pending_low p') hi (set_pending (some p') (after_flush limit p l))
            (log_after_flush limit p l log))
        f.seen
        (start-IsTaken limit l log (after_flush limit p l) (log_after_flush limit p l log) p' hi
          (rw f.seen (in_order p (pending_low p') e (omega arith))) (rw f.seen f.is_open) v
          (fam ∙ b ∙ sym f.seen)
          (Chain-mono 0 (suc (pending_high p)) (pending_low p') _ f.chain gap) f.counted f.cidrs
          f.reads_same to)

pub follows-true : (w last first : ℕ) → follows w last first ≡ true → suc last ≡ first
unfolding follows
follows-true w last first h = ground arith

pub follows-false :
    (w last first : ℕ) → first < 2 ^ w → follows w last first ≡ false → suc last ≢ first
unfolding follows
follows-false w last first b h = ground arith
