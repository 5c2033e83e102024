-- ===== src/Blocklist/Stream/Families.antt =====
-- Reading one network with what goes before the match on the pending range in `stream_chunks`
-- (src/blocklist.rs): IPv4 is refused behind IPv6, and the first IPv6 network closes the chunk.
use nftblock.Prelude.{
  ℕ, suc, ◌+◌, ◌-◌, ◌^◌, ◌≤◌, ◌<◌, ◌≡◌, refl, sym, ap, ◌∙◌, Bool, true, false, Option, none, some,
  if◌then◌else◌, arith, subst,
}
use nftblock.Text.{Text}
use nftblock.Blocklist.Stream.Control.{
  ok, Locals, ipv4_after_ipv6, non_canonical, Pending, Exec, fail, pure, modify, when, continue,
}
use nftblock.Blocklist.Stream.{
  see_ipv6, begin_first, has_chunk, emit_chunk, flush_taken, set_pending, flush_pending, extend_v4,
  extend_v6, take_v4, take_v6, ipv6_last,
}
use nftblock.Blocklist.Stream.Replay.{Chunks, collect}
use nftblock.Blocklist.Stream.Flush.{IsOpen, intervals, when-cut, cut_others, OneFamily}
use nftblock.Blocklist.Stream.Order.{position, Chain-mono, ipv6_last_lem}
use nftblock.Blocklist.Stream.Invariant.{
  IsGood, PendingFits, after_flush, log_after_flush, flush_pending-runs, flush-IsFlushed,
}
use nftblock.Prelude.Powers.{IsMultiple}
use nftblock.Blocklist.Stream.Steps.{IsTaken, Taken, pending_facts}
use nftblock.Blocklist.Stream.Nets.{extend_v4-Taken, extend_v6-Taken, read_none}
use nftblock.Blocklist.Stream.Closing.{closed_locals, closed_log, closed-IsTaken}

module _ (I A E : Type 0) (limit number : ℕ) (value : Text) where
  take_v4-seen :
      (first last : ℕ) (l : Locals) (log : Chunks) (c : Bool)
      → l.seen_ipv6 ≡ c
      → IsGood limit l log
      → first ≤ last
      → last < 2 ^ 32
      → Taken {I = I} {A = A} {E = E} limit number value l log false first (suc last) (
          (if c
              then fail (non_canonical number value ipv4_after_ipv6)
              else extend_v4 collect limit number value first last l.pending)
            l log)
  take_v4-seen first last l log true s g le b = (ipv4_after_ipv6, rw s refl, refl, refl)
  take_v4-seen first last l log false s g le b =
      extend_v4-Taken I A E limit number value first last l log l.pending refl s g le b

  pub take_v4-Taken :
      (first last : ℕ) (l : Locals) (log : Chunks)
      → IsGood limit l log
      → first ≤ last
      → last < 2 ^ 32
      → Taken {I = I} {A = A} {E = E} limit number value l log false first
          (suc last)
          (take_v4 collect limit number value first last l log)
  unfolding take_v4
  take_v4-Taken first last l log g le b = take_v4-seen first last l log l.seen_ipv6 refl g le b

  -- What follows the flush, where no IPv6 network has been read.
  close_then : ℕ → ℕ → Exec I A E Chunks (Unit {0})
  close_then first last l s =
      continue (continue (when (has_chunk l) (emit_chunk collect) l s) (λ _. modify see_ipv6))
        (λ _ l s. extend_v6 collect limit number value first last l.pending l s)

  close_then-runs :
      (first last : ℕ) (l : Locals) (log : Chunks)
      → l.pending ≡ none
      → close_then first last l log
        ≡ (ok (tt, set_pending (some (Pending.v6 first last)) (closed_locals l)), closed_log l log)
  unfolding close_then extend_v6
  close_then-runs first last l log e =
      let (none_left, _, _) = cut_others (has_chunk l) l in
      rw (when-cut {I = I} {A = A} {E = E} (has_chunk l) l log, none_left ∙ e)

  -- The flush and what follows it.
  first_then : ℕ → ℕ → Exec I A E Chunks (Unit {0})
  first_then first last l s =
      continue (begin_first collect limit l s)
        (λ _ l s. extend_v6 collect limit number value first last l.pending l s)

  first_then-runs :
      (first last : ℕ) (l : Locals) (log : Chunks) (lf : Locals) (logf : Chunks)
      → flush_pending {I = I} {A = A} {E = E} collect limit l log ≡ (ok (tt, lf), logf)
      → first_then first last l log ≡ close_then first last lf logf
  unfolding first_then begin_first close_then
  first_then-runs first last l log lf logf e =
      ap
        (λ t.
          continue
            (continue t (λ _ l s.
              continue (when (has_chunk l) (emit_chunk collect) l s) (λ _. modify see_ipv6)))
            (λ _ l s. extend_v6 collect limit number value first last l.pending l s))
        e

  first-Taken :
      (first last : ℕ) (l : Locals) (log : Chunks) (lf : Locals) (logf : Chunks)
      → flush_pending {I = I} {A = A} {E = E} collect limit l log ≡ (ok (tt, lf), logf)
      → lf.pending ≡ none
      → IsTaken limit l log true
          (position true first)
          (position true (suc last))
          (set_pending (some (Pending.v6 first last)) (closed_locals lf))
          (closed_log lf logf)
      → Taken {I = I} {A = A} {E = E} limit number value l log true
          (position true first)
          (position true (suc last))
          (first_then first last l log)
  first-Taken first last l log lf logf e none_left taken =
      subst (Taken limit number value l log true (position true first) (position true (suc last)))
        (sym (
          first_then-runs first last l log lf logf e
          ∙ close_then-runs first last lf logf none_left))
        taken

  pub flush_none :
      (l : Locals) (log : Chunks)
      → l.pending ≡ none
      → flush_pending {I = I} {A = A} {E = E} collect limit l log
        ≡ (ok (tt, set_pending none l), log)
  unfolding flush_pending flush_taken
  flush_none l log e = rw e

  first_none-Taken :
      (first last : ℕ) (l : Locals) (log : Chunks)
      → l.seen_ipv6 ≡ false
      → l.pending ≡ none
      → IsGood limit l log
      → first ≤ last
      → last < 2 ^ 128
      → Taken {I = I} {A = A} {E = E} limit number value l log true
          (position true first)
          (position true (suc last))
          (first_then first last l log)
  first_none-Taken first last l log s e g le b =
      let fits : PendingFits l.seen_ipv6 (intervals l log) none =
        subst (PendingFits l.seen_ipv6 (intervals l log)) e g.fits in
      let o : IsOpen limit false (set_pending none l) log = record {
        counted = g.is_open.counted;
        below = g.is_open.below;
        one_family = subst (λ f. OneFamily f l.chunk) s g.is_open.one_family;
        chunks = g.is_open.chunks;
      } in
      first-Taken first last l log (set_pending none l) log (flush_none l log e) refl (
        closed-IsTaken limit l log (set_pending none l) log (Pending.v6 first last)
          (position true (suc last)) s (rw e (omega arith)) o (le, b) refl (rw fits.0 (omega arith))
          g.counted refl (λ x. read_none _ x l.pending e) refl)

  first_some-Taken :
      (first last : ℕ) (l : Locals) (log : Chunks) (f t : ℕ)
      → l.seen_ipv6 ≡ false
      → l.pending ≡ some (Pending.v4 f t)
      → IsGood limit l log
      → first ≤ last
      → last < 2 ^ 128
      → Taken {I = I} {A = A} {E = E} limit number value l log true
          (position true first)
          (position true (suc last))
          (first_then first last l log)
  first_some-Taken first last l log f t s e g le b =
      let p = Pending.v4 f t in
      let (v, _, _) = pending_facts limit l log g p e in
      let h = flush-IsFlushed limit p l log g e in
      let lf = after_flush limit p l in
      let logf = log_after_flush limit p l log in
      first-Taken first last l log lf logf (flush_pending-runs limit p l log e) h.pending (
        closed-IsTaken limit l log lf logf (Pending.v6 first last) (position true (suc last)) s
          (rw e (omega (arith, v.1))) (subst (λ c. IsOpen limit c lf logf) s h.is_open) (le, b) refl
          (Chain-mono 0 (suc (suc t)) (position true first) _ h.chain (omega (arith, v.1)))
          h.counted h.cidrs h.reads_same refl)

  take_v6-seen :
      (first last : ℕ) (l : Locals) (log : Chunks) (c : Bool) (o : Option Pending)
      → l.seen_ipv6 ≡ c
      → l.pending ≡ o
      → IsGood limit l log
      → first ≤ last
      → last < 2 ^ 128
      → Taken {I = I} {A = A} {E = E} limit number value l log true
          (position true first)
          (position true (suc last))
          (continue
            ((if c then pure tt else begin_first collect limit) l log)
            (λ _ l s. extend_v6 collect limit number value first last l.pending l s))
  unfolding first_then
  take_v6-seen first last l log true o s e g le b =
      extend_v6-Taken I A E limit number value first last l log l.pending refl s g le b
  take_v6-seen first last l log false none s e g le b = first_none-Taken first last l log s e g le b
  take_v6-seen first last l log false (some (Pending.v4 f t)) s e g le b =
      first_some-Taken first last l log f t s e g le b
  take_v6-seen first last l log false (some (Pending.v6 f t)) s e g le b =
      let (_, fam, _) = pending_facts limit l log g (Pending.v6 f t) e in cc

  pub take_v6-Taken :
      (first len : ℕ) (l : Locals) (log : Chunks)
      → IsGood limit l log
      → first < 2 ^ 128
      → len ≤ 128
      → IsMultiple (128 - len) first
      → Taken {I = I} {A = A} {E = E} limit number value l log true
          (position true first)
          (position true (first + 2 ^ (128 - len)))
          (take_v6 collect limit number value first len l log)
  unfolding take_v6
  take_v6-Taken first len l log g bound le m =
      let (next, lo, hi) = ipv6_last_lem first len bound le m in
      subst
        (λ h.
          Taken {I = I} {A = A} {E = E} limit number value l log true (position true first)
            (position true h) (take_v6 collect limit number value first len l log))
        next
        (take_v6-seen first (ipv6_last first len) l log l.seen_ipv6 l.pending refl refl g lo hi)
