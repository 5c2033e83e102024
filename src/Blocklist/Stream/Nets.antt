-- ===== src/Blocklist/Stream/Nets.antt =====
-- Reading one network, of either family: the branches of the match in `stream_chunks`
-- (src/blocklist.rs).
use nftblock.Prelude.{
  ℕ, suc, ◌^◌, ◌≤◌, ◌<◌, ◌≡◌, refl, sym, ap, inl, inr, Bool, true, false, not, ◌&&◌, ◌||◌, Option,
  none, some, leb, arith, Bool-cases, subst,
}
use nftblock.Text.{Text}
use nftblock.Blocklist.Stream.Control.{err, Locals, out_of_order, non_canonical, Pending}
use nftblock.Blocklist.Stream.{set_pending, follows, extend_v4, extend_v6}
use nftblock.Blocklist.Stream.Replay.{Chunks, collect}
use nftblock.Blocklist.Stream.Flush.{intervals}
use nftblock.Blocklist.Stream.Order.{
  position, pending_low, pending_high, IsPending, pending_is_ipv6,
}
use nftblock.Blocklist.Stream.Invariant.{
  IsGood, PendingFits, pending_covers, after_flush, log_after_flush, flush_pending-runs,
}
use nftblock.Blocklist.Stream.Steps.{
  IsTaken, Taken, start-IsTaken, merge-IsTaken, gap-IsTaken, pending_facts, follows-true,
  follows-false,
}

pub read_none : (c : Bool) (x : ℕ) (o : Option Pending) → o ≡ none → c ≡ (c || pending_covers x o)
read_none c x o e = rw e (ground arith)

-- Nothing has been read before.
first-IsTaken :
    (limit : ℕ) (l : Locals) (log : Chunks) (p : Pending) (hi : ℕ)
    → IsGood limit l log
    → l.pending ≡ none
    → IsPending p
    → pending_is_ipv6 p ≡ l.seen_ipv6
    → pending_high p ≡ hi
    → IsTaken limit l log l.seen_ipv6 (pending_low p) hi (set_pending (some p) l) log
first-IsTaken limit l log p hi g e v b to =
    let fits : PendingFits l.seen_ipv6 (intervals l log) none =
      subst (PendingFits l.seen_ipv6 (intervals l log)) e g.fits in
    start-IsTaken limit l log l log p hi (rw e (ground arith)) g.is_open v b
      (rw fits.0 (omega arith)) g.counted refl (λ x. read_none _ x l.pending e) to

module _ (I A E : Type 0) (limit number : ℕ) (value : Text) where
  out_of_order-Taken :
      (l : Locals) (log : Chunks) (b : Bool) (lo hi : ℕ) (p : Pending)
      → l.pending ≡ some p
      → (l.seen_ipv6 && not b) ≡ false
      → lo < pending_high p
      → Taken {I = I} {A = A} {E = E} limit number value l log b lo hi
          (err (non_canonical number value out_of_order), log)
  out_of_order-Taken l log b lo hi p e s h = (out_of_order, rw (s, e) (ground arith), refl, refl)

  pub extend_v4-Taken :
      (first last : ℕ) (l : Locals) (log : Chunks) (o : Option Pending)
      → l.pending ≡ o
      → l.seen_ipv6 ≡ false
      → IsGood limit l log
      → first ≤ last
      → last < 2 ^ 32
      → Taken {I = I} {A = A} {E = E} limit number value l log false
          (position false first)
          (position false (suc last))
          (extend_v4 collect limit number value first last o l log)
  unfolding extend_v4
  extend_v4-Taken first last l log none e s g le b =
      let p' = Pending.v4 first last in
      subst
        (λ f.
          IsTaken limit l log f (position false first) (position false (suc last))
            (set_pending (some p') l) log)
        s (first-IsTaken limit l log p' (position false (suc last)) g e (le, b) (sym s) refl)
  extend_v4-Taken first last l log (some (Pending.v6 f t)) e s g le b =
      let (_, fam, _) = pending_facts limit l log g (Pending.v6 f t) e in cc
  extend_v4-Taken first last l log (some (Pending.v4 f t)) e s g le b =
      let p = Pending.v4 f t in
      let p' = Pending.v4 first last in
      let (v, _, _) = pending_facts limit l log g p e in
      let lo = position false first in
      let hi = position false (suc last) in
      elim (Bool-cases (leb first t)) [
        | inl early ↦
            rw early (out_of_order-Taken l log false lo hi p e (rw s) (ground (arith, early)))
        | inr late ↦ rw late (elim (Bool-cases (follows 32 t first)) [
          | inl next ↦ rw next (
              subst
                (λ f'. IsTaken limit l log f' lo hi (set_pending (some (Pending.v4 f last)) l) log)
                s
                (merge-IsTaken limit l log g p (Pending.v4 f last) lo hi e
                  (omega (arith, v.0, follows-true 32 t first next), b) refl refl
                  (ap (position false) (follows-true 32 t first next)) refl
                  (omega (arith, v.0, follows-true 32 t first next)) (omega arith)))
          | inr gap ↦ rw gap (
              rw (flush_pending-runs {I = I} {A = A} {E = E} limit p l log e) (
                subst
                  (λ f'.
                    IsTaken limit l log f' lo hi (set_pending (some p') (after_flush limit p l))
                      (log_after_flush limit p l log))
                  s
                  (gap-IsTaken limit l log g p p' hi e (le, b) refl
                    (let ne = follows-false 32 t first (omega arith) gap in ground (arith, late))
                    refl)))
        ])
      ]

  pub extend_v6-Taken :
      (first last : ℕ) (l : Locals) (log : Chunks) (o : Option Pending)
      → l.pending ≡ o
      → l.seen_ipv6 ≡ true
      → IsGood limit l log
      → first ≤ last
      → last < 2 ^ 128
      → Taken {I = I} {A = A} {E = E} limit number value l log true
          (position true first)
          (position true (suc last))
          (extend_v6 collect limit number value first last o l log)
  unfolding extend_v6
  extend_v6-Taken first last l log none e s g le b =
      let p' = Pending.v6 first last in
      subst
        (λ f.
          IsTaken limit l log f (position true first) (position true (suc last))
            (set_pending (some p') l) log)
        s (first-IsTaken limit l log p' (position true (suc last)) g e (le, b) (sym s) refl)
  extend_v6-Taken first last l log (some (Pending.v4 f t)) e s g le b =
      let (_, fam, _) = pending_facts limit l log g (Pending.v4 f t) e in cc
  extend_v6-Taken first last l log (some (Pending.v6 f t)) e s g le b =
      let p = Pending.v6 f t in
      let p' = Pending.v6 first last in
      let (v, _, _) = pending_facts limit l log g p e in
      let lo = position true first in
      let hi = position true (suc last) in
      elim (Bool-cases (leb first t)) [
        | inl early ↦
            rw early (out_of_order-Taken l log true lo hi p e (rw s) (ground (arith, early)))
        | inr late ↦ rw late (elim (Bool-cases (follows 128 t first)) [
          | inl next ↦ rw next (
              subst
                (λ f'. IsTaken limit l log f' lo hi (set_pending (some (Pending.v6 f last)) l) log)
                s
                (merge-IsTaken limit l log g p (Pending.v6 f last) lo hi e
                  (omega (arith, v.0, follows-true 128 t first next), b) refl refl
                  (ap (position true) (follows-true 128 t first next)) refl
                  (omega (arith, v.0, follows-true 128 t first next)) (omega arith)))
          | inr gap ↦ rw gap (
              rw (flush_pending-runs {I = I} {A = A} {E = E} limit p l log e) (
                subst
                  (λ f'.
                    IsTaken limit l log f' lo hi (set_pending (some p') (after_flush limit p l))
                      (log_after_flush limit p l log))
                  s
                  (gap-IsTaken limit l log g p p' hi e (le, b) refl
                    (let ne = follows-false 128 t first (omega arith) gap in ground (arith, late))
                    refl)))
        ])
      ]
