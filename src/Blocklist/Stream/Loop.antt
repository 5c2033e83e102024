-- ===== src/Blocklist/Stream/Loop.antt =====
-- The `for` loop of `stream_chunks` (src/blocklist.rs), with the callback that records: it keeps the
-- invariant over the networks of the lines, or stops with the verdict on the lines.
use nftblock.Prelude.{
  ℕ, suc, ◌+◌, ◌%◌, ◌^◌, ◌≡◌, refl, ap, ◌∙◌, ◌⊎◌, inl, inr, Bool, ◌||◌, List, [], ◌∷◌, ◌++◌, Option,
  none, some, arith, Bool-cases, All, length, length-append,
}
use nftblock.Text.{Text, trim}
use nftblock.Blocklist.Stream.Control.{Result, ok, err, Locals, StreamError, Exec, continue}
use nftblock.Blocklist.Stream.{take_net, take_parsed, take_line, take_lines, count_cidr}
use nftblock.Blocklist.Stream.Net.{IpNet, IpNetLib, IpNetLaws}
use nftblock.Blocklist.Stream.Replay.{Chunks, collect}
use nftblock.Blocklist.Stream.Flush.{IsChunk}
use nftblock.Blocklist.Stream.Order.{
  is_blank, parsed_nets, line_nets, nets, net_low, net_high, nets_cover,
}
use nftblock.Blocklist.Stream.Invariant.{IsGood, top_of, reads}
use nftblock.Blocklist.Stream.Steps.{fault, Taken}
use nftblock.Blocklist.Stream.Families.{take_v4-Taken, take_v6-Taken}
use nftblock.Blocklist.Stream.Verdict.{net_is_ipv6, parsed_verdict, line_verdict, verdict, ordered}

module _ (lib : IpNetLib) where
  -- The networks `ns` have been read.
  pub record IsRead (limit : ℕ) (l : Locals) (log : Chunks)
      (ns : List (IpNet lib.Ipv4Net lib.Ipv6Net)) (l' : Locals) (log' : Chunks) : Type 0 where
    pub good : IsGood limit l' log'
    pub cidrs : (m : ℕ) → l.stats.cidrs ≡ m % 2 ^ 64 → l'.stats.cidrs ≡ (m + length ns) % 2 ^ 64
    pub reads_more : (x : ℕ) → reads x l' log' ≡ (reads x l log || nets_cover lib x ns)

  IsRead-none :
      (limit : ℕ) (l : Locals) (log : Chunks) → IsGood limit l log → IsRead limit l log [] l log
  IsRead-none limit l log g = record {
    good = g;
    cidrs = λ m e. omega (arith, e);
    reads_more = λ x. ground arith;
  }

  nets_cover-append :
      (x : ℕ) (ms ns : List (IpNet lib.Ipv4Net lib.Ipv6Net))
      → nets_cover lib x (ms ++ ns) ≡ (nets_cover lib x ms || nets_cover lib x ns)
  nets_cover-append x [] ns = refl
  nets_cover-append x (m ∷ ms) ns = ground (arith, nets_cover-append x ms ns)

  IsRead-append :
      (limit : ℕ) (l : Locals) (log : Chunks) (ms ns : List (IpNet lib.Ipv4Net lib.Ipv6Net))
      (l1 : Locals) (log1 : Chunks) (l2 : Locals) (log2 : Chunks)
      → IsRead limit l log ms l1 log1
      → IsRead limit l1 log1 ns l2 log2
      → IsRead limit l log (ms ++ ns) l2 log2
  IsRead-append limit l log ms ns l1 log1 l2 log2 a b = record {
    good = b.good;
    cidrs = λ m e.
        b.cidrs (m + length ms) (a.cidrs m e)
        ∙ ap (λ n. n % 2 ^ 64) (omega (arith, length-append ms ns));
    reads_more = λ x. ground (arith, a.reads_more x, b.reads_more x, nets_cover-append x ms ns);
  }

  module _ (laws : IpNetLaws lib) (I E : Type 0) (limit : ℕ) where
    take_net-Taken :
        (number : ℕ) (value : Text) (n : IpNet lib.Ipv4Net lib.Ipv6Net) (l : Locals) (log : Chunks)
        → IsGood limit l log
        → Taken {I = I} {A = lib.AddrParseError} {E = E} limit number value l log
            (net_is_ipv6 lib n)
            (net_low lib n)
            (net_high lib n)
            (take_net lib collect limit number value n l log)
    unfolding take_net
    take_net-Taken number value (IpNet.v4 n) l log g =
        take_v4-Taken I lib.AddrParseError E limit number value _ _ l log g (laws.ipv4_order n)
          (laws.ipv4_bound n)
    take_net-Taken number value (IpNet.v6 n) l log g =
        take_v6-Taken I lib.AddrParseError E limit number value _ _ l log g (laws.ipv6_bound n)
          (laws.ipv6_len n) (laws.ipv6_aligned n)

    -- A part of the loop reads the networks `ns` and goes on with `rest`, or stops with its verdict.
    abbrev pub Reads :
        Locals
        → Chunks
        → List (IpNet lib.Ipv4Net lib.Ipv6Net)
        → Option (StreamError I lib.AddrParseError E)
        → (Bool → ℕ → Option (StreamError I lib.AddrParseError E))
        → Result (StreamError I lib.AddrParseError E) (Unit {0} × Locals) × Chunks
        → Type 0
    Reads l log ns v rest (ok (u, l'), log') =
        (v ≡ rest l'.seen_ipv6 (top_of l'.pending)) × IsRead limit l log ns l' log'
    Reads l log ns v rest (err e, log') = (v ≡ some e) × All (IsChunk limit) log'

    counted-IsGood :
        (l : Locals) (log : Chunks) → IsGood limit l log → IsGood limit (count_cidr l) log
    counted-IsGood l log g = record {
      is_open = record {
        counted = g.is_open.counted;
        below = g.is_open.below;
        one_family = g.is_open.one_family;
        chunks = g.is_open.chunks;
      };
      fits = g.fits;
      counted = record {
        ipv4_intervals = g.counted.ipv4_intervals;
        ipv6_intervals = g.counted.ipv6_intervals;
        ipv4_boundaries = g.counted.ipv4_boundaries;
        ipv6_boundaries = g.counted.ipv6_boundaries;
      };
    }

    take_net-Reads :
        (number : ℕ) (value : Text) (n : IpNet lib.Ipv4Net lib.Ipv6Net) (l : Locals) (log : Chunks)
        (rest : Bool → ℕ → Option (StreamError I lib.AddrParseError E))
        (r : Result (StreamError I lib.AddrParseError E) (Unit {0} × Locals) × Chunks)
        → IsGood limit l log
        → Taken limit number value
            (count_cidr l)
            log
            (net_is_ipv6 lib n)
            (net_low lib n)
            (net_high lib n)
            r
        → Reads l log
            (n ∷ [])
            (ordered number value
              (fault l.seen_ipv6 (top_of l.pending) (net_is_ipv6 lib n) (net_low lib n))
              (rest (net_is_ipv6 lib n) (net_high lib n)))
            rest
            r
    take_net-Reads number value n l log rest (ok (u, l'), log') g t = (
      rw (t.clean, t.seen, t.top) refl,
      record {
        good = t.good;
        cidrs = λ m e. omega (arith, t.cidrs, e);
        reads_more = λ x. ground (arith, t.reads_more x);
      },
    )
    take_net-Reads number value n l log rest (err e, log') g (r, f, x, y) =
        (rw (f, x) refl, rw y g.is_open.chunks)

    take_parsed-Reads :
        (number : ℕ) (value : Text) (p : lib.AddrParseError ⊎ IpNet lib.Ipv4Net lib.Ipv6Net)
        (l : Locals) (log : Chunks) (rest : Bool → ℕ → Option (StreamError I lib.AddrParseError E))
        → IsGood limit l log
        → Reads l log
            (parsed_nets lib p)
            (parsed_verdict lib number value l.seen_ipv6 (top_of l.pending) p rest)
            rest
            (take_parsed lib collect limit number value p l log)
    unfolding take_parsed
    take_parsed-Reads number value (inl e) l log rest g = (refl, g.is_open.chunks)
    take_parsed-Reads number value (inr n) l log rest g = elim (Bool-cases (lib.is_trunc n)) [
      | inl e ↦ rw e (
          take_net-Reads number value n l log rest _ g
            (take_net-Taken number value n (count_cidr l) log (counted-IsGood l log g)))
      | inr e ↦ rw e (refl, g.is_open.chunks)
    ]

    take_line-Reads :
        (number : ℕ) (line : Result I Text) (l : Locals) (log : Chunks)
        (rest : Bool → ℕ → Option (StreamError I lib.AddrParseError E))
        → IsGood limit l log
        → Reads l log
            (line_nets lib line)
            (line_verdict lib number l.seen_ipv6 (top_of l.pending) line rest)
            rest
            (take_line lib collect limit number line l log)
    unfolding take_line
    take_line-Reads number (err source) l log rest g = (refl, g.is_open.chunks)
    take_line-Reads number (ok line) l log rest g = elim (Bool-cases (is_blank line)) [
      | inl e ↦ rw e (refl, IsRead-none limit l log g)
      | inr e ↦ rw e (take_parsed-Reads number (trim line) (lib.parse (trim line)) l log rest g)
    ]

    -- Nothing is left to read.
    abbrev pub done : Bool → ℕ → Option (StreamError I lib.AddrParseError E)
    done seen top = none

    then-Reads :
        (l : Locals) (log : Chunks) (ms ns : List (IpNet lib.Ipv4Net lib.Ipv6Net))
        (v : Option (StreamError I lib.AddrParseError E))
        (rest : Bool → ℕ → Option (StreamError I lib.AddrParseError E))
        (r : Result (StreamError I lib.AddrParseError E) (Unit {0} × Locals) × Chunks)
        (m : Exec I lib.AddrParseError E Chunks (Unit {0}))
        → Reads l log ms v rest r
        → ((l' : Locals) (log' : Chunks)
            → IsGood limit l' log'
            → Reads l' log' ns (rest l'.seen_ipv6 (top_of l'.pending)) done (m l' log'))
        → Reads l log (ms ++ ns) v done (continue r (λ _. m))
    then-Reads l log ms ns v rest (err e, log') m (x, c) k = (x, c)
    then-Reads l log ms ns v rest (ok (u, l'), log') m (x, a) k =
        finish_read (m l' log') (k l' log' a.good)
      where
        finish_read :
            (r : Result (StreamError I lib.AddrParseError E) (Unit {0} × Locals) × Chunks)
            → Reads l' log' ns (rest l'.seen_ipv6 (top_of l'.pending)) done r
            → Reads l log (ms ++ ns) v done r
        finish_read (ok (w, l2), log2) (y, b) =
            (x ∙ y, IsRead-append limit l log ms ns l' log' l2 log2 a b)
        finish_read (err e, log2) (y, c) = (x ∙ y, c)

    pub take_lines-Reads :
        (number : ℕ) (lines : List (Result I Text)) (l : Locals) (log : Chunks)
        → IsGood limit l log
        → Reads l log
            (nets lib lines)
            (verdict lib number l.seen_ipv6 (top_of l.pending) lines)
            done
            (take_lines lib collect limit number lines l log)
    unfolding take_lines verdict
    take_lines-Reads number [] l log g = (refl, IsRead-none limit l log g)
    take_lines-Reads number (line ∷ lines) l log g =
        then-Reads l log (line_nets lib line) (nets lib lines) _
          (λ seen top. verdict lib (suc number) seen top lines) _
          (take_lines lib collect limit (suc number) lines)
          (take_line-Reads number line l log (λ seen top. verdict lib (suc number) seen top lines)
            g)
          (take_lines-Reads (suc number) lines)
