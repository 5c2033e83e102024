-- ===== src/Blocklist/Stream/Panics.antt =====
-- The `unreachable!` of `stream_chunks` (src/blocklist.rs) is not reached.
use nftblock.Prelude.{
  ℕ, suc, ◌<◌, ◌≡◌, refl, ap, ◌∙◌, Bool, true, false, Option, none, some, List, [], ◌∷◌, ◌⊎◌, inl,
  inr, Bool-cases,
}
use nftblock.Text.{Text, trim}
use nftblock.Blocklist.Stream.Control.{
  Result, ok, err, StreamError, StreamStats, Reason, Emit, panicked,
}
use nftblock.Blocklist.Stream.{stream_chunks}
use nftblock.Blocklist.Stream.Net.{IpNet, IpNetLib, IpNetLaws}
use nftblock.Blocklist.Stream.Replay.{collect, replay, play_on}
use nftblock.Blocklist.Stream.Replay.Parts.{stream_chunks-play}
use nftblock.Blocklist.Stream.Order.{is_blank, net_low, net_high}
use nftblock.Blocklist.Stream.Steps.{fault}
use nftblock.Blocklist.Stream.Verdict.{
  net_is_ipv6, ordered, parsed_verdict, line_verdict, verdict, error_of,
}
use nftblock.Blocklist.Stream.Results.{collect-verdict}

abbrev pub is_panic : {I A E : Type 0} → Option (StreamError I A E) → Bool
is_panic (some panicked) = true
is_panic _ = false

module _ (lib : IpNetLib) {I E : Type 0} where
  -- What is left to read does not panic.
  abbrev Calm : (Bool → ℕ → Option (StreamError I lib.AddrParseError E)) → Type 0
  Calm rest = (seen : Bool) (top : ℕ) → is_panic (rest seen top) ≡ false

  ordered-Calm :
      (number : ℕ) (value : Text) (reason : Option Reason)
      (rest : Option (StreamError I lib.AddrParseError E))
      → is_panic rest ≡ false
      → is_panic (ordered number value reason rest) ≡ false
  ordered-Calm number value none rest h = h
  ordered-Calm number value (some r) rest h = refl

  parsed_verdict-Calm :
      (number : ℕ) (value : Text) (seen : Bool) (top : ℕ)
      (p : lib.AddrParseError ⊎ IpNet lib.Ipv4Net lib.Ipv6Net)
      (rest : Bool → ℕ → Option (StreamError I lib.AddrParseError E))
      → Calm rest
      → is_panic (parsed_verdict lib number value seen top p rest) ≡ false
  parsed_verdict-Calm number value seen top (inl e) rest h = refl
  parsed_verdict-Calm number value seen top (inr net) rest h =
      elim (Bool-cases (lib.is_trunc net)) [
        | inl e ↦ rw e (
            ordered-Calm number value (fault seen top (net_is_ipv6 lib net) (net_low lib net)) _
              (h (net_is_ipv6 lib net) (net_high lib net)))
        | inr e ↦ rw e refl
      ]

  line_verdict-Calm :
      (number : ℕ) (seen : Bool) (top : ℕ) (line : Result I Text)
      (rest : Bool → ℕ → Option (StreamError I lib.AddrParseError E))
      → Calm rest
      → is_panic (line_verdict lib number seen top line rest) ≡ false
  line_verdict-Calm number seen top (err source) rest h = refl
  line_verdict-Calm number seen top (ok line) rest h = elim (Bool-cases (is_blank line)) [
    | inl e ↦ rw e (h seen top)
    | inr e ↦ rw e (parsed_verdict-Calm number (trim line) seen top (lib.parse (trim line)) rest h)
  ]

verdict-Calm :
    (lib : IpNetLib) (I E : Type 0) (number : ℕ) (lines : List (Result I Text)) (seen : Bool)
    (top : ℕ)
    → is_panic (verdict lib {I = I} {E = E} number seen top lines) ≡ false
unfolding verdict
verdict-Calm lib I E number [] seen top = refl
verdict-Calm lib I E number (line ∷ lines) seen top =
    line_verdict-Calm lib number seen top line _
      (λ s t. verdict-Calm lib I E (suc number) lines s t)

played-Calm :
    {I A E S : Type 0} (r : Result (StreamError I A E) StreamStats) (t : Result E (Unit {0}) × S)
    → is_panic (error_of r) ≡ false
    → is_panic (error_of (play_on r t).0) ≡ false
played-Calm r (ok u, s) h = h
played-Calm r (err e, s) h = refl

-- With a positive limit, and for every callback and state of it, the function does not panic.
pub stream_chunks_calm :
    (lib : IpNetLib) (laws : IpNetLaws lib) (I E S : Type 0) (emit : Emit E S) (limit : ℕ)
    (lines : List (Result I Text)) (s : S)
    → 0 < limit
    → is_panic (error_of (stream_chunks lib emit limit lines s).0) ≡ false
stream_chunks_calm lib laws I E S emit limit lines s pos =
    let recorded = stream_chunks lib {E = E} collect limit lines [] in
    ap (λ o. is_panic (error_of o.0)) (stream_chunks-play lib emit limit lines s)
    ∙ played-Calm recorded.0 (replay emit recorded.1 s) (
        ap is_panic (collect-verdict lib laws I E limit lines pos)
        ∙ verdict-Calm lib I E 1 lines false 0)
