-- ===== src/Blocklist/Stream/Verdict.antt =====
-- Which input `stream_chunks` (src/blocklist.rs) accepts, told from the lines alone: the first line
-- that cannot be read, cannot be parsed, has host bits, or is out of order is the error.
use nftblock.Prelude.{
  ℕ, suc, Bool, true, false, Option, none, some, List, [], ◌∷◌, if◌then◌else◌, ◌⊎◌, inl, inr,
}
use nftblock.Text.{Text, trim}
use nftblock.Blocklist.Stream.Net.{IpNet, IpNetLib}
use nftblock.Blocklist.Stream.Control.{
  Result, ok, err, StreamError, Reason, io, invalid, non_canonical, host_bits_set,
}
use nftblock.Blocklist.Stream.Order.{is_blank, net_low, net_high}
use nftblock.Blocklist.Stream.Steps.{fault}

-- What is left to read, given the family and the end of the last network.
abbrev Rest : (I A E : Type 0) → Type 0
Rest I A E = Bool → ℕ → Option (StreamError I A E)

abbrev pub ordered :
    {I A E : Type 0}
    → ℕ
    → Text
    → Option Reason
    → Option (StreamError I A E)
    → Option (StreamError I A E)
ordered number value none rest = rest
ordered number value (some r) rest = some (non_canonical number value r)

module _ (lib : IpNetLib) where
  abbrev pub net_is_ipv6 : IpNet lib.Ipv4Net lib.Ipv6Net → Bool
  net_is_ipv6 (IpNet.v4 n) = false
  net_is_ipv6 (IpNet.v6 n) = true

module _ (lib : IpNetLib) {I E : Type 0} where
  abbrev pub parsed_verdict :
      ℕ
      → Text
      → Bool
      → ℕ
      → lib.AddrParseError ⊎ IpNet lib.Ipv4Net lib.Ipv6Net
      → Rest I lib.AddrParseError E
      → Option (StreamError I lib.AddrParseError E)
  parsed_verdict number value seen top (inl e) rest = some (invalid number value e)
  parsed_verdict number value seen top (inr net) rest =
      if lib.is_trunc net
      then ordered number value (fault seen top (net_is_ipv6 lib net) (net_low lib net))
          (rest (net_is_ipv6 lib net) (net_high lib net))
      else some (non_canonical number value host_bits_set)

  abbrev pub line_verdict :
      ℕ
      → Bool
      → ℕ
      → Result I Text
      → Rest I lib.AddrParseError E
      → Option (StreamError I lib.AddrParseError E)
  line_verdict number seen top (err source) rest = some (io number source)
  line_verdict number seen top (ok line) rest =
      if is_blank line
      then rest seen top
      else parsed_verdict number (trim line) seen top (lib.parse (trim line)) rest

  unfoldable pub verdict :
      ℕ → Bool → ℕ → List (Result I Text) → Option (StreamError I lib.AddrParseError E)
  verdict number seen top [] = none
  verdict number seen top (line ∷ lines) =
      line_verdict number seen top line (λ seen top. verdict (suc number) seen top lines)

-- The error of a result.
abbrev pub error_of : {X A : Type 0} → Result X A → Option X
error_of (ok a) = none
error_of (err e) = some e
