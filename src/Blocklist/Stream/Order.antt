-- ===== src/Blocklist/Stream/Order.antt =====
-- IPv4 and IPv6 addresses on one line, in the order in which a blocklist has them, and what the
-- intervals, the networks and the pending range of `stream_chunks` (src/blocklist.rs) cover there.
use Prim.Native.Nat.{bit_or}
use nftblock.Prelude.{
  ℕ, suc, ◌+◌, ◌-◌, ◌≤◌, ◌<◌, ◌^◌, ◌≡◌, refl, Bool, true, false, ◌&&◌, ◌||◌, List, [], ◌∷◌, ◌++◌,
  ltb, leb, arith, ◌⊎◌, inl, inr, ap, if◌then◌else◌, Bool-cases, ltb→lt, ltb→le, ◌==◌, ==→≡,
}
use nftblock.Prelude.Powers.{IsMultiple, IsMultiple-le, IsMultiple-gap, two_pow_pos}
use nftblock.Word.Masks.{bit_or_mask}
use nftblock.Blocklist.Stream.{ipv6_last}
use nftblock.Text.{Text, trim, is_empty, starts_with_char}
use nftblock.Word.{checked_add}
use nftblock.Blocklist.{AddressInterval}
use nftblock.Blocklist.Prefixes.{stop_of, IsWord, IsInterval}
use nftblock.Blocklist.Stream.Control.{Result, ok, err, Pending, interval_of}
use nftblock.Blocklist.Stream.Net.{IpNet, IpNetLib}
use nftblock.Blocklist.Stream.Flush.{is_ipv6}

-- The position of an address: IPv4 addresses come first, and no IPv6 address follows on the last.
abbrev pub position : Bool → ℕ → ℕ
position false a = a
position true a = 2 ^ 33 + a

abbrev pub low : AddressInterval → ℕ
low (AddressInterval.v4 first after_last) = position false first
low (AddressInterval.v6 first after_last) = position true first

abbrev pub high : AddressInterval → ℕ
high (AddressInterval.v4 first after_last) = position false (stop_of 32 after_last)
high (AddressInterval.v6 first after_last) = position true (stop_of 128 after_last)

-- The intervals follow one another from `start` on, all below `stop`, each with an address at
-- least, and a free address between two of one family.
abbrev pub Chain : ℕ → ℕ → List AddressInterval → Type 0
Chain start stop [] = start ≤ stop
Chain start stop (i ∷ is) = (start ≤ low i) × IsInterval i × Chain (suc (high i)) stop is

abbrev pub within : ℕ → ℕ → ℕ → Bool
within start stop x = leb start x && ltb x stop

-- Some interval has the address at position `x`.
abbrev pub covers : ℕ → List AddressInterval → Bool
covers x [] = false
covers x (i ∷ is) = within (low i) (high i) x || covers x is

pub Chain-le : (start stop : ℕ) (is : List AddressInterval) → Chain start stop is → start ≤ stop
Chain-le start stop [] h = h
Chain-le start stop (AddressInterval.v4 f a ∷ is) (at, i, rest) =
    omega (arith, Chain-le (suc (stop_of 32 a)) stop is rest, i.holds_one)
Chain-le start stop (AddressInterval.v6 f a ∷ is) (at, i, rest) =
    omega (arith, Chain-le (suc (position true (stop_of 128 a))) stop is rest, i.holds_one)

pub Chain-snoc :
    (start stop end : ℕ) (is : List AddressInterval) (i : AddressInterval)
    → Chain start stop is
    → stop ≤ low i
    → IsInterval i
    → suc (high i) ≤ end
    → Chain start end (is ++ i ∷ [])
Chain-snoc start stop end [] i h at v fits = (omega arith, v, fits)
Chain-snoc start stop end (j ∷ is) i (lo, w, rest) at v fits =
    (lo, w, Chain-snoc (suc (high j)) stop end is i rest at v fits)

pub Chain-mono :
    (start stop end : ℕ) (is : List AddressInterval)
    → Chain start stop is
    → stop ≤ end
    → Chain start end is
Chain-mono start stop end [] h le = omega arith
Chain-mono start stop end (j ∷ is) (lo, w, rest) le =
    (lo, w, Chain-mono (suc (high j)) stop end is rest le)

pub covers-snoc :
    (x : ℕ) (is : List AddressInterval) (i : AddressInterval)
    → covers x (is ++ i ∷ []) ≡ (covers x is || within (low i) (high i) x)
covers-snoc x [] i = ground arith
covers-snoc x (j ∷ is) i = ground (arith, covers-snoc x is i)

-- The first position of a pending range, and the one behind its last.
abbrev pub pending_low : Pending → ℕ
pending_low (Pending.v4 first last) = position false first
pending_low (Pending.v6 first last) = position true first

abbrev pub pending_high : Pending → ℕ
pending_high (Pending.v4 first last) = position false (suc last)
pending_high (Pending.v6 first last) = position true (suc last)

abbrev pub IsPending : Pending → Type 0
IsPending (Pending.v4 first last) = (first ≤ last) × (last < 2 ^ 32)
IsPending (Pending.v6 first last) = (first ≤ last) × (last < 2 ^ 128)

abbrev pub pending_is_ipv6 : Pending → Bool
pending_is_ipv6 (Pending.v4 first last) = false
pending_is_ipv6 (Pending.v6 first last) = true

checked_add-stop :
    (w last : ℕ)
    → last < 2 ^ w
    → (stop_of w (checked_add w last 1) ≡ suc last) × IsWord w (checked_add w last 1)
checked_add-stop w last h = elim (Bool-cases (ltb (last + 1) (2 ^ w))) [
  | inl e ↦ rw e (omega arith, omega (arith, ltb→lt _ _ e))
  | inr e ↦ rw e (omega (arith, ltb→le _ _ e), tt)
]

-- A pending range becomes the interval of the same addresses.
pub interval_of_lem :
    (p : Pending)
    → IsPending p
    → IsInterval (interval_of p)
      × (low (interval_of p) ≡ pending_low p)
      × (high (interval_of p) ≡ pending_high p)
      × (is_ipv6 (interval_of p) ≡ pending_is_ipv6 p)
unfolding interval_of
interval_of_lem (Pending.v4 first last) h =
    let (stop, word) = checked_add-stop 32 last h.1 in
    (record { holds_one = omega (arith, h.0); is_end = word }, refl, stop, refl)
interval_of_lem (Pending.v6 first last) h =
    let (stop, word) = checked_add-stop 128 last h.1 in
    (record { holds_one = omega (arith, h.0); is_end = word }, refl, ap (position true) stop, refl)

-- The networks of the lines that are neither empty, nor comments, nor refused by the parser.
abbrev pub is_blank : Text → Bool
is_blank line = is_empty (trim line) || starts_with_char b'#' (trim line)

module _ (lib : IpNetLib) where
  abbrev pub parsed_nets :
      lib.AddrParseError ⊎ IpNet lib.Ipv4Net lib.Ipv6Net → List (IpNet lib.Ipv4Net lib.Ipv6Net)
  parsed_nets (inl e) = []
  parsed_nets (inr net) = net ∷ []

  abbrev pub line_nets : {I : Type 0} → Result I Text → List (IpNet lib.Ipv4Net lib.Ipv6Net)
  line_nets (err e) = []
  line_nets (ok line) = if is_blank line then [] else parsed_nets (lib.parse (trim line))

  abbrev pub nets : {I : Type 0} → List (Result I Text) → List (IpNet lib.Ipv4Net lib.Ipv6Net)
  nets [] = []
  nets (line ∷ lines) = line_nets line ++ nets lines

  abbrev pub net_low : IpNet lib.Ipv4Net lib.Ipv6Net → ℕ
  net_low (IpNet.v4 n) = position false (lib.ipv4_network n)
  net_low (IpNet.v6 n) = position true (lib.ipv6_network n)

  -- Behind the last address: an IPv6 network has `2 ^ host_bits` addresses.
  abbrev pub net_high : IpNet lib.Ipv4Net lib.Ipv6Net → ℕ
  net_high (IpNet.v4 n) = position false (suc (lib.ipv4_broadcast n))
  net_high (IpNet.v6 n) = position true (lib.ipv6_network n + 2 ^ (128 - lib.ipv6_prefix_len n))

  -- Some network has the address at position `x`.
  abbrev pub nets_cover : ℕ → List (IpNet lib.Ipv4Net lib.Ipv6Net) → Bool
  nets_cover x [] = false
  nets_cover x (n ∷ ns) = within (net_low n) (net_high n) x || nets_cover x ns

-- The last address of an IPv6 network lies right before the end of its range.
pub ipv6_last_lem :
    (first len : ℕ)
    → first < 2 ^ 128
    → len ≤ 128
    → IsMultiple (128 - len) first
    → (suc (ipv6_last first len) ≡ first + 2 ^ (128 - len))
      × (first ≤ ipv6_last first len)
      × (ipv6_last first len < 2 ^ 128)
unfolding ipv6_last
ipv6_last_lem first len bound le m =
    let h : ℕ = 128 - len in
    let whole : IsMultiple 128 (2 ^ 128) = (1, omega arith) in
    let fits : first + 2 ^ h ≤ 2 ^ 128 =
      IsMultiple-gap h first (2 ^ 128) m (IsMultiple-le h 128 (2 ^ 128) (omega arith) whole)
        bound in
    elim (Bool-cases (h == 128)) [
      | inl e ↦ rw e (
          let size : 2 ^ h ≡ 2 ^ 128 = ap (λ (k : ℕ). 2 ^ k) (==→≡ _ _ e) in
          (omega arith, omega arith, omega arith))
      | inr e ↦ rw e (
          let mask : bit_or first (2 ^ h - 1) ≡ first + (2 ^ h - 1) = bit_or_mask h first m in
          rw mask (omega (arith, two_pow_pos h), omega arith, omega (arith, two_pow_pos h)))
    ]
