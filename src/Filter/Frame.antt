-- ===== src/Filter/Frame.antt =====
-- What the packet filter (cidrwall-ebpf/src/main.rs) decides, told from the bytes of the frame.
use nftblock.Prelude.{
  ℕ, zero, suc, ◌+◌, ◌-◌, ◌/◌, ◌%◌, ◌^◌, ◌≤◌, ◌<◌, ◌≡◌, refl, ap, ◌∙◌, true, false, ◌&&◌, Option,
  none, some, List, [], ◌∷◌, leb, ◌==◌, if◌then◌else◌, length, arith, ltb→lt, ltb→le,
}
use nftblock.Filter.{
  XdpContext, Maps, XdpAction, xdp_pass, bytes_from, past_end, read_array, read_be_u16,
  from_be_bytes, is_tag, verdict_of, look_up_ipv4, look_up_ipv6,
}

abbrev pub take : ℕ → List ℕ → List ℕ
take zero bytes = []
take (suc n) [] = []
take (suc n) (b ∷ bytes) = b ∷ take n bytes

abbrev pub drop : ℕ → List ℕ → List ℕ
drop zero bytes = bytes
drop (suc n) [] = []
drop (suc n) (b ∷ bytes) = drop n bytes

abbrev pub first : List ℕ → ℕ
first [] = 0
first (b ∷ bytes) = b

-- The source address that a packet is judged by.
pub data Source : Type 0 where
  ipv4 : List ℕ → Source
  ipv6 : List ℕ → Source

-- An IPv4 header of 20 bytes at least, with its source at 12; an IPv6 header of 40, with it at 8.
abbrev pub ipv4_header : List ℕ → Option Source
ipv4_header bytes =
    if leb 20 (length bytes) && first bytes / 2 ^ 4 == 4 && leb 5 (first bytes % 2 ^ 4)
    then some (Source.ipv4 (take 4 (drop 12 bytes)))
    else none

abbrev pub ipv6_header : List ℕ → Option Source
ipv6_header bytes =
    if leb 40 (length bytes) && first bytes / 2 ^ 4 == 6
    then some (Source.ipv6 (take 16 (drop 8 bytes)))
    else none

-- What follows a type.
abbrev pub payload : ℕ → List ℕ → Option Source
payload ether_type bytes =
    if ether_type == 0x0800
    then ipv4_header bytes
    else if ether_type == 0x86dd
    then ipv6_header bytes
    else none

-- From a type on, behind at most `n` VLAN tags of four bytes.
abbrev pub tagged : ℕ → List ℕ → Option Source
tagged zero bytes = payload (from_be_bytes bytes) (drop 2 bytes)
tagged (suc n) bytes =
    if is_tag (from_be_bytes bytes)
    then tagged n (drop 4 bytes)
    else payload (from_be_bytes bytes) (drop 2 bytes)

abbrev pub source : List ℕ → Option Source
source frame = if leb 14 (length frame) then tagged 2 (drop 12 frame) else none

abbrev pub judge : Maps → Option Source → XdpAction
judge maps none = xdp_pass
judge maps (some (Source.ipv4 address)) = verdict_of (look_up_ipv4 maps address)
judge maps (some (Source.ipv6 address)) = verdict_of (look_up_ipv6 maps address)

length-bytes_from : (byte : ℕ → ℕ) (s n : ℕ) → length (bytes_from byte s n) ≡ n
length-bytes_from byte s zero = refl
length-bytes_from byte s (suc n) = omega (arith, length-bytes_from byte (suc s) n)

pub same_bytes :
    (byte : ℕ → ℕ) (s t n m : ℕ) → s ≡ t → n ≡ m → bytes_from byte s n ≡ bytes_from byte t m
same_bytes byte s t n m e f = rw (e, f)

drop-bytes_from :
    (byte : ℕ → ℕ) (k s n : ℕ) → drop k (bytes_from byte s n) ≡ bytes_from byte (s + k) (n - k)
drop-bytes_from byte zero s n = same_bytes byte s (s + 0) n (n - 0) (omega arith) (omega arith)
drop-bytes_from byte (suc k) s zero =
    same_bytes byte (s + suc k) (s + suc k) 0 (0 - suc k) refl (omega arith)
drop-bytes_from byte (suc k) s (suc n) =
    drop-bytes_from byte k (suc s) n
    ∙ same_bytes byte (suc s + k) (s + suc k) (n - k) (suc n - suc k) (omega arith) (omega arith)

take-bytes_from :
    (byte : ℕ → ℕ) (k s n : ℕ) → k ≤ n → take k (bytes_from byte s n) ≡ bytes_from byte s k
take-bytes_from byte zero s n h = refl
take-bytes_from byte (suc k) s zero h = let never : ⊥ = omega arith in elim never [ ]
take-bytes_from byte (suc k) s (suc n) h =
    ap (λ bs. byte s ∷ bs) (take-bytes_from byte k (suc s) n (omega arith))

first-bytes_from : (byte : ℕ → ℕ) (s n : ℕ) → 0 < n → first (bytes_from byte s n) ≡ byte s
first-bytes_from byte s zero h = let never : ⊥ = omega arith in elim never [ ]
first-bytes_from byte s (suc n) h = refl

from_be_bytes-short : (byte : ℕ → ℕ) (s n : ℕ) → n < 2 → from_be_bytes (bytes_from byte s n) ≡ 0
from_be_bytes-short byte s zero h = refl
from_be_bytes-short byte s (suc zero) h = refl
from_be_bytes-short byte s (suc (suc n)) h = let never : ⊥ = omega arith in elim never [ ]

from_be_bytes-long :
    (byte : ℕ → ℕ) (s n : ℕ)
    → 2 ≤ n
    → from_be_bytes (bytes_from byte s n) ≡ from_be_bytes (bytes_from byte s 2)
from_be_bytes-long byte s zero h = let never : ⊥ = omega arith in elim never [ ]
from_be_bytes-long byte s (suc zero) h = let never : ⊥ = omega arith in elim never [ ]
from_be_bytes-long byte s (suc (suc n)) h = refl

module _ (ctx : XdpContext) where
  -- The bytes of the packet from an offset on.
  abbrev pub rest : ℕ → List ℕ
  rest offset =
      bytes_from ctx.byte (ctx.data_start + offset) (ctx.data_end - (ctx.data_start + offset))

  length-rest : (o : ℕ) → length (rest o) ≡ ctx.data_end - (ctx.data_start + o)
  length-rest o = length-bytes_from _ _ _

  pub drop-rest : (k o : ℕ) → drop k (rest o) ≡ rest (o + k)
  drop-rest k o =
      drop-bytes_from ctx.byte k _ _ ∙ same_bytes ctx.byte _ _ _ _ (omega arith) (omega arith)

  -- A field of the rest, where it fits.
  pub field-rest :
      (k n o : ℕ)
      → past_end ctx (o + k + n) ≡ false
      → take n (drop k (rest o)) ≡ bytes_from ctx.byte (ctx.data_start + (o + k)) n
  field-rest k n o h =
      ap (take n) (drop-rest k o) ∙ take-bytes_from ctx.byte n _ _ (omega (arith, ltb→le _ _ h))

  pub read_be_u16-fits :
      (o : ℕ) → past_end ctx (o + 2) ≡ false → read_be_u16 ctx o ≡ some (from_be_bytes (rest o))
  unfolding read_be_u16 read_array
  read_be_u16-fits o h =
      let long =
        from_be_bytes-long ctx.byte (ctx.data_start + o) (ctx.data_end - (ctx.data_start + o))
          (omega (arith, ltb→le _ _ h)) in
      rw (h, long)

  pub read_be_u16-past :
      (o : ℕ)
      → past_end ctx (o + 2) ≡ true
      → (read_be_u16 ctx o ≡ none) × (from_be_bytes (rest o) ≡ 0)
  unfolding read_be_u16 read_array
  read_be_u16-past o h = (rw h, from_be_bytes-short ctx.byte _ _ (omega (arith, ltb→lt _ _ h)))

  pub fits : (k n : ℕ) → past_end ctx n ≡ false → k ≤ n → past_end ctx k ≡ false
  fits k n h le = ground (arith, h, le)

  pub past_end-length :
      (n o : ℕ) → past_end ctx (o + n) ≡ true → 0 < n → leb n (length (rest o)) ≡ false
  past_end-length n o h pos = rw (length-rest o) (ground (arith, ltb→lt _ _ h))

  pub fits-length : (n o : ℕ) → past_end ctx (o + n) ≡ false → leb n (length (rest o)) ≡ true
  fits-length n o h = rw (length-rest o) (ground (arith, ltb→le _ _ h))

  pub first-rest :
      (n o : ℕ) → past_end ctx (o + suc n) ≡ false → first (rest o) ≡ ctx.byte (ctx.data_start + o)
  first-rest n o h = first-bytes_from ctx.byte _ _ (omega (arith, ltb→le _ _ h))
