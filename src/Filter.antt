-- ===== src/Filter.antt =====
-- The packet filter (cidrwall-ebpf/src/main.rs) and what it shares with the daemon
-- (cidrwall-common/src/lib.rs). Addresses of memory do not wrap around: the kernel hands the
-- program a packet that lies in memory.
pub mod Frame
pub mod Decision
use nftblock.Prelude.{
  ℕ, zero, suc, ◌+◌, ◌*◌, ◌/◌, ◌%◌, ◌^◌, Bool, true, false, not, ◌&&◌, ◌||◌, Option, none, some,
  List, [], ◌∷◌, ltb, ◌==◌, if◌then◌else◌,
}

pub record Control : Type 0 where
  pub layout_version : ℕ
  pub active_slot : ℕ

-- The packet lies from `data` on, up to `data_end`; `byte` is what the memory holds.
pub record XdpContext : Type 0 where
  pub data_start : ℕ
  pub data_end : ℕ
  pub byte : ℕ → ℕ

-- The maps, as the kernel answers a lookup: the first entry of CONTROL, and the value of the
-- longest prefix that matches a key of full length.
pub record Maps : Type 0 where
  pub control : Option Control
  pub ipv4_a : List ℕ → Option ℕ
  pub ipv4_b : List ℕ → Option ℕ
  pub ipv6_a : List ℕ → Option ℕ
  pub ipv6_b : List ℕ → Option ℕ

pub data XdpAction : Type 0 where
  xdp_drop xdp_pass : XdpAction

-- `?` on an error without a value.
abbrev pub try_with {ℓ κ} : {A : Type ℓ} {B : Type κ} → Option A → (A → Option B) → Option B
try_with none f = none
try_with (some a) f = f a

abbrev pub is_some {ℓ} : {A : Type ℓ} → Option A → Bool
is_some none = false
is_some (some a) = true

-- `unwrap_or(XDP_PASS)`
abbrev pub or_pass : Option XdpAction → XdpAction
or_pass none = xdp_pass
or_pass (some action) = action

-- The loop of `read_array`: `n` bytes from an address on.
abbrev pub bytes_from : (ℕ → ℕ) → ℕ → ℕ → List ℕ
bytes_from byte start zero = []
bytes_from byte start (suc n) = byte start ∷ bytes_from byte (suc start) n

abbrev pub from_be_bytes : List ℕ → ℕ
from_be_bytes (high ∷ low ∷ rest) = high * 2 ^ 8 + low
from_be_bytes rest = 0

abbrev pub is_tag : ℕ → Bool
is_tag ether_type = ether_type == 0x8100 || ether_type == 0x88a8

abbrev pub verdict_of : Bool → XdpAction
verdict_of blocked = if blocked then xdp_drop else xdp_pass

module _ (maps : Maps) where
  abbrev pub slot : ℕ
  slot = elim maps.control [ none ↦ 0 | some value ↦ value.active_slot ]

  unfoldable pub look_up_ipv4 : List ℕ → Bool
  look_up_ipv4 address = is_some (if slot == 0 then maps.ipv4_a address else maps.ipv4_b address)

  unfoldable pub look_up_ipv6 : List ℕ → Bool
  look_up_ipv6 address = is_some (if slot == 0 then maps.ipv6_a address else maps.ipv6_b address)

module _ (ctx : XdpContext) where
  open ctx use {data_start, data_end, byte}

  abbrev pub past_end : ℕ → Bool
  past_end n = ltb data_end (data_start + n)

  unfoldable pub read_u8 : ℕ → Option ℕ
  read_u8 offset = if past_end (offset + 1) then none else some (byte (data_start + offset))

  unfoldable pub read_array : ℕ → ℕ → Option (List ℕ)
  read_array n offset =
      if past_end (offset + n) then none else some (bytes_from byte (data_start + offset) n)

  unfoldable pub read_be_u16 : ℕ → Option ℕ
  unfolding read_array
  read_be_u16 offset = try_with (read_array 2 offset) (λ bytes. some (from_be_bytes bytes))

  -- `for _ in 0..n`, over the type and the offset.
  unfoldable pub skip_tags : ℕ → ℕ → ℕ → Option (ℕ × ℕ)
  skip_tags zero ether_type offset = some (ether_type, offset)
  skip_tags (suc n) ether_type offset =
      if is_tag ether_type
      then try_with (read_be_u16 (offset + 2)) (λ next. skip_tags n next (offset + 4))
      else some (ether_type, offset)

  module _ (maps : Maps) where
    -- The arm `0x0800`.
    unfoldable pub filter_ipv4 : ℕ → Option XdpAction
    unfolding read_u8 read_array
    filter_ipv4 offset =
        if past_end (offset + 20)
        then some xdp_pass
        else try_with (read_u8 offset) λ version_ihl.
          (if not (version_ihl / 2 ^ 4 == 4) || ltb (version_ihl % 2 ^ 4) 5
            then some xdp_pass
            else try_with (read_array 4 (offset + 12))
                λ address. some (verdict_of (look_up_ipv4 maps address)))

    -- The arm `0x86dd`; behind `||` the version is read only if the header fits.
    unfoldable pub filter_ipv6 : ℕ → Option XdpAction
    unfolding read_u8 read_array
    filter_ipv6 offset =
        if past_end (offset + 40)
        then some xdp_pass
        else try_with (read_u8 offset) λ version.
          (if not (version / 2 ^ 4 == 6)
            then some xdp_pass
            else try_with (read_array 16 (offset + 8))
                λ address. some (verdict_of (look_up_ipv6 maps address)))

    unfoldable pub filter_type : ℕ → ℕ → Option XdpAction
    filter_type ether_type offset =
        if ether_type == 0x0800
        then filter_ipv4 offset
        else if ether_type == 0x86dd
        then filter_ipv6 offset
        else some (verdict_of false)

    unfoldable pub try_cidrwall : Option XdpAction
    unfolding skip_tags read_be_u16 filter_type
    try_cidrwall =
        if past_end 14
        then some xdp_pass
        else try_with (read_be_u16 12)
            λ ether_type. try_with (skip_tags 2 ether_type 14) λ found. filter_type found.0 found.1

    unfoldable pub cidrwall : XdpAction
    unfolding try_cidrwall
    cidrwall = or_pass try_cidrwall
