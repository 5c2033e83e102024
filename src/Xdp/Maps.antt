-- ===== src/Xdp/Maps.antt =====
-- The maps of the crate aya and of the kernel, as far as src/xdp.rs and the packet filter use them:
-- a parameter of the model. An address is its number, the octets read in network order.
use nftblock.Prelude.{
  ℕ, ◌+◌, ◌*◌, ◌-◌, ◌/◌, ◌^◌, ◌<◌, ◌≡◌, Bool, not, ◌&&◌, ◌||◌, Option, some, List, [], ◌∷◌, ◌==◌,
  All, any, length,
}
use nftblock.Prelude.Results.{Result, ok, err}
use nftblock.Prelude.Effects.{Eff, Done}
use nftblock.Filter.{Control, is_some}
use nftblock.Filter.{Maps as PacketMaps}

-- `Key<[u8; 4]>` and `Key<[u8; 16]>`
pub record Key : Type 0 where
  pub prefix_len : ℕ
  pub address : ℕ

abbrev pub same_key : Key → Key → Bool
same_key j k = j.prefix_len == k.prefix_len && j.address == k.address

pub record MapLib : Type 1 where
  pub Trie : Type 0
  pub ControlMap : Type 0
  pub MapError : Type 0
  pub insert : Key → ℕ → Eff Trie MapError (Unit {0})
  pub remove : Key → Eff Trie MapError (Unit {0})
  -- `keys().collect()`
  pub keys : Trie → Result MapError (List Key)
  pub get_control : ControlMap → Result MapError Control
  pub set_control : Control → Eff ControlMap MapError (Unit {0})
  -- The same maps, as the packet filter reads them.
  pub look_up : Trie → List ℕ → Option ℕ
  pub control_entry : ControlMap → Option Control
  -- The keys in a map, told for the laws below.
  pub contents : Trie → List Key

-- The number that bytes in network order stand for.
abbrev pub number_from : ℕ → List ℕ → ℕ
number_from n [] = n
number_from n (b ∷ bytes) = number_from (n * 2 ^ 8 + b) bytes

abbrev pub number : List ℕ → ℕ
number bytes = number_from 0 bytes

-- The key's prefix is a prefix of the address of `w` bits.
abbrev pub prefix_of : ℕ → ℕ → Key → Bool
prefix_of w x key = x / 2 ^ (w - key.prefix_len) == key.address / 2 ^ (w - key.prefix_len)

abbrev pub Octets : ℕ → List ℕ → Type 0
Octets n bytes = (length bytes ≡ n) × All (λ b. b < 2 ^ 8) bytes

-- What is documented of the maps: a successful call does what its name says, a control entry that
-- cannot be written stays, and a lookup finds a value if a prefix of the address is a key.
pub record MapLaws (lib : MapLib) : Type 0 where
  pub any-insert :
      (key : Key) (value : ℕ) (t : lib.Trie) (p : Key → Bool)
      → Done
          (λ _ t'. any p (lib.contents t') ≡ (p key || any p (lib.contents t)))
          (lib.insert key value t)
  pub any-remove :
      (key : Key) (t : lib.Trie) (p : Key → Bool)
      → Done
          (λ _ t'.
            any p (lib.contents t') ≡ any (λ j. p j && not (same_key j key)) (lib.contents t))
          (lib.remove key t)
  pub any-keys :
      (t : lib.Trie) (keys : List Key) (p : Key → Bool)
      → lib.keys t ≡ ok keys
      → any p keys ≡ any p (lib.contents t)
  pub look_up_ipv4 :
      (t : lib.Trie) (address : List ℕ)
      → Octets 4 address
      → is_some (lib.look_up t address) ≡ any (prefix_of 32 (number address)) (lib.contents t)
  pub look_up_ipv6 :
      (t : lib.Trie) (address : List ℕ)
      → Octets 16 address
      → is_some (lib.look_up t address) ≡ any (prefix_of 128 (number address)) (lib.contents t)
  pub get-control :
      (c : lib.ControlMap) (value : Control)
      → lib.get_control c ≡ ok value
      → lib.control_entry c ≡ some value
  pub set-control :
      (c c' : lib.ControlMap) (value : Control)
      → lib.set_control value c ≡ (ok tt, c')
      → lib.control_entry c' ≡ some value
  pub set_control_failed :
      (c c' : lib.ControlMap) (value : Control) (e : lib.MapError)
      → lib.set_control value c ≡ (err e, c')
      → lib.control_entry c' ≡ lib.control_entry c

-- The pinned maps.
pub record Kernel (lib : MapLib) : Type 0 where
  pub control : lib.ControlMap
  pub ipv4_a : lib.Trie
  pub ipv4_b : lib.Trie
  pub ipv6_a : lib.Trie
  pub ipv6_b : lib.Trie

-- What the packet filter sees of them.
abbrev pub maps_of : (lib : MapLib) → Kernel lib → PacketMaps
maps_of lib k = record {
  control = lib.control_entry k.control;
  ipv4_a = lib.look_up k.ipv4_a;
  ipv4_b = lib.look_up k.ipv4_b;
  ipv6_a = lib.look_up k.ipv6_a;
  ipv6_b = lib.look_up k.ipv6_b;
}
