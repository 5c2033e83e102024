-- ===== src/Tests/Prefixes.antt =====
-- The tests of src/blocklist.rs on the decomposition, and the witnesses.
use nftblock.Prelude.{ℕ, ◌≤◌, ◌≡◌, refl, none, some, List, [], ◌∷◌, arith, length}
use nftblock.Blocklist.{AddressInterval, AddressPrefix, interval_prefixes}
use nftblock.Blocklist.Prefixes.{IsInterval, Tiles, IsCidr, count_matches}
use nftblock.Blocklist.Prefixes.Cover.{interval_prefixes-Tiles, interval_prefixes-count}
use nftblock.Blocklist.Prefixes.Minimal.{interval_prefixes_minimal}

class_c :
    interval_prefixes (AddressInterval.v4 0x0a000000 (some 0x0a000100))
    ≡ AddressPrefix.v4 0x0a000000 24 ∷ []
unfolding interval_prefixes
class_c = refl

all_of_v6 : interval_prefixes (AddressInterval.v6 0 none) ≡ AddressPrefix.v6 0 0 ∷ []
unfolding interval_prefixes
all_of_v6 = refl

all_of_v4 : interval_prefixes (AddressInterval.v4 0 none) ≡ AddressPrefix.v4 0 0 ∷ []
unfolding interval_prefixes
all_of_v4 = refl

ragged :
    interval_prefixes (AddressInterval.v6 1 (some 7))
    ≡ AddressPrefix.v6 1 128
      ∷ AddressPrefix.v6 2 127
      ∷ AddressPrefix.v6 4 127
      ∷ AddressPrefix.v6 6 128
      ∷ []
unfolding interval_prefixes
ragged = refl

abbrev sample : AddressInterval
sample = AddressInterval.v4 1 (some 4)

sample-IsInterval : IsInterval sample
sample-IsInterval = record { holds_one = omega arith; is_end = omega arith }

abbrev by_hand : List AddressPrefix
by_hand = AddressPrefix.v4 1 32 ∷ AddressPrefix.v4 2 32 ∷ AddressPrefix.v4 3 32 ∷ []

single-IsCidr : (a : ℕ) → IsCidr 32 (AddressPrefix.v4 a 32)
single-IsCidr a = record { family = refl; fits = omega arith; aligned = (a, omega arith) }

interval_prefixes-Tiles_example : Tiles 32 1 4 (interval_prefixes sample)
interval_prefixes-Tiles_example = interval_prefixes-Tiles sample sample-IsInterval

interval_prefixes-count_example : count_matches 3 (interval_prefixes sample) ≡ 1
interval_prefixes-count_example = interval_prefixes-count sample 3 sample-IsInterval

interval_prefixes_minimal_example : length (interval_prefixes sample) ≤ 3
interval_prefixes_minimal_example =
    interval_prefixes_minimal sample by_hand sample-IsInterval
      (refl, single-IsCidr 1, (refl, single-IsCidr 2, (refl, single-IsCidr 3, refl)))
