-- ===== src/Tests/Kernels.antt =====
-- Sets of a kernel, as src/netlink.rs reads them, and the witnesses.
use nftblock.Prelude.{◌≡◌, refl, true, false, not, ◌&&◌, none, some, List, [], ◌∷◌, any, All}
use nftblock.Text.{Text, codes}
use nftblock.Word.{checked_add}
use nftblock.Zones.{Direction, same}
use nftblock.Netlink.{DirectionGeneration, ActiveGenerations, iter, Health}
use nftblock.Netlink.Generations.{
  hex, hex_from, to_digit, read_digits, from_hex, behind_g, observe_generations, ipv4_name,
  ipv6_name,
}
use nftblock.Netlink.Fresh.{observe_generations_fresh}
use nftblock.Netlink.Native.{
  Inventory, has_marker, layout_marker, inspect, inspect_direction, health_from, obsolete,
  kept_names,
}
use nftblock.Netlink.Healthy.{SoundSets, health_from-Sound}
use nftblock.Netlink.Obsolete.{obsolete-iter, owns}

hex-beef : hex 0xbeef ≡ codes "000000000000beef"
unfolding hex_from
hex-beef = refl

-- The marker, the sets of generation 41, and a set that is not ours.
abbrev seen : List Text
seen =
    layout_marker
    ∷ ipv4_name Direction.inbound 41
    ∷ ipv6_name Direction.inbound 41
    ∷ codes "my_gateways"
    ∷ []

seen-next : checked_add 64 (observe_generations seen 1) 1 ≡ some 43
unfolding observe_generations ipv4_name ipv6_name hex_from behind_g from_hex read_digits to_digit
seen-next = refl

observe_generations_fresh_example :
    (any (same (ipv4_name Direction.inbound (observe_generations seen 1))) seen ≡ false)
    × (any (same (ipv6_name Direction.inbound (observe_generations seen 1))) seen ≡ false)
observe_generations_fresh_example = observe_generations_fresh seen 1 43 Direction.inbound seen-next

abbrev inbound_41 : DirectionGeneration
inbound_41 = record {
  direction = Direction.inbound;
  ipv4_set = ipv4_name Direction.inbound 41;
  ipv6_set = ipv6_name Direction.inbound 41;
  ipv4_intervals = 7;
  ipv6_intervals = 2;
  ipv4_boundaries = 14;
  ipv6_boundaries = 4;
}

abbrev counted : Inventory
counted =
    (layout_marker, some 0)
    ∷ (ipv4_name Direction.inbound 41, some 7)
    ∷ (ipv6_name Direction.inbound 41, none)
    ∷ []

abbrev active_41 : ActiveGenerations
active_41 = record { inbound = some inbound_41; outbound = none }

health-counted : health_from counted active_41 ≡ Health.healthy
unfolding health_from inspect_direction inspect ipv4_name ipv6_name hex_from
health-counted = refl

health_from-Sound_example : (has_marker counted ≡ true) × All (SoundSets counted) (iter active_41)
health_from-Sound_example = health_from-Sound counted active_41 health-counted

-- After generation 41 is active, that of number 7 is obsolete.
obsolete-iter_example :
    (any
        (same (ipv4_name Direction.inbound 7))
        (obsolete (kept_names (iter active_41)) (ipv4_name Direction.inbound 7 ∷ seen))
      ≡ (any (same (ipv4_name Direction.inbound 7)) (ipv4_name Direction.inbound 7 ∷ seen)
          && not (owns active_41 (ipv4_name Direction.inbound 7))))
    × (any
          (same (ipv6_name Direction.inbound 7))
          (obsolete (kept_names (iter active_41)) (ipv4_name Direction.inbound 7 ∷ seen))
        ≡ (any (same (ipv6_name Direction.inbound 7)) (ipv4_name Direction.inbound 7 ∷ seen)
            && not (owns active_41 (ipv6_name Direction.inbound 7))))
    × (any
          (same layout_marker)
          (obsolete (kept_names (iter active_41)) (ipv4_name Direction.inbound 7 ∷ seen))
        ≡ false)
obsolete-iter_example =
    obsolete-iter active_41 (ipv4_name Direction.inbound 7 ∷ seen) Direction.inbound 7
