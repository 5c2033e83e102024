-- ===== src/Tests/Attachments.antt =====
-- Attachments of the XDP program (src/xdp.rs) to concrete interfaces, and the witness.
use nftblock.Prelude.{ℕ, ◌≡◌, refl, some, [], ◌∷◌, ◌==◌, if◌then◌else◌}
use nftblock.Prelude.Results.{ok, err}
use nftblock.Prelude.Effects.{Outcome}
use nftblock.Config.{XdpMode}
use nftblock.Xdp.Links.{
  LinkLib, AttachMode, AttachError, Attached, reconcile_links, attach_all, attach, attach_modes,
  unsupported_native, roll_back, remove,
}
use nftblock.Xdp.Pins.{Pin, ledger, Mirrors, SameLive, MoreLive, reconcile_links-Outcome}

-- Interface 5 has no native mode, and interface 9 is gone; the links are numbers.
abbrev sample_links : LinkLib
sample_links = record {
  State = ℕ;
  LinkId = ℕ;
  PinnedLink = ℕ;
  LinkError = ℕ;
  attach_to_if_index = λ i mode s. if i == 9 then (err 19, s) else elim mode [
    | AttachMode.driver ↦ if i == 5 then (err 95, s) else (ok i, s)
    | AttachMode.skb ↦ (ok i, s)
  ];
  pin = λ i id s. (ok id, s);
  unpin = λ link s. (ok tt, s);
  raw_os_error = λ e. some e;
}

abbrev third : Pin ℕ
third = record { interface = 3; link = 3 }

abbrev found : Attached (ledger sample_links)
found = record { kernel = record { state = 0; live = 3 ∷ [] }; links = (3, third) ∷ [] }

found_mirrored : Mirrors sample_links found
found_mirrored = record { same = λ j. refl; keyed = (refl, tt) }

falls_back : reconcile_links (ledger sample_links) XdpMode.auto (3 ∷ 5 ∷ []) found ≡ (
  ok tt,
  record {
    kernel = record { state = 0; live = 5 ∷ 3 ∷ [] };
    links = (5, record { interface = 5; link = 5 }) ∷ (3, third) ∷ [];
  },
)
unfolding reconcile_links attach_all attach attach_modes unsupported_native roll_back remove
falls_back = refl

rolls_back :
    reconcile_links (ledger sample_links) XdpMode.auto (3 ∷ 5 ∷ 9 ∷ []) found
    ≡ (err (AttachError.link_failed 19), found)
unfolding reconcile_links attach_all attach attach_modes unsupported_native roll_back remove
rolls_back = refl

reconcile_links-Outcome_example :
    Mirrors sample_links
      (reconcile_links (ledger sample_links) XdpMode.auto (3 ∷ 5 ∷ 9 ∷ []) found).1
    × Outcome
        (SameLive sample_links found)
        (λ _. MoreLive sample_links (3 ∷ 5 ∷ 9 ∷ []) found)
        (reconcile_links (ledger sample_links) XdpMode.auto (3 ∷ 5 ∷ 9 ∷ []) found)
reconcile_links-Outcome_example =
    reconcile_links-Outcome sample_links XdpMode.auto (3 ∷ 5 ∷ 9 ∷ []) found found_mirrored
