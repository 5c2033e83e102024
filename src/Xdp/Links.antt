-- ===== src/Xdp/Links.antt =====
-- src/xdp.rs: the links of the XDP program to interfaces, how missing ones are attached, and the roll
-- back. The calls of aya and of the kernel are a parameter.
use nftblock.Prelude.{
  ℕ, Bool, false, not, ◌&&◌, ◌||◌, Option, none, some, List, [], ◌∷◌, ◌++◌, ◌==◌, if◌then◌else◌,
}
use nftblock.Prelude.Results.{Result, ok, err}
use nftblock.Prelude.Effects.{Eff}
use nftblock.Text.{is_empty}
use nftblock.Config.{XdpMode}

-- aya's `XdpMode`
pub data AttachMode : Type 0 where
  driver skb : AttachMode

pub record LinkLib : Type 1 where
  pub State : Type 0
  pub LinkId : Type 0
  pub PinnedLink : Type 0
  pub LinkError : Type 0
  pub attach_to_if_index : ℕ → AttachMode → Eff State LinkError LinkId
  -- `take_link`, the conversion to an `FdLink`, and `pin`, in the directory of the interface's index.
  pub pin : ℕ → LinkId → Eff State LinkError PinnedLink
  pub unpin : PinnedLink → Eff State LinkError (Unit {0})
  -- The number of the first error of the operating system among the causes.
  pub raw_os_error : LinkError → Option ℕ

abbrev pub modes_of : XdpMode → List AttachMode
modes_of XdpMode.auto = driver ∷ skb ∷ []
modes_of XdpMode.native = driver ∷ []
modes_of XdpMode.generic = skb ∷ []

abbrev unsupported_number : Option ℕ → Bool
unsupported_number none = false
unsupported_number (some n) = n == 22 || n == 45 || n == 95

-- An error of aya, or none of the modes tried.
pub data AttachError (L : Type 0) : Type 0 where
  link_failed : L → AttachError L
  no_mode : AttachError L

module _ (lib : LinkLib) where
  abbrev pub Links : Type 0
  Links = List (ℕ × lib.PinnedLink)

  abbrev pub contains_key : ℕ → Links → Bool
  contains_key i [] = false
  contains_key i ((j, link) ∷ links) = i == j || contains_key i links

  unfoldable pub remove : ℕ → Links → Links
  remove i [] = []
  remove i ((j, link) ∷ links) =
      let rest = remove i links in if i == j then rest else (j, link) ∷ rest

  -- `links.remove(&ifindex)`: the link that was there.
  abbrev pub link_of : ℕ → Links → Option lib.PinnedLink
  link_of i [] = none
  link_of i ((j, link) ∷ links) = if i == j then some link else link_of i links

  pub record Attached : Type 0 where
    pub kernel : lib.State
    pub links : Links

  unfoldable pub unsupported_native : lib.LinkError → Bool
  unsupported_native e = unsupported_number (lib.raw_os_error e)

  abbrev pub pinned :
      ℕ
      → Attached
      → Result lib.LinkError lib.PinnedLink × lib.State
      → Result (AttachError lib.LinkError) (Unit {0}) × Attached
  pinned ifindex a (ok link, s) = (ok tt, record { kernel = s; links = (ifindex, link) ∷ a.links })
  pinned ifindex a (err e, s) = (err (link_failed e), record a { kernel = s })

  -- What follows a try of one mode; `next` tries those that are left.
  abbrev pub tried :
      ℕ
      → Bool
      → (Attached → Result (AttachError lib.LinkError) (Unit {0}) × Attached)
      → Attached
      → Result lib.LinkError lib.LinkId × lib.State
      → Result (AttachError lib.LinkError) (Unit {0}) × Attached
  tried ifindex more next a (ok id, s) = pinned ifindex a (lib.pin ifindex id s)
  tried ifindex more next a (err e, s) =
      if more && unsupported_native e
      then next (record a { kernel = s })
      else (err (link_failed e), record a { kernel = s })

  unfoldable pub attach_modes :
      ℕ → List AttachMode → Attached → Result (AttachError lib.LinkError) (Unit {0}) × Attached
  unfolding unsupported_native
  attach_modes ifindex [] a = (err no_mode, a)
  attach_modes ifindex (mode ∷ modes) a =
      tried ifindex (not (is_empty modes)) (attach_modes ifindex modes) a
        (lib.attach_to_if_index ifindex mode a.kernel)

  unfoldable pub attach :
      XdpMode → ℕ → Attached → Result (AttachError lib.LinkError) (Unit {0}) × Attached
  unfolding attach_modes
  attach mode ifindex a = attach_modes ifindex (modes_of mode) a

  abbrev pub unpinned : Option lib.PinnedLink → lib.State → lib.State
  unpinned none s = s
  unpinned (some link) s = (lib.unpin link s).1

  unfoldable pub roll_back : List ℕ → Attached → Attached
  unfolding remove
  roll_back [] a = a
  roll_back (i ∷ attached) a =
      roll_back attached
        (record { kernel = unpinned (link_of i a.links) a.kernel; links = remove i a.links })

  abbrev pub missing : List ℕ → Links → List ℕ
  missing [] links = []
  missing (i ∷ interfaces) links =
      if contains_key i links then missing interfaces links else i ∷ missing interfaces links

  abbrev pub Outcome : Type 0
  Outcome = Result (AttachError lib.LinkError) (Unit {0}) × Attached

  abbrev pub and_attached : (List ℕ → Attached → Outcome) → ℕ → List ℕ → Outcome → Outcome
  and_attached next i attached (ok u, a) = next (attached ++ i ∷ []) a
  and_attached next i attached (err e, a) = (err e, roll_back attached a)

  unfoldable pub attach_all : XdpMode → List ℕ → List ℕ → Attached → Outcome
  unfolding attach roll_back
  attach_all mode [] attached a = (ok tt, a)
  attach_all mode (i ∷ is) attached a =
      and_attached (attach_all mode is) i attached (attach mode i a)

  -- `interfaces` has the indices, each once.
  unfoldable pub reconcile_links :
      XdpMode → List ℕ → Attached → Result (AttachError lib.LinkError) (Unit {0}) × Attached
  unfolding attach_all
  reconcile_links mode interfaces a = attach_all mode (missing interfaces a.links) [] a
