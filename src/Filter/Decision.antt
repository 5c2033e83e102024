-- ===== src/Filter/Decision.antt =====
-- The packet filter (cidrwall-ebpf/src/main.rs) decides by the source address of the frame.
use nftblock.Prelude.{
  ℕ, zero, suc, ◌+◌, ◌-◌, ◌/◌, ◌%◌, ◌^◌, ◌≡◌, refl, sym, ap, ◌∙◌, true, false, not, ◌&&◌, ◌||◌,
  Option, none, some, List, ltb, leb, ◌==◌, if◌then◌else◌, arith, Bool-cases, inl, inr,
}
use nftblock.Filter.{
  XdpContext, Maps, XdpAction, xdp_pass, or_pass, try_with, bytes_from, past_end, read_u8,
  read_array, read_be_u16, from_be_bytes, is_tag, skip_tags, verdict_of, look_up_ipv4, look_up_ipv6,
  filter_ipv4, filter_ipv6, filter_type, try_cidrwall, cidrwall,
}
use nftblock.Filter.Frame.{
  Source, ipv4_header, ipv6_header, payload, tagged, source, judge, rest, drop-rest, field-rest,
  fits, same_bytes, read_be_u16-fits, read_be_u16-past, past_end-length, fits-length, first-rest,
}

try_with-try_with :
    {A B C : Type 0} (o : Option A) (f : A → Option B) (g : B → Option C)
    → try_with (try_with o f) g ≡ try_with o (λ a. try_with (f a) g)
try_with-try_with none f g = refl
try_with-try_with (some a) f g = refl

module _ (ctx : XdpContext) where
  module _ (maps : Maps) where
    ipv4_guard :
        (b : ℕ) (address : List ℕ)
        → or_pass (
            if not (b / 2 ^ 4 == 4) || ltb (b % 2 ^ 4) 5
            then some xdp_pass
            else some (verdict_of (look_up_ipv4 maps address)))
          ≡ judge maps
              (if (b / 2 ^ 4 == 4) && leb 5 (b % 2 ^ 4) then some (Source.ipv4 address) else none)
    ipv4_guard b address = ground arith

    filter_ipv4-fits :
        (o : ℕ)
        → past_end ctx (o + 20) ≡ false
        → or_pass (filter_ipv4 ctx maps o) ≡ judge maps (ipv4_header (rest ctx o))
    unfolding filter_ipv4 read_u8 read_array
    filter_ipv4-fits o e =
        let one = fits ctx (o + 1) (o + 20) e (omega arith) in
        let four = fits ctx (o + 12 + 4) (o + 20) e (omega arith) in
        rw (e, one, four, fits-length ctx 20 o e, first-rest ctx 19 o e, field-rest ctx 12 4 o four)
          (ipv4_guard (ctx.byte (ctx.data_start + o))
            (bytes_from ctx.byte (ctx.data_start + (o + 12)) 4))

    filter_ipv4_lem :
        (o : ℕ) → or_pass (filter_ipv4 ctx maps o) ≡ judge maps (ipv4_header (rest ctx o))
    unfolding filter_ipv4
    filter_ipv4_lem o = elim (Bool-cases (past_end ctx (o + 20))) [
      | inl e ↦ rw (e, past_end-length ctx 20 o e (omega arith)) refl
      | inr e ↦ filter_ipv4-fits o e
    ]

    ipv6_guard :
        (b : ℕ) (address : List ℕ)
        → or_pass (
            if not (b / 2 ^ 4 == 6)
            then some xdp_pass
            else some (verdict_of (look_up_ipv6 maps address)))
          ≡ judge maps (if b / 2 ^ 4 == 6 then some (Source.ipv6 address) else none)
    ipv6_guard b address = ground arith

    filter_ipv6-fits :
        (o : ℕ)
        → past_end ctx (o + 40) ≡ false
        → or_pass (filter_ipv6 ctx maps o) ≡ judge maps (ipv6_header (rest ctx o))
    unfolding filter_ipv6 read_u8 read_array
    filter_ipv6-fits o e =
        let one = fits ctx (o + 1) (o + 40) e (omega arith) in
        let sixteen = fits ctx (o + 8 + 16) (o + 40) e (omega arith) in
        rw
          (
            e,
            one,
            sixteen,
            fits-length ctx 40 o e,
            first-rest ctx 39 o e,
            field-rest ctx 8 16 o sixteen,
          )
          (ipv6_guard (ctx.byte (ctx.data_start + o))
            (bytes_from ctx.byte (ctx.data_start + (o + 8)) 16))

    filter_ipv6_lem :
        (o : ℕ) → or_pass (filter_ipv6 ctx maps o) ≡ judge maps (ipv6_header (rest ctx o))
    unfolding filter_ipv6
    filter_ipv6_lem o = elim (Bool-cases (past_end ctx (o + 40))) [
      | inl e ↦ rw (e, past_end-length ctx 40 o e (omega arith)) refl
      | inr e ↦ filter_ipv6-fits o e
    ]

    filter_type_lem :
        (t o : ℕ) → or_pass (filter_type ctx maps t o) ≡ judge maps (payload t (rest ctx o))
    unfolding filter_type
    filter_type_lem t o = elim (Bool-cases (t == 0x0800)) [
      | inl e ↦ rw e (filter_ipv4_lem o)
      | inr e ↦
          rw e (elim (Bool-cases (t == 0x86dd)) [
            | inl f ↦ rw f (filter_ipv6_lem o)
            | inr f ↦ rw f refl
          ])
    ]

    -- From a type that lies at `o` on: reading it, and what the loop does with it.
    from_type : ℕ → ℕ → Option XdpAction
    from_type n o =
        try_with (read_be_u16 ctx o)
          λ t. try_with (skip_tags ctx n t (o + 2)) λ found. filter_type ctx maps found.0 found.1

    from_type-past :
        (n o : ℕ)
        → past_end ctx (o + 2) ≡ true
        → or_pass (from_type n o) ≡ judge maps (tagged n (rest ctx o))
    unfolding from_type
    from_type-past zero o e =
        let (failed, none_there) = read_be_u16-past ctx o e in rw (failed, none_there) refl
    from_type-past (suc n) o e =
        let (failed, none_there) = read_be_u16-past ctx o e in rw (failed, none_there) refl

    from_type-last :
        (o : ℕ)
        → past_end ctx (o + 2) ≡ false
        → or_pass (from_type 0 o) ≡ judge maps (tagged 0 (rest ctx o))
    unfolding from_type skip_tags
    from_type-last o e =
        rw (read_be_u16-fits ctx o e, drop-rest ctx 2 o)
          (filter_type_lem (from_be_bytes (rest ctx o)) (o + 2))

    skip_tag :
        (n o : ℕ)
        → or_pass (
            try_with
              (try_with (read_be_u16 ctx (o + 2 + 2)) (λ next. skip_tags ctx n next (o + 2 + 4)))
              λ found. filter_type ctx maps found.0 found.1)
          ≡ or_pass (from_type n (o + 4))
    unfolding from_type
    skip_tag n o =
        let at : o + 2 + 2 ≡ o + 4 = omega arith in
        let behind : o + 2 + 4 ≡ o + 4 + 2 = omega arith in
        rw (at, behind) (ap or_pass (try_with-try_with (read_be_u16 ctx (o + 4)) _ _))

    from_type-next :
        (n o : ℕ)
        → past_end ctx (o + 2) ≡ false
        → or_pass (from_type n (o + 4)) ≡ judge maps (tagged n (rest ctx (o + 4)))
        → or_pass (from_type (suc n) o) ≡ judge maps (tagged (suc n) (rest ctx o))
    unfolding from_type skip_tags
    from_type-next n o e next = elim (Bool-cases (is_tag (from_be_bytes (rest ctx o)))) [
      | inl t ↦ rw (read_be_u16-fits ctx o e, t, drop-rest ctx 4 o) (skip_tag n o ∙ next)
      | inr t ↦
          rw (read_be_u16-fits ctx o e, t, drop-rest ctx 2 o)
            (filter_type_lem (from_be_bytes (rest ctx o)) (o + 2))
    ]

    from_type_lem : (n o : ℕ) → or_pass (from_type n o) ≡ judge maps (tagged n (rest ctx o))
    from_type_lem zero o = elim (Bool-cases (past_end ctx (o + 2))) [
      | inl e ↦ from_type-past zero o e
      | inr e ↦ from_type-last o e
    ]
    from_type_lem (suc n) o = elim (Bool-cases (past_end ctx (o + 2))) [
      | inl e ↦ from_type-past (suc n) o e
      | inr e ↦ from_type-next n o e (from_type_lem n (o + 4))
    ]

  from_first_type :
      (maps : Maps) → past_end ctx 14 ≡ false → cidrwall ctx maps ≡ or_pass (from_type maps 2 12)
  unfolding cidrwall try_cidrwall from_type
  from_first_type maps e = rw e refl

  too_short : (maps : Maps) → past_end ctx 14 ≡ true → cidrwall ctx maps ≡ xdp_pass
  unfolding cidrwall try_cidrwall
  too_short maps e = rw e refl

  no_source : past_end ctx 14 ≡ true → source (rest ctx 0) ≡ none
  no_source e = rw (past_end-length ctx 14 0 e (omega arith)) refl

  source_of_rest : past_end ctx 14 ≡ false → source (rest ctx 0) ≡ tagged 2 (rest ctx 12)
  source_of_rest e = rw (fits-length ctx 14 0 e) (ap (tagged 2) (drop-rest ctx 12 0))

  -- The filter drops a packet exactly when the frame, behind at most two VLAN tags, is an IPv4 or
  -- IPv6 packet with a whole header whose source address the tables of the active slot have; the
  -- decision depends on no byte outside of the packet.
  pub cidrwall_lem :
      (maps : Maps)
      → cidrwall ctx maps
        ≡ judge maps (source (bytes_from ctx.byte ctx.data_start (ctx.data_end - ctx.data_start)))
  cidrwall_lem maps =
      let whole : bytes_from ctx.byte ctx.data_start (ctx.data_end - ctx.data_start) ≡ rest ctx 0 =
        same_bytes ctx.byte _ _ _ _ (omega arith) (omega arith) in
      rw whole (elim (Bool-cases (past_end ctx 14)) [
        | inl e ↦ too_short maps e ∙ sym (ap (judge maps) (no_source e))
        | inr e ↦
            from_first_type maps e
            ∙ from_type_lem maps 2 12
            ∙ sym (ap (judge maps) (source_of_rest e))
      ])
