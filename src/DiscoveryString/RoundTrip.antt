-- ===== src/DiscoveryString/RoundTrip.antt =====
-- What `parse` reads of a text that `construct` wrote, and what it can never read.
use eestv_lib.Common.{
  ℕ, ◌%◌, ◌^◌, ◌<◌, ◌≡◌, refl, ap, ◌∙◌, Bool, true, false, not, ◌&&◌, Option, none, some, [], ◌∷◌,
  ◌++◌, arith, ltb, ◌==◌, if◌then◌else◌, Option-cases, inl, inr,
}
use eestv_lib.Common.Int.{ℤ, pos, negsuc}
use eestv_lib.Common.Text.{Text, to_string, is_empty}
use eestv_lib.DiscoveryString.{DiscoveryInfo, construct, check_parts, parse}
use eestv_lib.DiscoveryString.Numbers.{
  stoi, to_unsigned_short, all_decimal, to_string-digits, stoi-to_string, stoull-to_string,
}
use eestv_lib.DiscoveryString.Split.{split, parse_by_splits, parse-splits}

abbrev pub has_no_colon : Text → Bool
has_no_colon [] = true
has_no_colon (c ∷ cs) = not (c == b':') && has_no_colon cs

-- The four parts as a text, whatever number stands for the port.
abbrev pub joined : Text → Text → ℕ → ℕ → Text
joined service_name ip_address port timestamp_ms =
    service_name
    ++ (b':' ∷ (ip_address ++ (b':' ∷ (to_string port ++ (b':' ∷ to_string timestamp_ms)))))

split-colon : (a b : Text) → has_no_colon a ≡ true → split (a ++ (b':' ∷ b)) ≡ some (a, b)
unfolding split
split-colon [] b h = refl
split-colon (c ∷ cs) b h = ground (arith, split-colon cs b)

split-has_no_colon : (t a b : Text) → split t ≡ some (a, b) → has_no_colon a ≡ true
unfolding split
split-has_no_colon [] a b h = ground arith
split-has_no_colon (c ∷ cs) a b h = elim (Option-cases (split cs)) [
  | inl e ↦ ground (arith, e)
  | inr ((x, y), e) ↦ ground (arith, e, split-has_no_colon cs x y)
]

digits-has_no_colon : (t : Text) → all_decimal t ≡ true → has_no_colon t ≡ true
digits-has_no_colon [] h = refl
digits-has_no_colon (c ∷ cs) h = ground (arith, digits-has_no_colon cs)

module _ {Address : Type 0} (make_address : Text → Option Address) where
  -- What `parse` reads of the four parts with colons between them.
  parse-joined :
      (service_name ip_address : Text) (port timestamp_ms : ℕ) (address : Address)
      → is_empty service_name ≡ false
      → has_no_colon service_name ≡ true
      → is_empty ip_address ≡ false
      → has_no_colon ip_address ≡ true
      → make_address ip_address ≡ some address
      → timestamp_ms < 2 ^ 64
      → parse make_address (joined service_name ip_address port timestamp_ms) ≡ (
          if ltb port (2 ^ 31)
          then some (record {
            service_name = service_name;
            ip_address = ip_address;
            port = port % 2 ^ 16;
            address = address;
            timestamp_ms = timestamp_ms;
          })
          else none)
  unfolding parse_by_splits check_parts
  parse-joined s ip p t a es cs ei ci m h =
      let behind_ip : Text = to_string p ++ (b':' ∷ to_string t) in
      parse-splits make_address (joined s ip p t)
      ∙ ground (
        arith,
        split-colon s (ip ++ (b':' ∷ behind_ip)) cs,
        split-colon ip behind_ip ci,
        split-colon (to_string p) (to_string t)
            (digits-has_no_colon (to_string p) (to_string-digits p).0),
        stoi-to_string p,
        stoull-to_string t,
      )

  -- What was constructed from a service name and a valid address, both without a colon and not empty,
  -- any port, which is narrowed modulo 2 ^ 16, and a timestamp below 2 ^ 64 is parsed as it was. A text
  -- of such parts in which any number stands for the port is parsed likewise, the port modulo 2 ^ 16,
  -- when that number is below 2 ^ 31, and refused when it is not.
  pub parse-construct :
      (service_name ip_address : Text) (port timestamp_ms : ℕ) (address : Address)
      → is_empty service_name ≡ false
      → has_no_colon service_name ≡ true
      → is_empty ip_address ≡ false
      → has_no_colon ip_address ≡ true
      → make_address ip_address ≡ some address
      → timestamp_ms < 2 ^ 64
      → let info : DiscoveryInfo Address = record {
        service_name = service_name;
        ip_address = ip_address;
        port = port % 2 ^ 16;
        address = address;
        timestamp_ms = timestamp_ms;
      } in
        (parse make_address (construct service_name ip_address port timestamp_ms) ≡ some info)
        × (parse make_address (joined service_name ip_address port timestamp_ms)
            ≡ (if ltb port (2 ^ 31) then some info else none))
  unfolding construct
  parse-construct s ip p t a es cs ei ci m h = (
    parse-joined s ip (p % 2 ^ 16) t a es cs ei ci m h ∙ ground arith,
    parse-joined s ip p t a es cs ei ci m h,
  )

  check_parts-some :
      (s ip p t : Text) (info : DiscoveryInfo Address)
      → check_parts make_address s ip p t ≡ some info
      → (info.service_name ≡ s)
        × (info.ip_address ≡ ip)
        × (is_empty ip ≡ false)
        × (is_empty s ≡ false)
        × (info.port < 2 ^ 16)
        × (make_address ip ≡ some info.address)
  unfolding check_parts
  check_parts-some s ip p t info h = elim (Option-cases (stoi p)) [
    | inl e ↦ ground (arith, e)
    | inr (z, e) ↦ ground (arith, e, small z)
  ]
    where
      small : (z : ℤ) → to_unsigned_short z < 2 ^ 16
      small (pos n) = omega arith
      small (negsuc n) = omega arith

  -- No parsed address has a colon, so none is an IPv6 address; nor has the service name, and neither is
  -- empty; and the port is below 2 ^ 16.
  pub parse-parts :
      (response : Text) (info : DiscoveryInfo Address)
      → parse make_address response ≡ some info
      → (has_no_colon info.ip_address ≡ true)
        × (has_no_colon info.service_name ≡ true)
        × (is_empty info.ip_address ≡ false)
        × (is_empty info.service_name ≡ false)
        × (info.port < 2 ^ 16)
        × (make_address info.ip_address ≡ some info.address)
  unfolding parse_by_splits
  parse-parts r info h = elim (Option-cases (split r)) [
    | inl e ↦ ground (arith, e, parse-splits make_address r)
    | inr ((s, r1), e) ↦ elim (Option-cases (split r1)) [
      | inl e1 ↦ ground (arith, e, e1, parse-splits make_address r)
      | inr ((ip, r2), e1) ↦ elim (Option-cases (split r2)) [
        | inl e2 ↦ ground (arith, e, e1, e2, parse-splits make_address r)
        | inr ((p, t), e2) ↦
            let found : check_parts make_address s ip p t ≡ some info =
              ground (arith, e, e1, e2, parse-splits make_address r) in
            ground (
              arith,
              check_parts-some s ip p t info found,
              ap has_no_colon (check_parts-some s ip p t info found).0,
              ap has_no_colon (check_parts-some s ip p t info found).1,
              split-has_no_colon r s r1 e,
              split-has_no_colon r1 ip r2 e1,
            )
      ]
    ]
  ]
