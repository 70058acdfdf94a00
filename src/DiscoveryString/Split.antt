-- ===== src/DiscoveryString/Split.antt =====
-- Parsing by positions against parsing by splitting.
use eestv_lib.Common.{
  ℕ, suc, ◌+◌, ◌≡◌, refl, sym, ap, ◌∙◌, Option, none, some, [], ◌∷◌, arith, ◌==◌, if◌then◌else◌,
  take, drop, drop-drop, Option-cases, inl, inr,
}
use eestv_lib.Common.Text.{Text}
use eestv_lib.DiscoveryString.{DiscoveryInfo, index_of_colon, find_colon, check_parts, parse}

-- The text in front of the first colon and the text behind it.
unfoldable pub split : Text → Option (Text × Text)
split [] = none
split (c ∷ cs) =
    let rest = split cs in
    if c == b':' then some ([], cs) else elim rest [ none ↦ none | some (a, b) ↦ some (c ∷ a, b) ]

split-index :
    (t : Text)
    → split t ≡ (elim (index_of_colon t) [ none ↦ none | some i ↦ some (take i t, drop (suc i) t) ])
unfolding split index_of_colon
split-index [] = refl
split-index (c ∷ cs) = ground (arith, split-index cs)

module _ {Address : Type 0} (make_address : Text → Option Address) where
  -- The four parts by three splits.
  unfoldable pub parse_by_splits : Text → Option (DiscoveryInfo Address)
  parse_by_splits response = elim (split response) [
    | none ↦ none
    | some (service_name, behind_name) ↦ elim (split behind_name) [
      | none ↦ none
      | some (ip_str, behind_ip) ↦ elim (split behind_ip) [
        | none ↦ none
        | some (port_str, timestamp_str) ↦
            check_parts make_address service_name ip_str port_str timestamp_str
      ]
    ]
  ]

  -- Parsing finds the parts by splitting at the first three colons, for every text, whatever addresses
  -- are valid: with fewer than three colons there is no result, and else the parts are checked.
  pub parse-splits : (response : Text) → parse make_address response ≡ parse_by_splits response
  unfolding parse parse_by_splits find_colon
  parse-splits r = elim (Option-cases (index_of_colon r)) [
    | inl e ↦ ground (arith, e, split-index r)
    | inr (i, e) ↦
        let r1 : Text = drop (suc i) r in
        let at1 : drop (0 + i + 1) r ≡ r1 = ap (λ k. drop k r) (first i) in
        elim (Option-cases (index_of_colon r1)) [
          | inl e1 ↦ ground (arith, e, e1, at1, split-index r, split-index r1)
          | inr (j, e1) ↦
              let r2 : Text = drop (suc j) r1 in
              let at2 : drop (0 + i + 1 + j + 1) r ≡ r2 =
                ap (λ k. drop k r) (second i j) ∙ sym (drop-drop (suc i) (suc j) r) in
              elim (Option-cases (index_of_colon r2)) [
                | inl e2 ↦
                    ground
                      (arith, e, e1, e2, at1, at2, split-index r, split-index r1, split-index r2)
                | inr (k, e2) ↦
                    let at3 : drop (0 + i + 1 + j + 1 + k + 1) r ≡ drop (suc k) r2 =
                      ap (λ m. drop m r) (third i j k)
                      ∙ sym (drop-drop (suc i + suc j) (suc k) r)
                      ∙ ap (drop (suc k)) (sym (drop-drop (suc i) (suc j) r)) in
                    ground (
                      arith,
                      e,
                      e1,
                      e2,
                      at1,
                      at2,
                      at3,
                      split-index r,
                      split-index r1,
                      split-index r2,
                    )
              ]
        ]
  ]
    where
      first : (i : ℕ) → 0 + i + 1 ≡ suc i
      first i = omega arith

      second : (i j : ℕ) → 0 + i + 1 + j + 1 ≡ suc i + suc j
      second i j = omega arith

      third : (i j k : ℕ) → 0 + i + 1 + j + 1 + k + 1 ≡ suc i + suc j + suc k
      third i j k = omega arith
