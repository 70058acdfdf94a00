-- ===== src/DiscoveryString.antt =====
-- eestv/net/discovery/discovery_string.cpp: the text in which a service names itself and its address.
--
-- `std::stoi` and `std::stoull` are modelled in Numbers. The clock of `construct` is an argument;
-- Boost's `make_address` is a parameter, which gives an address or nothing where it reports an error.
pub mod Numbers
pub mod Split
pub mod RoundTrip
mod Examples
use eestv_lib.Common.{
  ℕ, zero, suc, ◌+◌, ◌-◌, ◌%◌, ◌^◌, Option, none, some, List, [], ◌∷◌, ◌++◌, ◌==◌, if◌then◌else◌,
  take, drop,
}
use eestv_lib.Common.Text.{Text, codes, to_string, is_empty}
use eestv_lib.DiscoveryString.Numbers.{stoi, stoull, to_unsigned_short}

pub record DiscoveryInfo (Address : Type 0) : Type 0 where
  pub service_name : Text
  pub ip_address : Text
  pub port : ℕ
  -- The endpoint is this address with the port.
  pub address : Address
  pub timestamp_ms : ℕ

-- The port is an unsigned short.
unfoldable pub construct : Text → Text → ℕ → ℕ → Text
construct service_name ip_address port timestamp_ms =
    service_name
    ++ (b':'
        ∷ (ip_address ++ (b':' ∷ (to_string (port % 2 ^ 16) ++ (b':' ∷ to_string timestamp_ms)))))

-- The position of the first colon.
pub index_of_colon : Text → Option ℕ
index_of_colon [] = none
index_of_colon (c ∷ cs) =
    let rest = index_of_colon cs in
    if c == b':' then some 0 else elim rest [ none ↦ none | some i ↦ some (suc i) ]

-- `find(':', pos)`.
unfoldable pub find_colon : Text → ℕ → Option ℕ
unfolding index_of_colon
find_colon response pos = elim (index_of_colon (drop pos response)) [
  | none ↦ none
  | some i ↦ some (pos + i)
]

-- `substr(pos, count)`.
abbrev pub substr : Text → ℕ → ℕ → Text
substr text pos count = take count (drop pos text)

module _ {Address : Type 0} (make_address : Text → Option Address) where
  -- The checks of the four parts.
  unfoldable pub check_parts : Text → Text → Text → Text → Option (DiscoveryInfo Address)
  check_parts service_name ip_str port_str timestamp_str =
      if is_empty service_name
      then none
      else if is_empty ip_str
      then none
      else elim (stoi port_str) [
        | none ↦ none
        | some port ↦ elim (stoull timestamp_str) [
          | none ↦ none
          | some timestamp_ms ↦ elim (make_address ip_str) [
            | none ↦ none
            | some address ↦ some (record {
              service_name = service_name;
              ip_address = ip_str;
              port = to_unsigned_short port;
              address = address;
              timestamp_ms = timestamp_ms;
            })
          ]
        ]
      ]

  unfoldable pub parse : Text → Option (DiscoveryInfo Address)
  parse response = elim (find_colon response 0) [
    | none ↦ none
    | some first ↦ elim (find_colon response (first + 1)) [
      | none ↦ none
      | some second ↦ elim (find_colon response (second + 1)) [
        | none ↦ none
        | some third ↦
            check_parts (substr response 0 first) (substr response (first + 1) (second - first - 1))
              (substr response (second + 1) (third - second - 1)) (drop (third + 1) response)
      ]
    ]
  ]
