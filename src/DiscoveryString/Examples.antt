-- ===== src/DiscoveryString/Examples.antt =====
-- Texts constructed and parsed, and the theorems at them.
use eestv_lib.Common.{◌^◌, ◌<◌, ◌≡◌, refl, true, false, Option, none, some, arith, if◌then◌else◌}
use eestv_lib.Common.Text.{Text, codes, to_string, is_empty, text_eq}
use eestv_lib.DiscoveryString.{DiscoveryInfo, construct, find_colon, check_parts, parse}
use eestv_lib.DiscoveryString.Numbers.{stoi, stoull, read_number}
use eestv_lib.DiscoveryString.RoundTrip.{has_no_colon, joined, parse-construct, parse-parts}

-- A parser of addresses that knows one.
abbrev one_address : Text → Option Text
one_address text = if text_eq text (codes "10.0.0.1") then some (codes "ten") else none

sample_text :
    construct (codes "svc") (codes "10.0.0.1") 54321 1700000000000
    ≡ codes "svc:10.0.0.1:54321:1700000000000"
unfolding construct to_string
sample_text = refl

abbrev wrapped_info : DiscoveryInfo Text
wrapped_info = record {
  service_name = codes "svc";
  ip_address = codes "10.0.0.1";
  port = 4464;
  address = codes "ten";
  timestamp_ms = 1700000000000;
}

-- 70000 as the port is written as 4464, and is read as 4464 where it is written out.
parse-construct_example :
    (parse one_address (construct (codes "svc") (codes "10.0.0.1") 70000 1700000000000)
      ≡ some wrapped_info)
    × (parse one_address (joined (codes "svc") (codes "10.0.0.1") 70000 1700000000000)
        ≡ some wrapped_info)
parse-construct_example =
    parse-construct one_address (codes "svc") (codes "10.0.0.1") 70000 1700000000000 (codes "ten")
      refl refl refl refl refl (omega arith)

-- A port of 70000 comes back as 4464.
wrapped_port :
    parse one_address (codes "svc:10.0.0.1:70000:5")
    ≡ some (record {
      service_name = codes "svc";
      ip_address = codes "10.0.0.1";
      port = 4464;
      address = codes "ten";
      timestamp_ms = 5;
    })
unfolding parse check_parts find_colon stoi stoull read_number
wrapped_port = refl

-- Text behind the digits is ignored, and a sign is not refused.
loose_numbers :
    parse one_address (codes "svc:10.0.0.1: -1x:+7y:z")
    ≡ some (record {
      service_name = codes "svc";
      ip_address = codes "10.0.0.1";
      port = 65535;
      address = codes "ten";
      timestamp_ms = 7;
    })
unfolding parse check_parts find_colon stoi stoull read_number
loose_numbers = refl

parse-parts_example :
    (has_no_colon (codes "10.0.0.1") ≡ true)
    × (has_no_colon (codes "svc") ≡ true)
    × (is_empty (codes "10.0.0.1") ≡ false)
    × (is_empty (codes "svc") ≡ false)
    × (4464 < 2 ^ 16)
    × (one_address (codes "10.0.0.1") ≡ some (codes "ten"))
parse-parts_example =
    parse-parts one_address (codes "svc:10.0.0.1:70000:5")
      (record {
        service_name = codes "svc";
        ip_address = codes "10.0.0.1";
        port = 4464;
        address = codes "ten";
        timestamp_ms = 5;
      })
      wrapped_port
