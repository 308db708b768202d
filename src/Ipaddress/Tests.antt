-- ===== src/Ipaddress/Tests.antt =====
-- Addresses and pools of a small network.
use foris_controller.Prelude.{ℕ, ◌+◌, ◌-◌, ◌%◌, ◌^◌, ◌≤◌, arith, ◌≡◌, refl, true, false}
use foris_controller.Exceptions.{ok}
use foris_controller.Ipaddress.{ip_address, read_mask, check_dynamic_ranges}
use foris_controller.Ipaddress.Ranges.{
  IsUsable, check_dynamic_ranges-IsUsable, check_dynamic_ranges_complete,
}

reads : Unit {0}
unfolding ip_address read_mask check_dynamic_ranges foris_controller.Ipaddress.ip_network
    foris_controller.Ipaddress.contains foris_controller.Ipaddress.plus
    foris_controller.Ipaddress.dynamic_range
reads = tt

runs :
    (ip_address "192.168.1.1" ≡ ok 3232235777)
    × (read_mask "255.255.255.0" ≡ ok 8)
    × (read_mask "24" ≡ ok 8)
    × (check_dynamic_ranges "192.168.1.1" "255.255.255.0" 100 150 ≡ ok true)
    × (check_dynamic_ranges "192.168.1.1" "255.255.255.0" 100 156 ≡ ok false)
    × (check_dynamic_ranges "192.168.1.110" "255.255.255.0" 100 150 ≡ ok false)
unfolding reads
runs = (refl, refl, refl, refl, refl, refl)

pool_accepted : check_dynamic_ranges "192.168.1.1" "255.255.255.0" 100 150 ≡ ok true
pool_accepted = runs.3

check_dynamic_ranges-IsUsable_example :
    IsUsable 3232235777 8 (3232235777 - 3232235777 % 2 ^ 8 + 100 + 7)
check_dynamic_ranges-IsUsable_example =
    check_dynamic_ranges-IsUsable "192.168.1.1" "255.255.255.0" 3232235777 8 100 150 runs.0 runs.1 7
      pool_accepted (omega arith)

-- The pool of the one address 192.168.1.2.
small_pool : (i : ℕ) → i ≤ 0 → IsUsable 3232235777 8 (3232235777 - 3232235777 % 2 ^ 8 + 2 + i)
small_pool i l = record {
  is_address = omega arith;
  in_network = omega arith;
  not_router = λ e. omega arith;
}

check_dynamic_ranges_complete_example :
    check_dynamic_ranges "192.168.1.1" "255.255.255.0" 2 0 ≡ ok true
check_dynamic_ranges_complete_example =
    check_dynamic_ranges_complete "192.168.1.1" "255.255.255.0" 3232235777 8 2 0 runs.0 runs.1
      small_pool
