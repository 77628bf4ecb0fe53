-- ===== src/Client/Tests.antt =====
-- The digests of client/main.cpp with two workers: a sample of 3 ms from the second one, which it
-- hands over before the merge.
pub mod Worker
pub mod Report
pub mod Boot
pub mod System
use win_udpsharded_echo.Prelude.{◌*◌, ◌+◌, ◌<◌, ◌≤◌, ◌≡◌, refl, List, [], ◌∷◌, true, none, arith}
use win_udpsharded_echo.Float.Fixed.{Fixed, fixed_double, Fixed-IsIeee}
use win_udpsharded_echo.TDigest.Weight.{Holds}
use win_udpsharded_echo.TDigest.Sorting.{insertion_sort, insertion_sort-IsSort}
use win_udpsharded_echo.Cc.Null.{null_congestion_controller}
use win_udpsharded_echo.Pacer.{new_pacer}
use win_udpsharded_echo.Client.Setup.{
  inet, inet6, AddrInfo, is_inet, is_inet6, choose_address, first_of, or_else, head,
  choose_address_lem, per_worker_rate, per_worker_rate_share, per_worker_rate_unlimited,
}
use win_udpsharded_echo.Client.Digests.{
  Digests, empty_digest, post, post_at, post_sample, finish, hand_over, merge_tdigest,
}
use win_udpsharded_echo.Client.Account.{
  Reached, began, sampled, ended, gathered, IsAccounted, Reached-IsAccounted, Reached-drained,
}

abbrev sampled_once : Digests Fixed
sampled_once =
    post 1000 3_000_000 1
      (record { current = none ∷ none ∷ []; posted = []; overall = empty_digest })

abbrev final : Digests Fixed
final = merge_tdigest insertion_sort (finish 1 sampled_once)

sampled_once-Reached : Reached Fixed-IsIeee insertion_sort insertion_sort-IsSort sampled_once 1
sampled_once-Reached = sampled 1000 3_000_000 1 (omega arith) (began 2)

final-Reached : Reached Fixed-IsIeee insertion_sort insertion_sort-IsSort final 1
final-Reached = gathered (ended 1 sampled_once-Reached)

Reached-IsAccounted_example :
    IsAccounted Fixed-IsIeee insertion_sort insertion_sort-IsSort sampled_once 1
Reached-IsAccounted_example =
    Reached-IsAccounted Fixed-IsIeee insertion_sort insertion_sort-IsSort sampled_once-Reached

Reached-drained_example : Holds final.overall 1
unfolding post post_at post_sample finish hand_over merge_tdigest
Reached-drained_example =
    Reached-drained Fixed-IsIeee insertion_sort insertion_sort-IsSort final-Reached (omega arith)
      (refl, (refl, tt)) refl

-- An IPv4 address, then an IPv6 one.
abbrev resolved : List AddrInfo
resolved = record { ai_family = inet; ai_addr = 1 } ∷ record { ai_family = inet6; ai_addr = 2 } ∷ []

per_worker_rate_unlimited_example :
    (new_pacer null_congestion_controller 0 (fixed_double.of_u64 (per_worker_rate 5 8))).unlimited
    ≡ true
per_worker_rate_unlimited_example =
    per_worker_rate_unlimited Fixed-IsIeee null_congestion_controller 5 8 0 (omega arith)
      (omega arith)
