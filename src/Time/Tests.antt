-- ===== src/Time/Tests.antt =====
-- Times at concrete inputs.
use flightos.Common.{◌+◌, ◌-◌, ◌%◌, ◌^◌, ◌≡◌, refl, true, some, arith}
use flightos.Time.{Timespec, add, bug, ns_to_timespec, ktime_to_us, us_to_ktime, ktime_before}
use flightos.Time.Sum.{total, all_times, IsNormal, add_lem}

abbrev early : Timespec
early = record { tv_sec = 1; tv_nsec = 600000000 }

abbrev late : Timespec
late = record { tv_sec = 2; tv_nsec = 700000000 }

add_example :
    (t : Timespec) × (add 2 early late ≡ some t)
    × IsNormal t
    × (total t ≡ (total early + total late) % all_times)
add_example =
    add_lem 2 early late (omega arith) (omega arith, omega arith) (omega arith, omega arith)

-- The bound of `ns_to_timespec` is negative, and every positive time is above it.
one_ns : ns_to_timespec 3 1 ≡ bug
unfolding ns_to_timespec
one_ns = refl

below_zero : ktime_before (2 ^ 64 - 1) 1 ≡ true
unfolding ktime_before
below_zero = refl

back_again : ktime_to_us (us_to_ktime 12345) ≡ 12345
unfolding ktime_to_us us_to_ktime
back_again = refl
