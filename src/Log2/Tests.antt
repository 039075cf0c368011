-- ===== src/Log2/Tests.antt =====
-- Powers of two at concrete words.
use flightos.Common.{◌+◌, ◌^◌, ◌≤◌, ◌<◌, ◌≡◌, refl, arith}
use flightos.Log2.{kfls, ilog2, roundup_pow_of_two}
use flightos.Log2.Bounds.{roundup-ilog2}

kfls_top : kfls 0x80000000 ≡ 32
unfolding kfls
kfls_top = refl

round_up : roundup_pow_of_two 4097 ≡ 8192
unfolding roundup_pow_of_two
round_up = refl

roundup-ilog2_example :
    let k = ilog2 (roundup_pow_of_two 4097) in
    (roundup_pow_of_two 4097 ≡ 2 ^ k) × (4097 ≤ 2 ^ k) × (2 ^ k < 4097 + 4097) × (k < 32)
roundup-ilog2_example = roundup-ilog2 4097 (omega arith) (omega arith)
