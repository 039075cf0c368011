-- ===== src/MemMove/Tests.antt =====
-- Overlapping copies, and the theorems at them.
use flightos.Common.{ℕ, ◌%◌, ◌≡◌, refl, ◌&&◌, ◌==◌, if◌then◌else◌}
use flightos.MemMove.{Memory, WordCopy, copy_word, memmove_by, memmove}
use flightos.MemMove.Aligned.{Agree, memmove-Agree}
use flightos.MemMove.Fill.{memset}
use flightos.MemMove.Copies.{moved, memmove_lem}

abbrev counting : Memory
counting a = a

-- Sixteen bytes to four bytes further on, from an address that is not aligned.
up : (memmove 105 101 16 counting).1 120 ≡ 116
unfolding memmove
up = refl

down : (memmove 101 105 16 counting).1 101 ≡ 105
unfolding memmove
down = refl

memmove_example :
    let (p, m') = memmove 105 101 16 counting in
    (p ≡ 105) × ((a : ℕ) → m' a ≡ moved 105 101 16 counting a)
memmove_example = memmove_lem 105 101 16 counting

-- A copy of a word that does nothing where an address is not aligned.
abbrev trapping : WordCopy
trapping m d s = if d % 4 == 0 && s % 4 == 0 then copy_word m d s else m

trapping-Agree : Agree copy_word trapping
trapping-Agree m d s e f = rw (e, f) refl

memmove-Agree_example :
    memmove_by copy_word 105 101 16 counting ≡ memmove_by trapping 105 101 16 counting
memmove-Agree_example = memmove-Agree copy_word trapping 105 101 16 counting trapping-Agree

memset_run : (memset 101 511 40 counting).1 117 ≡ 255
unfolding memset
memset_run = refl
