-- ===== src/MemMove/Fill/Filled.antt =====
-- The functions fill and copy exactly the bytes that they are meant for.
use flightos.Common.{ℕ, ◌+◌, ◌-◌, ◌%◌, ◌≤◌, ◌≡◌, ◌⊎◌, ◌&&◌, ltb, leb, if◌then◌else◌}
use flightos.MemMove.{Memory}

-- The memory in which the `n` bytes from `p` on are `b`.
abbrev pub filled : ℕ → ℕ → ℕ → Memory → Memory
filled p n b m = λ a. if leb p a && ltb a (p + n) then b else m a

-- What the loop that aligns the head leaves.
abbrev pub Aligned : ℕ → ℕ → ℕ → Memory → ℕ × ℕ × Memory → Type 0
Aligned n p b m (n', p', m') =
    (n' ≤ n)
    × (p' ≡ p + (n - n'))
    × ((a : ℕ) → m' a ≡ filled p (n - n') b m a)
    × ((n' ≡ 0) ⊎ (p' % 8 ≡ 0))
