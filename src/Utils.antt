-- ===== src/Utils.antt =====
-- src/utils.h: `set_cpu_affinity`, as it is compiled for Linux. An `int32_t` is its 32 bits.
use slicksocket.Base.{ℕ, ◌-◌, ◌%◌, ◌^◌, ◌<◌, ◌≡◌, ◌≢◌, ◌==◌, arith, mod-lt, if◌then◌else◌}

-- What it asks of the system for the thread: nothing, or one processor. `hardware_concurrency` may
-- return 0 where the number is not known, and the remainder by 0 has no defined value.
pub data Pinning : Type 0 where
  unpinned : Pinning
  pinned : ℕ → Pinning
  division_by_zero : Pinning

abbrev pub no_affinity : ℕ
no_affinity = 2 ^ 32 - 1

-- `int32_t % unsigned` takes the signed number for an unsigned one.
pub set_cpu_affinity : ℕ → ℕ → Pinning
set_cpu_affinity hardware_concurrency cpu_affinity =
    if cpu_affinity == no_affinity
    then unpinned
    else if hardware_concurrency == 0
    then division_by_zero
    else pinned (cpu_affinity % hardware_concurrency)

-- On a system that tells how many processors it has, the thread of a service is pinned to one of
-- them, unless -1 is asked for.
pub set_cpu_affinity-pinned :
    (hardware_concurrency cpu_affinity : ℕ)
    → 0 < hardware_concurrency
    → cpu_affinity ≢ no_affinity
    → (cpu : ℕ) × (set_cpu_affinity hardware_concurrency cpu_affinity ≡ pinned cpu)
      × (cpu < hardware_concurrency)
unfolding set_cpu_affinity
set_cpu_affinity-pinned hardware_concurrency cpu_affinity known asked =
    (cpu_affinity % hardware_concurrency, ground (arith, known, asked), mod-lt cpu_affinity known)
