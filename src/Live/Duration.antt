-- ===== src/Live/Duration.antt =====
-- The time limit of the live loop.
use pcap_constrictor_afpacke.Base.{ℕ, ◌*◌, ◌≤◌, ◌≡◌, ◌↔◌, true, arith, ◌<◌, false}
use pcap_constrictor_afpacke.Live.{has_elapsed}

-- For every reading of the clock: up to a duration_sec of 9223372036 the limit is reached
-- exactly when that many seconds have passed, and from 9223372037 to 18446744073 it is reached
-- at once.
pub has_elapsed_lem :
    (elapsed duration_sec : ℕ)
    → (duration_sec ≤ 9223372036
        → (has_elapsed elapsed duration_sec ≡ true) ↔ (duration_sec * 1000000000 ≤ elapsed))
      × (9223372037 ≤ duration_sec
          → duration_sec ≤ 18446744073
          → has_elapsed elapsed duration_sec ≡ true)
unfolding has_elapsed
has_elapsed_lem elapsed duration_sec =
    (λ le. (λ h. ground arith, λ h. ground arith), λ ge le. ground arith)

-- The limit as the configuration means it, for as long as it is that.
abbrev pub IsBefore : ℕ → ℕ → Type 0
IsBefore duration_sec elapsed = duration_sec ≤ 9223372036 → elapsed < duration_sec * 1000000000

abbrev pub IsBehind : ℕ → ℕ → Type 0
IsBehind duration_sec elapsed = duration_sec ≤ 9223372036 → duration_sec * 1000000000 ≤ elapsed

pub has_elapsed-IsBefore :
    (elapsed duration_sec : ℕ)
    → has_elapsed elapsed duration_sec ≡ false
    → IsBefore duration_sec elapsed
unfolding has_elapsed
has_elapsed-IsBefore elapsed duration_sec h le = ground (arith, h, le)

pub has_elapsed-IsBehind :
    (elapsed duration_sec : ℕ)
    → has_elapsed elapsed duration_sec ≡ true
    → IsBehind duration_sec elapsed
unfolding has_elapsed
has_elapsed-IsBehind elapsed duration_sec h le = ground (arith, h, le)
