-- ===== src/SocketUtils/Clock.antt =====
-- `get_timestamp_ns` of common/socket_utils.cpp. The performance counter and its frequency are
-- arguments; the product of `QuadPart * 1000000000ULL` is a `uint64_t`.
use native.Mathlib.Nat.{add-div_right}
use win_udpsharded_echo.Prelude.{ℕ, ◌+◌, ◌*◌, ◌/◌, ◌%◌, ◌≤◌, ◌<◌, ◌≡◌, refl, arith, u64_mod}

abbrev pub ns_per_s : ℕ
ns_per_s = 1_000_000_000

pub get_timestamp_ns : ℕ → ℕ → ℕ
get_timestamp_ns counter frequency = (counter * ns_per_s) % u64_mod / frequency

le-div : (a b f : ℕ) → a ≤ b → a / f ≤ b / f
le-div a b f h = grind arith

-- As long as neither product passes 2^64, a later counter gives no earlier timestamp, and the
-- timestamp is the counter's time in nanoseconds, rounded down.
pub get_timestamp_ns_mono :
    (c c' f : ℕ)
    → c ≤ c'
    → c' * ns_per_s < u64_mod
    → (get_timestamp_ns c f ≤ get_timestamp_ns c' f) × (get_timestamp_ns c f ≡ c * ns_per_s / f)
unfolding get_timestamp_ns
get_timestamp_ns_mono c c' f h w =
    let here : (c * ns_per_s) % u64_mod ≡ c * ns_per_s = omega arith in
    let there : (c' * ns_per_s) % u64_mod ≡ c' * ns_per_s = omega arith in
    rw (here, there) (le-div (c * ns_per_s) (c' * ns_per_s) f (omega arith), refl)

lt-div : (a b f : ℕ) → 0 < f → a + f ≤ b → a / f < b / f
lt-div a b f h k = omega (arith, le-div (a + f) b f k, add-div_right a {k = f} h)

-- The tick at which the product first passes 2^64 takes the clock back, at every frequency up to
-- 10 GHz: at 10 MHz it comes 1844 seconds after the counter's start.
pub get_timestamp_ns_wraps :
    (c f : ℕ)
    → c * ns_per_s < u64_mod
    → u64_mod ≤ (c + 1) * ns_per_s
    → 0 < f
    → f ≤ 10_000_000_000
    → get_timestamp_ns (c + 1) f < get_timestamp_ns c f
unfolding get_timestamp_ns
get_timestamp_ns_wraps c f h k pos small =
    lt-div (((c + 1) * ns_per_s) % u64_mod) ((c * ns_per_s) % u64_mod) f pos (omega arith)
