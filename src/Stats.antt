-- ===== src/Stats.antt =====
-- zeos/p_stats.c, `struct stats` of zeos/include/stats.h, and `get_ticks` of zeos/utils.c.
pub mod Account
use soa_subject.Prelude.{ℕ, ◌+◌, ◌/◌, ◌%◌, ◌^◌, add32, sub32}

pub record Stats : Type 0 where
  pub user_ticks : ℕ
  pub system_ticks : ℕ
  pub blocked_ticks : ℕ
  pub ready_ticks : ℕ
  pub elapsed_total_ticks : ℕ
  pub total_trans : ℕ
  pub remaining_ticks : ℕ

abbrev pub cycles_per_tick : ℕ
cycles_per_tick = 109000

-- What `get_ticks` makes of the 64-bit value that `rdtsc` reads; the result is a 32-bit word.
abbrev pub ticks_of : ℕ → ℕ
ticks_of tsc = tsc / cycles_per_tick % 2 ^ 32

-- `update_stats(v, elapsed)` at the time `now`: the new `*v` and `*elapsed`.
unfoldable pub update_stats : (now v elapsed : ℕ) → ℕ × ℕ
update_stats now v elapsed = (add32 v (sub32 now elapsed), now)

-- `init_stats` at its two readings of the clock.
unfoldable pub init_stats : (now now' : ℕ) → Stats
init_stats now now' = record {
  user_ticks = 0;
  system_ticks = 0;
  blocked_ticks = 0;
  ready_ticks = 0;
  elapsed_total_ticks = now;
  total_trans = 0;
  remaining_ticks = now';
}

-- The calls of `update_stats`, by the counter that they charge.
unfoldable pub charge_user : ℕ → Stats → Stats
unfolding update_stats
charge_user now s =
    let (v, e) = update_stats now s.user_ticks s.elapsed_total_ticks in
    record s { user_ticks = v; elapsed_total_ticks = e }

unfoldable pub charge_system : ℕ → Stats → Stats
unfolding update_stats
charge_system now s =
    let (v, e) = update_stats now s.system_ticks s.elapsed_total_ticks in
    record s { system_ticks = v; elapsed_total_ticks = e }

unfoldable pub charge_ready : ℕ → Stats → Stats
unfolding update_stats
charge_ready now s =
    let (v, e) = update_stats now s.ready_ticks s.elapsed_total_ticks in
    record s { ready_ticks = v; elapsed_total_ticks = e }
