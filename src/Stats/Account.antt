-- ===== src/Stats/Account.antt =====
-- The tick counters of a task add up to the time that has passed.
use soa_subject.Prelude.{ℕ, ◌+◌, ◌-◌, ◌*◌, ◌%◌, ◌^◌, ◌<◌, ◌≡◌, arith, List, [], ◌∷◌, All, refl, ◌∙◌}
use soa_subject.Stats.{Stats, charge_user, charge_system, charge_ready, init_stats}

-- The kinds of charges, and a history of them with their times.
pub data Charge : Type 0 where
  to_user to_system to_ready : Charge

abbrev pub charge : Charge → ℕ → Stats → Stats
charge to_user now s = charge_user now s
charge to_system now s = charge_system now s
charge to_ready now s = charge_ready now s

pub charges : List (Charge × ℕ) → Stats → Stats
charges [] s = s
charges ((c, now) ∷ rest) s = charges rest (charge c now s)

abbrev pub charged : Stats → ℕ
charged s = s.user_ticks + s.system_ticks + s.blocked_ticks + s.ready_ticks

-- The time that no counter has, which is that of `init_stats`.
abbrev pub start_of : Stats → ℕ
start_of s = (s.elapsed_total_ticks + 2 ^ 32 * 4 - charged s) % 2 ^ 32

-- The counters are 32-bit words.
pub record IsWords (s : Stats) : Type 0 where
  pub user_lt : s.user_ticks < 2 ^ 32
  pub system_lt : s.system_ticks < 2 ^ 32
  pub blocked_lt : s.blocked_ticks < 2 ^ 32
  pub ready_lt : s.ready_ticks < 2 ^ 32
  pub elapsed_lt : s.elapsed_total_ticks < 2 ^ 32

charge_lem :
    (c : Charge) (now : ℕ) (s : Stats)
    → now < 2 ^ 32
    → IsWords s
    → IsWords (charge c now s) × (start_of (charge c now s) ≡ start_of s)
unfolding charge_user charge_system charge_ready
charge_lem to_user now s h w = (omega arith, omega arith)
charge_lem to_system now s h w = (omega arith, omega arith)
charge_lem to_ready now s h w = (omega arith, omega arith)

charges_lem :
    (l : List (Charge × ℕ)) (s : Stats)
    → All (λ e. e.1 < 2 ^ 32) l
    → IsWords s
    → IsWords (charges l s) × (start_of (charges l s) ≡ start_of s)
unfolding charges
charges_lem [] s h w = (w, refl)
charges_lem ((c, now) ∷ l) s h w =
    let (v, e) = charge_lem c now s h.0 w in
    let (v', e') = charges_lem l (charge c now s) h.1 v in (v', e' ∙ e)

total_of :
    (s : Stats) (now : ℕ)
    → IsWords s
    → now < 2 ^ 32
    → start_of s ≡ now
    → (charged s + now) % 2 ^ 32 ≡ s.elapsed_total_ticks
total_of s now w h e = omega arith

-- From `init_stats` on, after any charges, the four counters add up modulo 2 ^ 32 to the time from
-- the reading of `init_stats` to the last charge.
pub charges-total :
    (now now' : ℕ) (l : List (Charge × ℕ))
    → now < 2 ^ 32
    → All (λ e. e.1 < 2 ^ 32) l
    → let s = charges l (init_stats now now') in (charged s + now) % 2 ^ 32 ≡ s.elapsed_total_ticks
charges-total now now' l h k =
    let p = charges_lem l (init_stats now now') k (unfold init_stats in omega arith) in
    total_of _ now p.0 h (p.1 ∙ unfold init_stats in omega arith)
