-- ===== src/Reaction.antt =====
-- The programs of apps/q5 over the statistics that they share: the producers, the four reactions,
-- and the estimate of krypton. A step of a program is what it does from lock_acquire to
-- lock_release, or to cond_wait: the lock keeps the others out meanwhile. Each condition variable
-- has one program that waits for it.
pub mod Estimate
pub mod Conserve
pub mod Finish
mod Tests
use ece695os_lab.Prelude.{
  ℕ, zero, suc, ◌+◌, ◌-◌, ◌/◌, ◌%◌, ◌^◌, ◌≡◌, Bool, true, false, not, ◌&&◌, ◌||◌, Option, none,
  some, ◌==◌, ltb, if◌then◌else◌,
}
use ece695os_lab.Kernel.{is_negative}

-- `atmosphere_stat`; an `int` is its bit pattern.
pub record Stat : Type 0 where
  pub num_n : ℕ
  pub num_o : ℕ
  pub num_n2 : ℕ
  pub num_o2 : ℕ
  pub num_no2 : ℕ
  pub num_o3 : ℕ

abbrev pub add32 : ℕ → ℕ → ℕ
add32 a b = (a + b) % 2 ^ 32

abbrev pub sub32 : ℕ → ℕ → ℕ
sub32 a b = (a + 2 ^ 32 - b) % 2 ^ 32

-- `a < k` and `a > k`, for a small `k`.
abbrev pub less : ℕ → ℕ → Bool
less a k = is_negative a || ltb a k

abbrev pub greater : ℕ → ℕ → Bool
greater a k = not (is_negative a) && ltb k a

-- Whether a reaction is at the head of its loop, in `cond_wait`, or woken up in `cond_wait`.
pub data Phase : Type 0 where
  ready waiting resumed : Phase

-- The rounds that are left of the loop of a reaction.
pub record Worker : Type 0 where
  pub left : ℕ
  pub phase : Phase

pub record World : Type 0 where
  pub stat : Stat
  pub n_left : ℕ
  pub o_left : ℕ
  pub r1 : Worker
  pub r2 : Worker
  pub r3 : Worker
  pub r4 : Worker

-- `cond_signal`
abbrev pub wake : Worker → Worker
wake r = record r { phase = elim r.phase [ ready ↦ ready | waiting ↦ resumed | resumed ↦ resumed ] }

abbrev wake_if : Bool → Worker → Worker
wake_if b r = if b then wake r else r

abbrev pub next_round : Worker → Worker
next_round r = record { left = r.left - 1; phase = ready }

abbrev pub sleep : Worker → Worker
sleep r = record r { phase = waiting }

-- The rounds of the producers.
pub produce_n : World → World
produce_n w =
    let s = record w.stat { num_n = add32 w.stat.num_n 1 } in
    record w { stat = s; n_left = w.n_left - 1; r1 = wake_if (greater s.num_n 1) w.r1 }

pub produce_o : World → World
produce_o w =
    let s = record w.stat { num_o = add32 w.stat.num_o 1 } in
    record w { stat = s; o_left = w.o_left - 1; r2 = wake_if (greater s.num_o 1) w.r2 }

-- The condition of the third reaction, as the first two test it.
abbrev pub no2_ready : Stat → Bool
no2_ready s = greater s.num_n2 0 && greater s.num_o2 1

-- Behind the wait. The first two reactions test before they wait, and not again.
abbrev make_n2 : World → World
make_n2 w =
    let s = record w.stat { num_n = sub32 w.stat.num_n 2; num_n2 = add32 w.stat.num_n2 1 } in
    record w { stat = s; r1 = next_round w.r1; r3 = wake_if (no2_ready s) w.r3 }

pub react_1 : World → World
react_1 w = elim w.r1.phase [
  | ready ↦ if less w.stat.num_n 2 then record w { r1 = sleep w.r1 } else make_n2 w
  | waiting ↦ w
  | resumed ↦ make_n2 w
]

abbrev make_o2 : World → World
make_o2 w =
    let s = record w.stat { num_o = sub32 w.stat.num_o 2; num_o2 = add32 w.stat.num_o2 1 } in
    record w {
      stat = s;
      r2 = next_round w.r2;
      r3 = wake_if (no2_ready s) w.r3;
      r4 = wake_if (greater s.num_o2 2) w.r4;
    }

pub react_2 : World → World
react_2 w = elim w.r2.phase [
  | ready ↦ if less w.stat.num_o 2 then record w { r2 = sleep w.r2 } else make_o2 w
  | waiting ↦ w
  | resumed ↦ make_o2 w
]

abbrev make_no2 : World → World
make_no2 w =
    let s = w.stat in
    record w {
      stat = record s {
        num_n2 = sub32 s.num_n2 1;
        num_o2 = sub32 s.num_o2 2;
        num_no2 = add32 s.num_no2 2;
      };
      r3 = next_round w.r3;
    }

-- The loop of the third reaction ends early when it is too hot, that of the fourth when it is too
-- cold.
pub react_3 : ℕ → World → World
react_3 temperature w =
    let test =
      if less w.stat.num_n2 1 || less w.stat.num_o2 2
      then record w { r3 = sleep w.r3 }
      else make_no2 w in
    elim w.r3.phase [
      | ready ↦ if greater temperature 120 then record w { r3 = record w.r3 { left = 0 } } else test
      | waiting ↦ w
      | resumed ↦ test
    ]

abbrev make_o3 : World → World
make_o3 w =
    let s = w.stat in
    record w {
      stat = record s { num_o2 = sub32 s.num_o2 3; num_o3 = add32 s.num_o3 2 };
      r4 = next_round w.r4;
    }

pub react_4 : ℕ → World → World
react_4 temperature w =
    let test = if less w.stat.num_o2 3 then record w { r4 = sleep w.r4 } else make_o3 w in
    elim w.r4.phase [
      | ready ↦ if less temperature 60 then record w { r4 = record w.r4 { left = 0 } } else test
      | waiting ↦ w
      | resumed ↦ test
    ]

-- The six programs, in the order in which krypton creates them.
pub data Program : Type 0 where
  producer_n producer_o reaction_1 reaction_2 reaction_3 reaction_4 : Program

abbrev asleep : Worker → Bool
asleep r = elim r.phase [ ready ↦ false | waiting ↦ true | resumed ↦ false ]

abbrev works : Worker → Bool
works r = not (r.left == 0) && not (asleep r)

-- Whether a program has a step to make: it is in its loop, and does not wait.
abbrev pub can_move : Program → World → Bool
can_move producer_n w = not (w.n_left == 0)
can_move producer_o w = not (w.o_left == 0)
can_move reaction_1 w = works w.r1
can_move reaction_2 w = works w.r2
can_move reaction_3 w = works w.r3
can_move reaction_4 w = works w.r4

pub turn : ℕ → Program → World → World
unfolding produce_n produce_o react_1 react_2 react_3 react_4
turn temperature producer_n w = produce_n w
turn temperature producer_o w = produce_o w
turn temperature reaction_1 w = react_1 w
turn temperature reaction_2 w = react_2 w
turn temperature reaction_3 w = react_3 temperature w
turn temperature reaction_4 w = react_4 temperature w

-- The loop of krypton: how often the third and the fourth reaction happen.
pub record Guess : Type 0 where
  pub n2 : ℕ
  pub o2 : ℕ
  pub no2 : ℕ
  pub o3 : ℕ

-- `temperature_i <= 120` and `temperature_i >= 60`
abbrev pub cool : ℕ → Bool
cool temperature = not (greater temperature 120)

abbrev pub warm : ℕ → Bool
warm temperature = not (less temperature 60)

abbrev pub can_no2 : ℕ → Guess → Bool
can_no2 temperature g = greater g.n2 0 && (greater g.o2 1 && cool temperature)

abbrev pub can_o3 : ℕ → Guess → Bool
can_o3 temperature g = greater g.o2 2 && warm temperature

abbrev guess_no2 : ℕ → Guess → Guess
guess_no2 temperature g =
    if can_no2 temperature g
    then record g { n2 = sub32 g.n2 1; o2 = sub32 g.o2 2; no2 = add32 g.no2 1 }
    else g

abbrev guess_o3 : ℕ → Guess → Guess
guess_o3 temperature g =
    if can_o3 temperature g then record g { o2 = sub32 g.o2 3; o3 = add32 g.o3 1 } else g

-- On fuel; `none` is the end of the fuel.
pub guess : ℕ → ℕ → Guess → Option Guess
guess zero temperature g = none
guess (suc fuel) temperature g =
    let rest = guess fuel temperature (guess_o3 temperature (guess_no2 temperature g)) in
    if can_no2 temperature g || can_o3 temperature g then rest else some g

-- The statistics that krypton sets up, and the loops of the programs that it creates.
pub start : ℕ → ℕ → Guess → World
start n o g = record {
  stat = record { num_n = 0; num_o = 0; num_n2 = 0; num_o2 = 0; num_no2 = 0; num_o3 = 0 };
  n_left = n;
  o_left = o;
  r1 = record { left = n / 2; phase = ready };
  r2 = record { left = o / 2; phase = ready };
  r3 = record { left = g.no2; phase = ready };
  r4 = record { left = g.o3; phase = ready };
}
