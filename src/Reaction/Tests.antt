-- ===== src/Reaction/Tests.antt =====
-- The programs of apps/q5 on two nitrogen and four oxygen atoms at 100 degrees: one NO2 reaction.
use ece695os_lab.Prelude.{
  ◌+◌, ◌*◌, ◌^◌, ◌≤◌, ◌<◌, ◌≡◌, ◌⊎◌, true, false, ◌||◌, some, none, refl, arith,
}
use ece695os_lab.Reaction.{
  World, waiting, resumed, Program, producer_n, producer_o, reaction_1, reaction_2, reaction_3,
  turn, can_move, start, Guess, guess, can_no2, can_o3, produce_n, produce_o, react_1, react_2,
  react_3, react_4,
}
use ece695os_lab.Reaction.Estimate.{Fits, guess-ends}
use ece695os_lab.Reaction.Conserve.{Setup, Enough, Reach, begin, move, Reach-conserves}
use ece695os_lab.Reaction.Finish.{
  Done, setup, estimate, rounds, bound, estimate-Enough, Reach-finishes,
}

abbrev one_no2 : Guess
one_no2 = record { n2 = 0; o2 = 0; no2 = 1; o3 = 0 }

abbrev small : Setup
small = setup 2 4 100 one_no2

estimate-small : estimate 2 4 100 ≡ some one_no2
unfolding guess
estimate-small = refl

-- At 30 degrees no O3 forms, and at 130 no NO2.
estimate-cold : estimate 4 20 30 ≡ some (record { n2 = 0; o2 = 6; no2 = 2; o3 = 0 })
unfolding guess
estimate-cold = refl

estimate-hot : estimate 4 20 130 ≡ some (record { n2 = 2; o2 = 1; no2 = 0; o3 = 3 })
unfolding guess
estimate-hot = refl

abbrev begun : World
begun = start 2 4 one_no2

-- The third reaction waits, then an oxygen atom appears.
abbrev early : World
early = turn 100 producer_o (turn 100 reaction_3 begun)

early-waits : (early.r3.phase ≡ waiting) × (early.stat.num_o ≡ 1)
unfolding turn start
early-waits = (refl, refl)

early-Reach : Reach small early
unfolding start turn
early-Reach = move producer_o (move reaction_3 (begin one_no2 refl refl) refl) refl

-- A whole run: both kinds of atoms, the molecules of each, and the third reaction, which was woken.
abbrev late : World
late = turn 100 reaction_2 (
    turn 100 reaction_2 (
      turn 100 producer_o (
        turn 100 producer_o (
          turn 100 producer_o
            (turn 100 reaction_1 (turn 100 producer_n (turn 100 producer_n early)))))))

late-woken : (late.r3.phase ≡ resumed) × (late.stat.num_n2 ≡ 1) × (late.stat.num_o2 ≡ 2)
unfolding turn start
late-woken = (refl, refl, refl)

finished-stat :
    (turn 100 reaction_3 late).stat
    ≡ record { num_n = 0; num_o = 0; num_n2 = 0; num_o2 = 0; num_no2 = 2; num_o3 = 0 }
unfolding turn start
finished-stat = refl

-- Without enough fuel the estimate has no result.
guess-no_fuel : guess 1 100 (record { n2 = 1; o2 = 2; no2 = 0; o3 = 0 }) ≡ none
unfolding guess
guess-no_fuel = refl

-- The first two reactions wait too, and the fourth.
reactions-wait :
    ((react_1 begun).r1.phase ≡ waiting)
    × ((react_2 begun).r2.phase ≡ waiting)
    × ((react_4 100 begun).r4.phase ≡ waiting)
    × ((react_3 130 begun).r3.left ≡ 0)
    × ((react_4 30 begun).r4.left ≡ 0)
unfolding react_1 react_2 react_3 react_4 start
reactions-wait = (refl, refl, refl, refl, refl)

producers-produce : ((produce_n begun).stat.num_n ≡ 1) × ((produce_o begun).stat.num_o ≡ 1)
unfolding produce_n produce_o start
producers-produce = (refl, refl)

guess-ends_example :
    (g : Guess) × (guess 3 100 (record { n2 = 1; o2 = 2; no2 = 0; o3 = 0 }) ≡ some g)
    × Fits 100 1 2 g
    × ((can_no2 100 g || can_o3 100 g) ≡ false)
guess-ends_example = guess-ends 2 4 100 (omega arith) (omega arith)

small-Enough : Enough small
small-Enough = estimate-Enough (omega arith) (omega arith) estimate-small

Reach-conserves_example :
    (early.stat.num_n + 2 * early.stat.num_n2 + early.stat.num_no2 + early.n_left ≡ 2)
    × (early.stat.num_o
          + 2 * early.stat.num_o2
          + 2 * early.stat.num_no2
          + 3 * early.stat.num_o3
          + early.o_left
        ≡ 4)
    × (early.stat.num_n < 2 ^ 31)
    × (early.stat.num_o < 2 ^ 31)
    × (early.stat.num_n2 < 2 ^ 31)
    × (early.stat.num_o2 < 2 ^ 31)
    × (early.stat.num_no2 < 2 ^ 31)
    × (early.stat.num_o3 < 2 ^ 31)
Reach-conserves_example = Reach-conserves {c = small} {w = early} small-Enough early-Reach

Reach-finishes_example :
    (rounds early-Reach ≤ bound small)
    × (((p : Program) × (can_move p early ≡ true)) ⊎ Done small early)
Reach-finishes_example =
    Reach-finishes {n = 2} {o = 4} {temperature = 100} {g = one_no2} {w = early} (omega arith)
      (omega arith) estimate-small early-Reach
