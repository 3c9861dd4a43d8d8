-- ===== src/Reaction/Conserve.antt =====
-- What every step of the programs of apps/q5 keeps: the atoms, and who waits for what.
use ece695os_lab.Prelude.{ℕ, ◌+◌, ◌*◌, ◌/◌, ◌^◌, ◌≤◌, ◌<◌, ◌≡◌, true, false, ◌||◌, arith}
use ece695os_lab.Reaction.{
  waiting, resumed, World, Program, producer_n, producer_o, reaction_1, reaction_2, reaction_3,
  reaction_4, turn, can_move, produce_n, produce_o, react_1, react_2, react_3, react_4, less, cool,
  warm, Guess, start,
}

-- The numbers of atoms, the temperature, and the numbers of the third and the fourth reaction.
pub record Setup : Type 0 where
  pub n : ℕ
  pub o : ℕ
  pub temperature : ℕ
  pub no2 : ℕ
  pub o3 : ℕ

-- The statistics are what the rounds that are done have made of the atoms: no count is negative,
-- and none has wrapped.
pub record Balanced (c : Setup) (w : World) : Type 0 where
  pub n_atoms : w.stat.num_n + w.n_left + 2 * (c.n / 2) ≡ c.n + 2 * w.r1.left
  pub o_atoms : w.stat.num_o + w.o_left + 2 * (c.o / 2) ≡ c.o + 2 * w.r2.left
  pub n2 : w.stat.num_n2 + w.r1.left + c.no2 ≡ c.n / 2 + w.r3.left
  pub o2 :
      w.stat.num_o2 + w.r2.left + 2 * c.no2 + 3 * c.o3 ≡ c.o / 2 + 2 * w.r3.left + 3 * w.r4.left
  pub no2 : w.stat.num_no2 + 2 * w.r3.left ≡ 2 * c.no2
  pub o3 : w.stat.num_o3 + 2 * w.r4.left ≡ 2 * c.o3

-- Who waits does so for a reason, and who was woken up with no further test needs none.
pub record Waits (w : World) : Type 0 where
  pub w1 : w.r1.phase ≡ waiting → (0 < w.r1.left) × (w.stat.num_n < 2)
  pub s1 : w.r1.phase ≡ resumed → (0 < w.r1.left) × (2 ≤ w.stat.num_n)
  pub w2 : w.r2.phase ≡ waiting → (0 < w.r2.left) × (w.stat.num_o < 2)
  pub s2 : w.r2.phase ≡ resumed → (0 < w.r2.left) × (2 ≤ w.stat.num_o)
  pub w3 :
      w.r3.phase ≡ waiting
      → (0 < w.r3.left) × ((less w.stat.num_n2 1 || less w.stat.num_o2 2) ≡ true)
  pub w4 : w.r4.phase ≡ waiting → (0 < w.r4.left) × (w.stat.num_o2 < 3)

-- What the estimate gives for fewer than 2 ^ 31 atoms of each kind: the molecules are enough for
-- the reactions that are asked for, and none of those is asked for that the temperature forbids.
pub record Enough (c : Setup) : Type 0 where
  pub small_n : c.n < 2 ^ 31
  pub small_o : c.o < 2 ^ 31
  pub nitrogen : c.no2 ≤ c.n / 2
  pub oxygen : 2 * c.no2 + 3 * c.o3 ≤ c.o / 2
  pub hot : cool c.temperature ≡ false → c.no2 ≡ 0
  pub cold : warm c.temperature ≡ false → c.o3 ≡ 0

module _ (c : Setup) (e : Enough c) (w : World) (b : Balanced c w) (h : Waits w) where
  produce_n-keeps : can_move producer_n w ≡ true → Balanced c (produce_n w) × Waits (produce_n w)
  unfolding produce_n
  produce_n-keeps m = (
    ground (arith, e.small_n, b.n_atoms, b.o_atoms, b.n2, b.o2, b.no2, b.o3),
    ground (arith, e.small_n, b.n_atoms, h.w1, h.s1, h.w2, h.s2, h.w3, h.w4),
  )

  produce_o-keeps : can_move producer_o w ≡ true → Balanced c (produce_o w) × Waits (produce_o w)
  unfolding produce_o
  produce_o-keeps m = (
    ground (arith, e.small_o, b.n_atoms, b.o_atoms, b.n2, b.o2, b.no2, b.o3),
    ground (arith, e.small_o, b.o_atoms, h.w1, h.s1, h.w2, h.s2, h.w3, h.w4),
  )

  react_1-Balanced : can_move reaction_1 w ≡ true → Balanced c (react_1 w)
  unfolding react_1
  react_1-Balanced m =
      ground (
        arith, e.small_n, e.small_o, e.nitrogen, b.n_atoms, b.o_atoms, b.n2, b.o2, b.no2, b.o3,
        h.s1,
      )

  react_1-Waits : can_move reaction_1 w ≡ true → Waits (react_1 w)
  unfolding react_1
  react_1-Waits m = ground (
    arith, e.small_n, e.small_o, e.nitrogen, b.n_atoms, b.n2, b.o2, b.no2, b.o3, h.w1, h.s1, h.w2,
    h.s2, h.w3, h.w4,
  )

  react_2-Balanced : can_move reaction_2 w ≡ true → Balanced c (react_2 w)
  unfolding react_2
  react_2-Balanced m =
      ground (arith, e.small_o, e.oxygen, b.n_atoms, b.o_atoms, b.n2, b.o2, b.no2, b.o3, h.s2)

  react_2-Waits : can_move reaction_2 w ≡ true → Waits (react_2 w)
  unfolding react_2
  react_2-Waits m = ground (
    arith, e.small_n, e.small_o, e.nitrogen, e.oxygen, b.o_atoms, b.n2, b.o2, b.no2, b.o3, h.w1,
    h.s1, h.w2, h.s2, h.w3, h.w4,
  )

  react_3-Balanced : can_move reaction_3 w ≡ true → Balanced c (react_3 c.temperature w)
  unfolding react_3
  react_3-Balanced m = ground (
    arith, e.small_n, e.small_o, e.nitrogen, e.oxygen, e.hot, b.n_atoms, b.o_atoms, b.n2, b.o2,
    b.no2, b.o3,
  )

  react_3-Waits : can_move reaction_3 w ≡ true → Waits (react_3 c.temperature w)
  unfolding react_3
  react_3-Waits m = ground (
    arith, e.small_n, e.small_o, e.oxygen, e.hot, b.n2, b.o2, b.no2, b.o3, h.w1, h.s1, h.w2, h.s2,
    h.w3, h.w4,
  )

  react_4-Balanced : can_move reaction_4 w ≡ true → Balanced c (react_4 c.temperature w)
  unfolding react_4
  react_4-Balanced m =
      ground (
        arith, e.small_n, e.small_o, e.oxygen, e.cold, b.n_atoms, b.o_atoms, b.n2, b.o2, b.no2,
        b.o3,
      )

  react_4-Waits : can_move reaction_4 w ≡ true → Waits (react_4 c.temperature w)
  unfolding react_4
  react_4-Waits m = ground (
    arith, e.small_n, e.small_o, e.oxygen, e.cold, b.n2, b.o2, b.no2, b.o3, h.w1, h.s1, h.w2, h.s2,
    h.w3, h.w4,
  )

  turn-keeps :
      (p : Program)
      → can_move p w ≡ true
      → Balanced c (turn c.temperature p w) × Waits (turn c.temperature p w)
  unfolding turn
  turn-keeps producer_n m = produce_n-keeps m
  turn-keeps producer_o m = produce_o-keeps m
  turn-keeps reaction_1 m = (react_1-Balanced m, react_1-Waits m)
  turn-keeps reaction_2 m = (react_2-Balanced m, react_2-Waits m)
  turn-keeps reaction_3 m = (react_3-Balanced m, react_3-Waits m)
  turn-keeps reaction_4 m = (react_4-Balanced m, react_4-Waits m)

-- The programs move in any order, as long as each can.
pub data Reach (c : Setup) : World → Type 0 where
  begin : (g : Guess) → g.no2 ≡ c.no2 → g.o3 ≡ c.o3 → Reach c (start c.n c.o g)
  move :
      {w : World} (p : Program) → Reach c w → can_move p w ≡ true → Reach c (turn c.temperature p w)

Reach-keeps : {c : Setup} {w : World} → Enough c → Reach c w → Balanced c w × Waits w
unfolding start
Reach-keeps {c} e (begin g i j) = (
  record {
    n_atoms = omega arith;
    o_atoms = omega arith;
    n2 = omega arith;
    o2 = omega arith;
    no2 = omega arith;
    o3 = omega arith;
  },
  record { w1 = λ q. cc; s1 = λ q. cc; w2 = λ q. cc; s2 = λ q. cc; w3 = λ q. cc; w4 = λ q. cc },
)
Reach-keeps {c} e (move {w} p r m) = let (b, h) = Reach-keeps e r in turn-keeps c e w b h p m

pub Reach-Balanced : {c : Setup} {w : World} → Enough c → Reach c w → Balanced c w
Reach-Balanced e r = (Reach-keeps e r).0

pub Reach-Waits : {c : Setup} {w : World} → Enough c → Reach c w → Waits w
Reach-Waits e r = (Reach-keeps e r).1

-- In every state that the programs reach, in whatever order they move, no atom is lost or made, and
-- every count is below 2 ^ 31: none is negative, and none has wrapped. The conditions are those of
-- `Enough`: there are fewer than 2 ^ 31 atoms of each kind and molecules enough for the reactions
-- that are asked for, and it asks for no third reaction where it is too hot for it and for no
-- fourth where it is too cold.
pub Reach-conserves :
    {c : Setup} {w : World}
    → Enough c
    → Reach c w
    → (w.stat.num_n + 2 * w.stat.num_n2 + w.stat.num_no2 + w.n_left ≡ c.n)
      × (w.stat.num_o + 2 * w.stat.num_o2 + 2 * w.stat.num_no2 + 3 * w.stat.num_o3 + w.o_left ≡ c.o)
      × (w.stat.num_n < 2 ^ 31)
      × (w.stat.num_o < 2 ^ 31)
      × (w.stat.num_n2 < 2 ^ 31)
      × (w.stat.num_o2 < 2 ^ 31)
      × (w.stat.num_no2 < 2 ^ 31)
      × (w.stat.num_o3 < 2 ^ 31)
Reach-conserves {c} {w} e r =
    let b = Reach-Balanced e r in
    ground (arith, e.small_n, e.small_o, b.n_atoms, b.o_atoms, b.n2, b.o2, b.no2, b.o3)
