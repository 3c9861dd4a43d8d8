-- ===== src/Reaction/Finish.antt =====
-- The programs of apps/q5 always finish.
use ece695os_lab.Prelude.{
  ℕ, suc, ◌+◌, ◌*◌, ◌/◌, ◌%◌, ◌^◌, ◌≤◌, ◌<◌, ◌≡◌, ◌⊎◌, true, false, Option, some, arith, Bool-cases,
  inl, inr,
}
use ece695os_lab.Reaction.{
  ready, waiting, resumed, Worker, World, Program, producer_n, producer_o, reaction_1, reaction_2,
  reaction_3, reaction_4, turn, can_move, produce_n, produce_o, react_1, react_2, react_3, react_4,
  Guess, start, guess,
}
use ece695os_lab.Reaction.Estimate.{Fits, guess-ends}
use ece695os_lab.Reaction.Conserve.{
  Setup, Balanced, Waits, Enough, Reach, begin, move, Reach-Balanced, Reach-Waits,
}

-- The rounds that are left, three for each, and one for each reaction that does not wait.
abbrev awake : Worker → ℕ
awake r = elim r.phase [ ready ↦ 1 | waiting ↦ 0 | resumed ↦ 1 ]

abbrev pub measure : World → ℕ
measure w =
    3 * (w.n_left + w.o_left + w.r1.left + w.r2.left + w.r3.left + w.r4.left)
    + awake w.r1
    + awake w.r2
    + awake w.r3
    + awake w.r4

-- Every step lowers the measure: a round that is done wakes two others up at most.
turn-lowers :
    (temperature : ℕ) (p : Program) (w : World)
    → Waits w
    → can_move p w ≡ true
    → measure (turn temperature p w) < measure w
unfolding turn produce_n produce_o react_1 react_2 react_3 react_4
turn-lowers temperature producer_n w h m = ground arith
turn-lowers temperature producer_o w h m = ground arith
turn-lowers temperature reaction_1 w h m = ground (arith, h.s1)
turn-lowers temperature reaction_2 w h m = ground (arith, h.s2)
turn-lowers temperature reaction_3 w h m = ground arith
turn-lowers temperature reaction_4 w h m = ground arith

-- Everything is done: no program has a round left, and the atoms are in the molecules.
pub record Done (c : Setup) (w : World) : Type 0 where
  pub producers : (w.n_left ≡ 0) × (w.o_left ≡ 0)
  pub reactions : (w.r1.left ≡ 0) × (w.r2.left ≡ 0) × (w.r3.left ≡ 0) × (w.r4.left ≡ 0)
  pub num_n : w.stat.num_n ≡ c.n % 2
  pub num_o : w.stat.num_o ≡ c.o % 2
  pub num_n2 : w.stat.num_n2 + c.no2 ≡ c.n / 2
  pub num_o2 : w.stat.num_o2 + 2 * c.no2 + 3 * c.o3 ≡ c.o / 2
  pub num_no2 : w.stat.num_no2 ≡ 2 * c.no2
  pub num_o3 : w.stat.num_o3 ≡ 2 * c.o3

-- Where no program can move, the invariant leaves none of them a round to make.
module _ (c : Setup) (e : Enough c) (w : World) (b : Balanced c w) (h : Waits w) where
  r1-done :
      can_move producer_n w ≡ false
      → can_move reaction_1 w ≡ false
      → (w.n_left ≡ 0) × (w.r1.left ≡ 0)
  r1-done p q = ground (arith, b.n_atoms, h.w1)

  r2-done :
      can_move producer_o w ≡ false
      → can_move reaction_2 w ≡ false
      → (w.o_left ≡ 0) × (w.r2.left ≡ 0)
  r2-done p q = ground (arith, b.o_atoms, h.w2)

  r4-done : can_move reaction_4 w ≡ false → w.r2.left ≡ 0 → w.r4.left ≡ 0
  r4-done q done = ground (arith, e.small_o, e.oxygen, b.o_atoms, b.o2, h.w4)

  r3-done : can_move reaction_3 w ≡ false → w.r1.left ≡ 0 → w.r2.left ≡ 0 → w.r3.left ≡ 0
  r3-done q done1 done2 =
      ground (arith, e.small_n, e.small_o, e.nitrogen, e.oxygen, b.n2, b.o2, h.w3)

  Done-stuck : ((p : Program) → can_move p w ≡ false) → Done c w
  Done-stuck stuck =
      let (n0, l1) = r1-done (stuck producer_n) (stuck reaction_1) in
      let (o0, l2) = r2-done (stuck producer_o) (stuck reaction_2) in
      let l3 = r3-done (stuck reaction_3) l1 l2 in
      let l4 = r4-done (stuck reaction_4) l2 in
      ground (arith, b.n_atoms, b.o_atoms, b.n2, b.o2, b.no2, b.o3)

-- Whether `p` can move.
abbrev Moves : World → Program → Type 0
Moves w p = (can_move p w ≡ true) ⊎ (can_move p w ≡ false)

can_move-cases :
    (w : World) → ((p : Program) × (can_move p w ≡ true)) ⊎ ((p : Program) → can_move p w ≡ false)
can_move-cases w =
    first_of (Bool-cases (can_move producer_n w)) (Bool-cases (can_move producer_o w))
      (Bool-cases (can_move reaction_1 w)) (Bool-cases (can_move reaction_2 w))
      (Bool-cases (can_move reaction_3 w)) (Bool-cases (can_move reaction_4 w))
  where
    first_of :
        (Moves w producer_n)
        → Moves w producer_o
        → Moves w reaction_1
        → Moves w reaction_2
        → Moves w reaction_3
        → Moves w reaction_4
        → ((p : Program) × (can_move p w ≡ true)) ⊎ ((p : Program) → can_move p w ≡ false)
    first_of (inl h) b c d e f = inl (producer_n, h)
    first_of (inr a) (inl h) c d e f = inl (producer_o, h)
    first_of (inr a) (inr b) (inl h) d e f = inl (reaction_1, h)
    first_of (inr a) (inr b) (inr c) (inl h) e f = inl (reaction_2, h)
    first_of (inr a) (inr b) (inr c) (inr d) (inl h) f = inl (reaction_3, h)
    first_of (inr a) (inr b) (inr c) (inr d) (inr e) (inl h) = inl (reaction_4, h)
    first_of (inr a) (inr b) (inr c) (inr d) (inr e) (inr f) = inr (λ p.
        elim p as (λ k. can_move k w ≡ false) [
          | producer_n ↦ a
          | producer_o ↦ b
          | reaction_1 ↦ c
          | reaction_2 ↦ d
          | reaction_3 ↦ e
          | reaction_4 ↦ f
        ])

-- The number of steps so far.
abbrev pub rounds : {c : Setup} {w : World} → Reach c w → ℕ
rounds (begin g i j) = 0
rounds (move p r m) = suc (rounds r)

-- The rounds of all programs, three for each, and one for each reaction.
abbrev pub bound : Setup → ℕ
bound c = 3 * (c.n + c.o + c.n / 2 + c.o / 2 + c.no2 + c.o3) + 4

rounds-le : {c : Setup} {w : World} → Enough c → (r : Reach c w) → rounds r + measure w ≤ bound c
unfolding start
rounds-le {c} e (begin g i j) = omega (arith, i, j)
rounds-le {c} e (move {w} p r m) =
    omega (arith, rounds-le e r, turn-lowers c.temperature p w (Reach-Waits e r) m)

-- What krypton sets up by its estimate.
abbrev pub setup : ℕ → ℕ → ℕ → Guess → Setup
setup n o temperature g = record { n = n; o = o; temperature = temperature; no2 = g.no2; o3 = g.o3 }

abbrev pub estimate : ℕ → ℕ → ℕ → Option Guess
estimate n o temperature =
    guess (o / 2 + 1) temperature (record { n2 = n / 2; o2 = o / 2; no2 = 0; o3 = 0 })

-- The estimate of krypton is enough for the reactions.
pub estimate-Enough :
    {n o temperature : ℕ} {g : Guess}
    → n < 2 ^ 31
    → o < 2 ^ 31
    → estimate n o temperature ≡ some g
    → Enough (setup n o temperature g)
estimate-Enough {n} {o} {temperature} {g} small_n small_o run =
    let (k, ends, fits, stop) = guess-ends n o temperature small_n small_o in
    let e : k ≡ g = cc in
    let f : Fits temperature (n / 2) (o / 2) g = rw (← e) fits in
    record {
      small_n = small_n;
      small_o = small_o;
      nitrogen = omega (arith, f.nitrogen);
      oxygen = omega (arith, f.oxygen);
      hot = f.hot;
      cold = f.cold;
    }

-- With the estimate of krypton, for every number of atoms below 2 ^ 31 and in whatever order the
-- programs move: they make at most three steps for each round of a loop, and four more; and as long
-- as some round is left, some program can move. So they never all wait, and at the end each loop is
-- done, the reactions have happened as often as estimated, and at most one single atom of each kind
-- is left.
pub Reach-finishes :
    {n o temperature : ℕ} {g : Guess} {w : World}
    → n < 2 ^ 31
    → o < 2 ^ 31
    → estimate n o temperature ≡ some g
    → (r : Reach (setup n o temperature g) w)
    → (rounds r ≤ bound (setup n o temperature g))
      × (((p : Program) × (can_move p w ≡ true)) ⊎ Done (setup n o temperature g) w)
Reach-finishes {n} {o} {temperature} {g} {w} small_n small_o run r =
    let e = estimate-Enough small_n small_o run in
    let le = rounds-le e r in
    (
      omega arith,
      elim (can_move-cases w) [
        | inl p ↦ inl p
        | inr stuck ↦
            inr (
              Done-stuck (setup n o temperature g) e w (Reach-Balanced e r) (Reach-Waits e r) stuck)
      ],
    )
