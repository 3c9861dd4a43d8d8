-- ===== src/Reaction/Estimate.antt =====
-- The estimate of krypton in apps/q5/krypton/krypton.c ends, and fits the atoms.
use ece695os_lab.Prelude.{
  ℕ, zero, suc, ◌+◌, ◌*◌, ◌/◌, ◌^◌, ◌≤◌, ◌<◌, ◌≡◌, true, false, ◌||◌, some, refl, arith, Bool-cases,
  inl, inr,
}
use ece695os_lab.Reaction.{Guess, guess, guess_no2, guess_o3, can_no2, can_o3, cool, warm}

-- The molecules of the estimate are `a` of N2 and `b` of O2, before the reactions.
pub record Fits (temperature a b : ℕ) (g : Guess) : Type 0 where
  pub nitrogen : g.n2 + g.no2 ≡ a
  pub oxygen : g.o2 + 2 * g.no2 + 3 * g.o3 ≡ b
  pub hot : cool temperature ≡ false → g.no2 ≡ 0
  pub cold : warm temperature ≡ false → g.o3 ≡ 0

abbrev round : ℕ → Guess → Guess
round temperature g = guess_o3 temperature (guess_no2 temperature g)

module _ {temperature a b : ℕ} (na : a < 2 ^ 31) (nb : b < 2 ^ 31) where
  guess_no2-Fits :
      (g : Guess)
      → Fits temperature a b g
      → Fits temperature a b (guess_no2 temperature g) × ((guess_no2 temperature g).o2 ≤ g.o2)
  guess_no2-Fits g f = ground (arith, f.nitrogen, f.oxygen, f.hot, f.cold)

  guess_o3-Fits :
      (g : Guess)
      → Fits temperature a b g
      → Fits temperature a b (guess_o3 temperature g) × ((guess_o3 temperature g).o2 ≤ g.o2)
  guess_o3-Fits g f = ground (arith, f.nitrogen, f.oxygen, f.hot, f.cold)

  guess_no2-lt :
      (g : Guess)
      → Fits temperature a b g
      → can_no2 temperature g ≡ true
      → (guess_no2 temperature g).o2 < g.o2
  guess_no2-lt g f e = ground (arith, f.oxygen)

  guess_o3-lt :
      (g : Guess)
      → Fits temperature a b g
      → can_no2 temperature g ≡ false
      → can_o3 temperature g ≡ true
      → (round temperature g).o2 < g.o2
  guess_o3-lt g f e d = rw e (rw d (ground (arith, f.oxygen)))

  -- A round takes oxygen off.
  round-lt :
      (g : Guess)
      → Fits temperature a b g
      → (can_no2 temperature g || can_o3 temperature g) ≡ true
      → (round temperature g).o2 < g.o2
  round-lt g f e = elim (Bool-cases (can_no2 temperature g)) [
    | inl d ↦
        let (k, small) = guess_no2-Fits g f in
        let (l, le) = guess_o3-Fits (guess_no2 temperature g) k in
        let lt = guess_no2-lt g f d in omega arith
    | inr d ↦ guess_o3-lt g f d (rw d at e)
  ]

  guess-Fits :
      (fuel : ℕ) (g : Guess)
      → g.o2 < fuel
      → Fits temperature a b g
      → (h : Guess) × (guess fuel temperature g ≡ some h)
        × Fits temperature a b h
        × ((can_no2 temperature h || can_o3 temperature h) ≡ false)
  unfolding guess
  guess-Fits zero g enough f = absurd (omega arith)
  guess-Fits (suc fuel) g enough f =
      elim (Bool-cases (can_no2 temperature g || can_o3 temperature g)) [
        | inl e ↦
            let (k, small) = guess_no2-Fits g f in
            let (l, le) = guess_o3-Fits (guess_no2 temperature g) k in
            let lt = round-lt g f e in
            let (h, run, fits, stop) = guess-Fits fuel (round temperature g) (omega arith) l in
            (h, rw e run, fits, stop)
        | inr e ↦ (g, rw e refl, f, e)
      ]

-- The loop of krypton ends on every number of atoms and at every temperature, with a round for each
-- molecule of oxygen and one more: the reactions that it counts have the molecules that they need,
-- none is too hot or too cold to happen, and no further one could happen.
pub guess-ends :
    (n o temperature : ℕ)
    → n < 2 ^ 31
    → o < 2 ^ 31
    → (g : Guess) × (guess
          (o / 2 + 1)
          temperature
          (record { n2 = n / 2; o2 = o / 2; no2 = 0; o3 = 0 })
        ≡ some g)
      × Fits temperature (n / 2) (o / 2) g
      × ((can_no2 temperature g || can_o3 temperature g) ≡ false)
guess-ends n o temperature small_n small_o =
    guess-Fits (omega arith) (omega arith) (o / 2 + 1)
      (record { n2 = n / 2; o2 = o / 2; no2 = 0; o3 = 0 }) (omega arith)
      (record { nitrogen = omega arith; oxygen = omega arith; hot = λ e. refl; cold = λ e. refl })
