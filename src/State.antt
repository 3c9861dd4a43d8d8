-- ===== src/State.antt =====
-- Routines that change a state and may stop the simulation: `none` is a call of `exitsim`, or the end
-- of the fuel.
use ece695os_lab.Prelude.{Option, none, some}

abbrev pub Step : Type 0 → Type 0 → Type 0
Step S A = S → Option (A × S)

abbrev pub pure : {S A : Type 0} → A → Step S A
pure a s = some (a, s)

module _ {S A B : Type 0} where
  infixl 5 ◌>>=◌ ◌>>◌
  abbrev pub ◌>>=◌ : Step S A → (A → Step S B) → Step S B
  ◌>>=◌ m f s = elim (m s) [ none ↦ none | some (a, t) ↦ f a t ]

  abbrev pub ◌>>◌ : Step S A → Step S B → Step S B
  m >> k = m >>= λ _. k

abbrev pub gets : {S A : Type 0} → (S → A) → Step S A
gets f s = some (f s, s)

abbrev pub modify : {S : Type 0} → (S → S) → Step S (Unit {0})
modify f s = some (tt, f s)

-- A routine that always comes back.
abbrev pub call : {S A : Type 0} → (S → A × S) → Step S A
call f s = some (f s)

-- A value that may be missing.
abbrev pub need : {S A : Type 0} → (S → Option A) → Step S A
need f s = elim (f s) [ none ↦ none | some a ↦ some (a, s) ]
