-- ===== src/Synch/Find.antt =====
-- The search for a free entry that SemCreate, LockCreate and CondCreate of os/synch.c make.
use ece695os_lab.Prelude.{
  ◌==◌, ℕ, zero, suc, ◌+◌, ◌≤◌, ◌<◌, ◌≡◌, inl, inr, Bool, true, false, arith, Bool-cases,
}
use ece695os_lab.Synch.{find_free}

-- The search over `k` entries from `i` on ends at `j`: at the first free entry, or at the end.
pub record Found (is_free : ℕ → Bool) (k i j : ℕ) : Type 0 where
  pub from : i ≤ j
  pub to : j ≤ k + i
  pub used : (a : ℕ) → i ≤ a → a < j → is_free a ≡ false
  pub free : j < k + i → is_free j ≡ true

-- The search ends at the first entry that is free, or at the end when none is.
pub find_free-Found : (is_free : ℕ → Bool) (k i : ℕ) → Found is_free k i (find_free is_free k i)
unfolding find_free
find_free-Found is_free zero i = record {
  from = omega arith;
  to = omega arith;
  used = λ a l h. absurd (omega arith);
  free = λ h. absurd (omega arith);
}
find_free-Found is_free (suc k) i = elim (Bool-cases (is_free i)) [
  | inl e ↦ rw e (record {
    from = omega arith;
    to = omega arith;
    used = λ a l h. absurd (omega arith);
    free = λ h. e;
  })
  | inr e ↦
      let f = find_free-Found is_free k (suc i) in
      let from = f.from in
      let to = f.to in
      rw e (record {
        from = omega arith;
        to = omega arith;
        used = λ a l h. elim (Bool-cases (a == i)) [
          | inl m ↦ let n : a ≡ i = ground arith in rw n e
          | inr m ↦ let n : suc i ≤ a = ground arith in f.used a n h
        ];
        free = λ h. f.free (omega arith);
      })
]
