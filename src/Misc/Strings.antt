-- ===== src/Misc/Strings.antt =====
-- What the string routines of os/misc.c do on strings that end.
use ece695os_lab.Prelude.{
  ℕ, zero, suc, ◌+◌, ◌≤◌, ◌<◌, ◌≡◌, ◌≢◌, ◌⊎◌, inl, inr, false, List, [], ◌∷◌, ◌==◌, none, some,
  refl, arith, ap, has, length, update, update_self, update-ne, ◌∙◌,
}
use ece695os_lab.Misc.{Bytes, dstrcpy, dstrlen, count_chars, dmindex, one_of}

-- The characters of the list stand from `a` on, with the end of the string behind them.
abbrev pub IsString : Bytes → ℕ → List ℕ → Type 0
IsString m a [] = m a ≡ 0
IsString m a (c ∷ cs) = (m a ≡ c) × (c ≢ 0) × IsString m (a + 1) cs

pub IsString-frame :
    (m t : Bytes) (a : ℕ) (cs : List ℕ)
    → ((b : ℕ) → a ≤ b → b ≤ a + length cs → t b ≡ m b)
    → IsString m a cs
    → IsString t a cs
IsString-frame m t a [] same k = same a (omega arith) (omega arith) ∙ k
IsString-frame m t a (c ∷ cs) same (e, n, k) = (
  same a (omega arith) (omega arith) ∙ e,
  n,
  IsString-frame m t (a + 1) cs (λ b l h. same b (omega arith) (omega arith)) k,
)

not_end : (m : Bytes) (a c : ℕ) → m a ≡ c → c ≢ 0 → (m a == 0) ≡ false
not_end m a c e n = ground arith

count_chars-length :
    (cs : List ℕ) (fuel i s : ℕ) (m : Bytes)
    → length cs < fuel
    → IsString m s cs
    → count_chars fuel i s m ≡ some (i + length cs)
unfolding count_chars
count_chars-length cs zero i s m enough k = absurd (omega arith)
count_chars-length [] (suc fuel) i s m enough k = rw k (ap some (omega arith))
count_chars-length (c ∷ cs) (suc fuel) i s m enough (e, n, k) =
    rw (not_end m s c e n, count_chars-length cs fuel (i + 1) (s + 1) m (omega arith) k)
      (ap some (omega arith))

-- `dstrlen` ends on every string that ends, and gives its length.
pub dstrlen-length :
    (cs : List ℕ) (fuel s : ℕ) (m : Bytes)
    → length cs < fuel
    → IsString m s cs
    → dstrlen fuel s m ≡ some (length cs)
unfolding dstrlen
dstrlen-length cs fuel s m enough k =
    count_chars-length cs fuel 0 s m enough k ∙ ap some (omega arith)

-- What a copy of a string to `to` leaves.
record Copied (m t : Bytes) (to : ℕ) (cs : List ℕ) : Type 0 where
  string : IsString t to cs
  before : (a : ℕ) → a < to → t a ≡ m a
  behind : (a : ℕ) → to + length cs < a → t a ≡ m a

-- `dstrcpy` ends on every string that ends and that does not overlap its place: the string stands
-- at its new place too, and no other byte has changed.
dstrcpy-Copied :
    (cs : List ℕ) (fuel to from : ℕ) (m : Bytes)
    → length cs < fuel
    → IsString m from cs
    → (to + length cs < from) ⊎ (from + length cs < to)
    → (t : Bytes) × (dstrcpy fuel to from m ≡ some t) × Copied m t to cs
unfolding dstrcpy
dstrcpy-Copied cs zero to from m enough k apart = absurd (omega arith)
dstrcpy-Copied [] (suc fuel) to from m enough k apart = (
  update m to (m from),
  rw k refl,
  record {
    string = update_self m to (m from) ∙ k;
    before = λ a h. update-ne m to (m from) (λ e. absurd (omega arith));
    behind = λ a h. update-ne m to (m from) (λ e. absurd (omega arith));
  },
)
dstrcpy-Copied (c ∷ cs) (suc fuel) to from m enough (e, n, k) apart =
    let m' = update m to (m from) in
    let away = λ (b : ℕ) (l : from ≤ b) (h : b ≤ from + suc (length cs)).
      update-ne m to (m from) {j = b} (λ e. absurd (omega arith)) in
    let (t, run, z) =
      dstrcpy-Copied cs fuel (to + 1) (from + 1) m' (omega arith)
        (IsString-frame m m' (from + 1) cs (λ b l h. away b (omega arith) (omega arith)) k)
        (elim apart [ inl h ↦ inl (omega arith) | inr h ↦ inr (omega arith) ]) in
    (
      t,
      rw (not_end m from c e n) run,
      record {
        string = (z.before to (omega arith) ∙ (update_self m to (m from) ∙ e), n, z.string);
        before =
            λ a h. z.before a (omega arith) ∙ update-ne m to (m from) (λ e. absurd (omega arith));
        behind =
            λ a h. z.behind a (omega arith) ∙ update-ne m to (m from) (λ e. absurd (omega arith));
      },
    )

one_of-absent :
    (cs : List ℕ) (fuel c s : ℕ) (m : Bytes)
    → IsString m s cs
    → has c cs ≡ false
    → (one_of fuel c s m ≡ none) ⊎ (one_of fuel c s m ≡ some false)
unfolding one_of
one_of-absent cs zero c s m k out = inl refl
one_of-absent [] (suc fuel) c s m k out = inr (rw k refl)
one_of-absent (x ∷ cs) (suc fuel) c s m (e, n, k) out =
    let other : (c == m s) ≡ false = ground arith in
    rw (not_end m s x e n, other) (one_of-absent cs fuel c (s + 1) m k (ground arith))

-- `dmindex` never ends on a string whose first character is none of those that it looks for: no
-- amount of fuel is enough.
pub dmindex-none :
    (cs : List ℕ) (fuel s chars : ℕ) (m : Bytes)
    → m s ≢ 0
    → IsString m chars cs
    → has (m s) cs ≡ false
    → dmindex fuel s chars m ≡ none
unfolding dmindex
dmindex-none cs zero s chars m n k out = refl
dmindex-none cs (suc fuel) s chars m n k out =
    let e : (m s == 0) ≡ false = ground arith in
    elim (one_of-absent cs (suc fuel) (m s) chars m k out) [
      | inl z ↦ rw (e, z) refl
      | inr z ↦ rw (e, z) (dmindex-none cs fuel s chars m n k out)
    ]
