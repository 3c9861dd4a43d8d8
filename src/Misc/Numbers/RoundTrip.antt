-- ===== src/Misc/Numbers/RoundTrip.antt =====
-- A number that `ditoa` of os/misc.c writes is the one that `dstrtol` reads.
use ece695os_lab.Prelude.{
  ◌⊎◌, ◌≢◌, sym, ap, ℕ, zero, suc, ◌+◌, ◌-◌, ◌*◌, ◌<◌, ◌≤◌, ◌≡◌, false, some, ltb, update,
  update_self, update-ne, refl, arith, ◌∙◌, ◌==◌, none,
}
use ece695os_lab.Kernel.{is_negative}
use ece695os_lab.Misc.{Bytes}
use ece695os_lab.Misc.Numbers.{
  digit_of, put_digits, read_digits, finish, ditoa, dstrtol, skip_blanks, is_blank,
}
use ece695os_lab.Misc.Numbers.Decimal.{
  ten_to, Digits, first_power_lem, put_digits_lem, Digits-cons, read_digits_none,
}

-- The text of a number stands at `a`.
record Spelled (n a : ℕ) (s : Bytes) : Type 0 where
  size : ℕ
  short : size ≤ 9
  digits : Digits n a size s
  end : s (a + size) ≡ 0

-- The string at `a` in `t`, its end with it, stands at `c` in `s` too.
abbrev pub CopiedString : Bytes → ℕ → Bytes → ℕ → Type 0
CopiedString s c t a = (k : ℕ) → ((j : ℕ) → j < k → t (a + j) ≢ 0) → s (c + k) ≡ t (a + k)

-- What printing a number at `a` makes of a memory: its text, wherever the string is copied to, and
-- nothing else.
record Printed (n a : ℕ) (m t : Bytes) : Type 0 where
  spelled : (s : Bytes) (c : ℕ) → CopiedString s c t a → Spelled n c s
  apart : (b : ℕ) → (b < a) ⊎ (a + 10 ≤ b) → t b ≡ m b

-- A copied string is copied as far as it has no end.
CopiedString-upto :
    (s t : Bytes) (c a size : ℕ)
    → ((k : ℕ) → k < size → 48 ≤ t (a + k))
    → CopiedString s c t a
    → (k : ℕ) → k ≤ size
    → s (c + k) ≡ t (a + k)
CopiedString-upto s t c a size high h k l =
    h k (λ j m z. let e = high j (omega arith) in absurd (omega arith))

ditoa-none : (a fuel : ℕ) (m : Bytes) → (t : Bytes) × (ditoa fuel 0 a m ≡ some t) × Printed 0 a m t
unfolding ditoa finish
ditoa-none a fuel m =
    let t = finish (a + 1) (update m a 48) in
    let first : t (a + 0) ≡ 48 =
      update-ne (update m a 48) (a + 1) 0 (λ e. absurd (omega arith))
      ∙ (let here : a + 0 ≡ a = omega arith in rw here (update_self m a 48)) in
    (
      t,
      refl,
      record {
        spelled = λ s c h.
            let same =
              CopiedString-upto s t c a 1
                (λ k l. let here : k ≡ 0 = omega arith in rw here (omega arith)) h in
            let from : c + 0 ≡ c = omega arith in
            record {
              size = 1;
              short = omega arith;
              digits =
                  Digits-cons 0 0 c 0 0 s (omega arith) refl
                    (ap s (sym from) ∙ (same 0 (omega arith) ∙ first)) (read_digits_none c s);
              end = same 1 (omega arith) ∙ update_self (update m a 48) (a + 1) 0;
            };
        apart = λ b h.
            update-ne (update m a 48) (a + 1) 0 (λ e. absurd (ground arith))
            ∙ update-ne m a 48 (λ e. absurd (ground arith));
      },
    )

put_digits-Printed :
    (n j a fuel : ℕ) (m : Bytes)
    → 0 < n
    → n < ten_to j
    → j ≤ 9
    → 9 < fuel
    → (t : Bytes) × (elim (put_digits fuel n (ten_to j) a m) [
      | none ↦ none
      | some (e, t) ↦ some (finish e t)
    ]
        ≡ some t)
      × Printed n a m t
unfolding finish
put_digits-Printed n zero a fuel m pos small short enough = absurd (omega arith)
put_digits-Printed n (suc i) a fuel m pos small short enough =
    let (t, run, before, high, digits) = put_digits_lem i fuel n a m small (omega arith) in
    let other : (k : ℕ) → k < suc i → update t (a + suc i) 0 (a + k) ≡ t (a + k) =
      λ k l. update-ne t (a + suc i) 0 (λ e. absurd (omega arith)) in
    (
      update t (a + suc i) 0,
      rw run refl,
      record {
        spelled = λ s c h.
            let same =
              CopiedString-upto s (update t (a + suc i) 0) c a (suc i)
                (λ k l. rw (other k l) (high k l)) h in
            record {
              size = suc i;
              short = short;
              digits = digits s c (λ k l. same k (omega arith) ∙ other k l);
              end = same (suc i) (omega arith) ∙ update_self t (a + suc i) 0;
            };
        apart =
            λ b h. update-ne t (a + suc i) 0 (λ e. absurd (ground arith)) ∙ before b (ground arith);
      },
    )

ditoa-Printed :
    (n a fuel : ℕ) (m : Bytes)
    → n < 1000000000
    → 9 < fuel
    → (t : Bytes) × (ditoa fuel n a m ≡ some t) × Printed n a m t
unfolding ditoa
ditoa-Printed zero a fuel m small enough = ditoa-none a fuel m
ditoa-Printed (suc k) a fuel m small enough =
    let n = suc k in
    let (j, short, big, power) = first_power_lem 9 0 n fuel refl (omega arith) small in
    let (t, run, p) = put_digits-Printed n j a fuel m (omega arith) big short enough in
    let not_negative : is_negative n ≡ false = ground arith in
    let not_none : (n == 0) ≡ false = ground arith in
    (t, rw not_negative (rw not_none (rw power run)), p)

read_digits-end :
    (fuel v c : ℕ) (m : Bytes) → m c ≡ 0 → read_digits (suc fuel) 10 v c m ≡ some (v, c)
unfolding read_digits
read_digits-end fuel v c m e =
    let stop : ltb (digit_of (m c)) 10 ≡ false = rw e refl in rw stop refl

read_digits-Spelled :
    (n a fuel left : ℕ) (t : Bytes) (p : Spelled n a t)
    → n < 1000000000
    → fuel ≡ p.size + suc left
    → read_digits fuel 10 0 a t ≡ some (n, a + p.size)
read_digits-Spelled n a fuel left t p small e =
    let from_none : 0 * ten_to p.size + n ≡ n = omega arith in
    rw e (
      p.digits.read (suc left) 0 (omega arith)
      ∙ rw from_none (read_digits-end left n (a + p.size) t p.end))

skip_blanks-digit : (fuel a : ℕ) (t : Bytes) → 0 < fuel → 48 ≤ t a → skip_blanks fuel a t ≡ some a
unfolding skip_blanks
skip_blanks-digit zero a t enough h = absurd (omega arith)
skip_blanks-digit (suc fuel) a t enough h =
    let no_blank : is_blank (t a) ≡ false = ground arith in rw no_blank refl

dstrtol-Spelled :
    (n a fuel : ℕ) (t : Bytes) (p : Spelled n a t)
    → n < 1000000000
    → 10 < fuel
    → dstrtol fuel a 10 t ≡ some (n, a + p.size)
unfolding dstrtol
dstrtol-Spelled n a fuel t p small enough =
    let (low, high) = p.digits.first in
    let start = skip_blanks-digit fuel a t (omega arith) low in
    let some_text : (t a == 0) ≡ false = ground arith in
    let no_sign : (t a == 45) ≡ false = ground arith in
    let number =
      read_digits-Spelled n a fuel (fuel - p.size - 1) t p small (omega (arith, p.short)) in
    rw (start, dstrtol) (rw some_text (rw no_sign (rw number (rw no_sign refl))))

-- The decimal digits that ditoa writes for a number below 10 ^ 9 are read back by dstrtol in base
-- 10 as that number, in place and wherever the string is copied to: with fuel for eleven rounds both
-- end, the reading stops at the end of the text, within ten bytes, and no other byte has changed.
pub dstrtol-ditoa :
    (n a fuel : ℕ) (m : Bytes)
    → n < 1000000000
    → 10 < fuel
    → (t : Bytes) × (ditoa fuel n a m ≡ some t)
      × ((s : Bytes) (c : ℕ)
          → CopiedString s c t a
          → (e : ℕ) × (dstrtol fuel c 10 s ≡ some (n, e)) × (s e ≡ 0) × (c ≤ e) × (e < c + 10))
      × ((b : ℕ) → (b < a) ⊎ (a + 10 ≤ b) → t b ≡ m b)
dstrtol-ditoa n a fuel m small enough =
    let (t, run, p) = ditoa-Printed n a fuel m small (omega arith) in
    (
      t,
      run,
      (λ s c h.
          let q = p.spelled s c h in
          (
            c + q.size,
            dstrtol-Spelled n c fuel s q small enough,
            q.end,
            omega arith,
            omega (arith, q.short),
          )),
      p.apart,
    )
