-- ===== src/Setup/Simulated.antt =====
-- What krypton of apps/q5 creates: the six programs, with the texts of their numbers.
use ece695os_lab.Prelude.{
  ℕ, ◌+◌, ◌-◌, ◌/◌, ◌^◌, ◌<◌, ◌≡◌, ◌≢◌, false, List, [], ◌∷◌, ◌++◌, map, head_or, ◌==◌, length,
  some, refl, arith,
}
use mathlib.Core.List.{append_assoc}
use ece695os_lab.Misc.{Bytes}
use ece695os_lab.Misc.Numbers.{dstrtol}
use ece695os_lab.Synch.{sync_fail}
use ece695os_lab.Reaction.{Guess, guess}
use ece695os_lab.Reaction.Estimate.{guess-ends}
use ece695os_lab.Setup.{User, Traps, Session, Call, Ends, returned, exited, number, process_create}
use ece695os_lab.Setup.Krypton
use ece695os_lab.Setup.Krypton.{
  Places, Inputs, print_all, printed, krypton, estimate, first_guess, clear_stat,
}
use ece695os_lab.Setup.Children.{
  AreCopied, start_program, start_program-attached, producer_n_start, producer_o_start,
  reaction_1_start, reaction_2_start, reaction_3_start, reaction_4_start,
}
use ece695os_lab.Setup.Texts.{IsText, IsShort}
use ece695os_lab.Setup.Created.{wait_for_all-exited}
use ece695os_lab.Setup.Listed.{nth, AreApart, AreArrays, print_all-Listed, numbers-nth}

module _ {W : Type 0} (traps : Traps W) (fuel : ℕ) (at : Places) where
  -- From `c` on, the arguments are the numbers, and the traps give the page and the handles.
  pub record Ready (c : Session W) (x : Inputs) (w : W) : Type 0 where
    pub e1 : ℕ
    pub e2 : ℕ
    pub e3 : ℕ
    pub stat : ℕ
    pub w1 : W
    pub w2 : W
    pub w3 : W
    pub w4 : W
    pub w5 : W
    pub w6 : W
    pub w7 : W
    pub argument_n : dstrtol fuel (at.argv 1) 10 c.memory ≡ some (x.num_n, e1)
    pub argument_o : dstrtol fuel (at.argv 2) 10 c.memory ≡ some (x.num_o, e2)
    pub argument_t : dstrtol fuel (at.argv 3) 10 c.memory ≡ some (x.temperature, e3)
    pub page : traps.shmget c.world ≡ (x.h_mem, w1)
    pub place : traps.shmat x.h_mem w1 ≡ (stat, w2)
    pub completed : traps.sem_create (2 ^ 32 - 5) w2 ≡ (x.s_procs_completed, w3)
    pub lock : traps.lock_create w3 ≡ (x.stat_lock, w4)
    pub n2 : traps.cond_create x.stat_lock w4 ≡ (x.n2_ready, w5)
    pub o2 : traps.cond_create x.stat_lock w5 ≡ (x.o2_ready, w6)
    pub no2 : traps.cond_create x.stat_lock w6 ≡ (x.no2_ready, w7)
    pub o3 : traps.cond_create x.stat_lock w7 ≡ (x.o3_ready, w)
    pub some_page : x.h_mem ≢ 0
    pub some_place : stat ≢ 0

  -- The handles and the arguments have at most nine digits.
  pub record IsSmall (x : Inputs) : Type 0 where
    pub h_mem : IsShort x.h_mem
    pub s_procs_completed : IsShort x.s_procs_completed
    pub stat_lock : IsShort x.stat_lock
    pub n2_ready : IsShort x.n2_ready
    pub o2_ready : IsShort x.o2_ready
    pub no2_ready : IsShort x.no2_ready
    pub o3_ready : IsShort x.o3_ready
    pub num_n : IsShort x.num_n
    pub num_o : IsShort x.num_o
    pub temperature : IsShort x.temperature

  prepare-Ready :
      {c : Session W} {x : Inputs} {w : W} (g : Ready c x w)
      → IsSmall x
      → Krypton.prepare traps fuel at 4 c
        ≡ (returned x, record c { memory = clear_stat g.stat c.memory; world = w })
  unfolding Krypton.prepare number
  prepare-Ready {c} {x} {w} g small =
      let z0 : (x.h_mem == 0) ≡ false = let a = g.some_page in ground arith in
      let z1 : (g.stat == 0) ≡ false = let a = g.some_place in ground arith in
      let z2 : (x.s_procs_completed == sync_fail) ≡ false =
        let a = small.s_procs_completed in ground arith in
      let z3 : (x.stat_lock == sync_fail) ≡ false = let a = small.stat_lock in ground arith in
      let z4 : (x.n2_ready == sync_fail) ≡ false = let a = small.n2_ready in ground arith in
      let z5 : (x.o2_ready == sync_fail) ≡ false = let a = small.o2_ready in ground arith in
      let z6 : (x.no2_ready == sync_fail) ≡ false = let a = small.no2_ready in ground arith in
      let z7 : (x.o3_ready == sync_fail) ≡ false = let a = small.o3_ready in ground arith in
      ground (
        arith, g.argument_n, g.argument_o, g.argument_t, g.page, g.place, g.completed, g.lock, g.n2,
        g.o2, g.no2, g.o3,
      )

  abbrev call : ℕ → List ℕ → Bytes → Call
  call k ks m = record { args = at.names k ∷ map at.strs ks; memory = m }

  -- The six programs, with the arrays that each is given.
  abbrev pub six_calls : Bytes → List Call
  six_calls m =
      call 0 (0 ∷ 1 ∷ 2 ∷ 3 ∷ 7 ∷ []) m
      ∷ call 1 (0 ∷ 1 ∷ 2 ∷ 4 ∷ 8 ∷ []) m
      ∷ call 2 (0 ∷ 1 ∷ 2 ∷ 3 ∷ 5 ∷ 7 ∷ []) m
      ∷ call 3 (0 ∷ 1 ∷ 2 ∷ 4 ∷ 5 ∷ 6 ∷ 8 ∷ []) m
      ∷ call 4 (0 ∷ 1 ∷ 2 ∷ 5 ∷ 9 ∷ 11 ∷ []) m
      ∷ call 5 (0 ∷ 1 ∷ 2 ∷ 6 ∷ 10 ∷ 11 ∷ []) m
      ∷ []

  -- With copies of the texts in these arrays as its arguments a program reads the numbers, whatever
  -- its memory holds else, and attaches the page whose handle is the first of them.
  abbrev pub Reads :
      (Traps W → ℕ → ℕ → (ℕ → ℕ) → User W (List ℕ × ℕ)) → ℕ → Bytes → List ℕ → List ℕ → Type 0
  Reads start argc texts ks ns =
      (d : Session W) (argv : ℕ → ℕ) (page : ℕ) (w : W)
      → AreCopied d.memory argv 1 texts (map at.strs ks)
      → traps.shmat (head_or ns 0) d.world ≡ (page, w)
      → page ≢ 0
      → start traps fuel argc argv d ≡ (returned (ns, page), record d { world = w })

  -- A run that exits after it has created the six programs; `estimated` is the estimate. What each
  -- program reads is written out.
  pub record Simulated (c : Session W) (x : Inputs) (r : Ends (Unit {0}) × Session W) : Type 0 where
    pub estimated : Guess
    pub texts : Bytes
    pub guessed :
        guess
          (x.num_o / 2 + 1)
          x.temperature
          (record { n2 = x.num_n / 2; o2 = x.num_o / 2; no2 = 0; o3 = 0 })
        ≡ some estimated
    pub exits : r.0 ≡ exited
    pub calls : r.1.created ≡ c.created ++ six_calls texts
    pub producer_n :
        Reads producer_n_start 6 texts
          (0 ∷ 1 ∷ 2 ∷ 3 ∷ 7 ∷ [])
          (x.h_mem ∷ x.s_procs_completed ∷ x.stat_lock ∷ x.n2_ready ∷ x.num_n ∷ [])
    pub producer_o :
        Reads producer_o_start 6 texts
          (0 ∷ 1 ∷ 2 ∷ 4 ∷ 8 ∷ [])
          (x.h_mem ∷ x.s_procs_completed ∷ x.stat_lock ∷ x.o2_ready ∷ x.num_o ∷ [])
    pub reaction_1 :
        Reads reaction_1_start 7 texts
          (0 ∷ 1 ∷ 2 ∷ 3 ∷ 5 ∷ 7 ∷ [])
          (x.h_mem ∷ x.s_procs_completed ∷ x.stat_lock ∷ x.n2_ready ∷ x.no2_ready ∷ x.num_n ∷ [])
    pub reaction_2 : Reads reaction_2_start 8 texts (0 ∷ 1 ∷ 2 ∷ 4 ∷ 5 ∷ 6 ∷ 8 ∷ []) (
        x.h_mem ∷ x.s_procs_completed ∷ x.stat_lock ∷ x.o2_ready ∷ x.no2_ready ∷ x.o3_ready
        ∷ x.num_o ∷ [])
    pub reaction_3 : Reads reaction_3_start 7 texts (0 ∷ 1 ∷ 2 ∷ 5 ∷ 9 ∷ 11 ∷ []) (
        x.h_mem ∷ x.s_procs_completed ∷ x.stat_lock ∷ x.no2_ready ∷ estimated.no2 ∷ x.temperature
        ∷ [])
    pub reaction_4 : Reads reaction_4_start 7 texts (0 ∷ 1 ∷ 2 ∷ 6 ∷ 10 ∷ 11 ∷ []) (
        x.h_mem ∷ x.s_procs_completed ∷ x.stat_lock ∷ x.o3_ready ∷ estimated.o3 ∷ x.temperature
        ∷ [])

  attached :
      (vs : List ℕ) (m : Bytes)
      → ((k : ℕ) → k < 12 → IsText fuel (nth vs k) (at.strs k) m)
      → (ks : List ℕ) → AreArrays ks
      → Reads (λ t f. start_program t f (length ks)) (length ks + 1) m ks (map (nth vs) ks)
  attached vs m texts ks ok d argv page w copies attach some_page =
      start_program-attached traps fuel (length ks) argv (map (nth vs) ks) page w d
        (numbers-nth traps fuel at.strs vs m texts ks 1 d argv ok copies) attach some_page

  producer_n-Reads :
      (vs : List ℕ) (m : Bytes)
      → ((k : ℕ) → k < 12 → IsText fuel (nth vs k) (at.strs k) m)
      → Reads producer_n_start 6 m (0 ∷ 1 ∷ 2 ∷ 3 ∷ 7 ∷ []) (map (nth vs) (0 ∷ 1 ∷ 2 ∷ 3 ∷ 7 ∷ []))
  unfolding producer_n_start
  producer_n-Reads vs m texts =
      attached vs m texts (0 ∷ 1 ∷ 2 ∷ 3 ∷ 7 ∷ [])
        (omega arith, (omega arith, (omega arith, (omega arith, (omega arith, tt)))))

  producer_o-Reads :
      (vs : List ℕ) (m : Bytes)
      → ((k : ℕ) → k < 12 → IsText fuel (nth vs k) (at.strs k) m)
      → Reads producer_o_start 6 m (0 ∷ 1 ∷ 2 ∷ 4 ∷ 8 ∷ []) (map (nth vs) (0 ∷ 1 ∷ 2 ∷ 4 ∷ 8 ∷ []))
  unfolding producer_o_start
  producer_o-Reads vs m texts =
      attached vs m texts (0 ∷ 1 ∷ 2 ∷ 4 ∷ 8 ∷ [])
        (omega arith, (omega arith, (omega arith, (omega arith, (omega arith, tt)))))

  reaction_1-Reads :
      (vs : List ℕ) (m : Bytes)
      → ((k : ℕ) → k < 12 → IsText fuel (nth vs k) (at.strs k) m)
      → Reads reaction_1_start 7 m
          (0 ∷ 1 ∷ 2 ∷ 3 ∷ 5 ∷ 7 ∷ [])
          (map (nth vs) (0 ∷ 1 ∷ 2 ∷ 3 ∷ 5 ∷ 7 ∷ []))
  unfolding reaction_1_start
  reaction_1-Reads vs m texts =
      attached vs m texts (0 ∷ 1 ∷ 2 ∷ 3 ∷ 5 ∷ 7 ∷ [])
        (omega arith, (omega arith, (omega arith, (omega arith, (omega arith, (omega arith, tt))))))

  reaction_2-Reads :
      (vs : List ℕ) (m : Bytes)
      → ((k : ℕ) → k < 12 → IsText fuel (nth vs k) (at.strs k) m)
      → Reads reaction_2_start 8 m
          (0 ∷ 1 ∷ 2 ∷ 4 ∷ 5 ∷ 6 ∷ 8 ∷ [])
          (map (nth vs) (0 ∷ 1 ∷ 2 ∷ 4 ∷ 5 ∷ 6 ∷ 8 ∷ []))
  unfolding reaction_2_start
  reaction_2-Reads vs m texts = attached vs m texts (0 ∷ 1 ∷ 2 ∷ 4 ∷ 5 ∷ 6 ∷ 8 ∷ []) (
    omega arith,
    (omega arith, (omega arith, (omega arith, (omega arith, (omega arith, (omega arith, tt)))))),
  )

  reaction_3-Reads :
      (vs : List ℕ) (m : Bytes)
      → ((k : ℕ) → k < 12 → IsText fuel (nth vs k) (at.strs k) m)
      → Reads reaction_3_start 7 m
          (0 ∷ 1 ∷ 2 ∷ 5 ∷ 9 ∷ 11 ∷ [])
          (map (nth vs) (0 ∷ 1 ∷ 2 ∷ 5 ∷ 9 ∷ 11 ∷ []))
  unfolding reaction_3_start
  reaction_3-Reads vs m texts =
      attached vs m texts (0 ∷ 1 ∷ 2 ∷ 5 ∷ 9 ∷ 11 ∷ [])
        (omega arith, (omega arith, (omega arith, (omega arith, (omega arith, (omega arith, tt))))))

  reaction_4-Reads :
      (vs : List ℕ) (m : Bytes)
      → ((k : ℕ) → k < 12 → IsText fuel (nth vs k) (at.strs k) m)
      → Reads reaction_4_start 7 m
          (0 ∷ 1 ∷ 2 ∷ 6 ∷ 10 ∷ 11 ∷ [])
          (map (nth vs) (0 ∷ 1 ∷ 2 ∷ 6 ∷ 10 ∷ 11 ∷ []))
  unfolding reaction_4_start
  reaction_4-Reads vs m texts =
      attached vs m texts (0 ∷ 1 ∷ 2 ∷ 6 ∷ 10 ∷ 11 ∷ [])
        (omega arith, (omega arith, (omega arith, (omega arith, (omega arith, (omega arith, tt))))))

  estimate-returned :
      (rounds : ℕ) (x : Inputs) (g : Guess) (c : Session W)
      → guess rounds x.temperature (first_guess x.num_n x.num_o) ≡ some g
      → estimate traps fuel at rounds x c ≡ (returned g, c)
  unfolding estimate
  estimate-returned rounds x g c e = rw (e, estimate) refl

  -- krypton: when the arguments are numbers and the page and every handle is granted, all of at
  -- most nine digits, its estimate ends; it creates the six programs in order and exits. Wherever
  -- the texts that a program is given are copied to as its arguments, its start reads from them,
  -- in order, the handle of the page, that of the semaphore and that of the lock, then the
  -- handles of the condition variables that it waits for and signals, and the number of its atoms
  -- or its number of reactions of the estimate with the temperature, all written out for each of
  -- the six; and it attaches the page of that handle.
  pub krypton-Simulated :
      {c : Session W} {x : Inputs} {w : W}
      → Ready c x w
      → IsSmall x
      → AreApart at.strs
      → 10 < fuel
      → Simulated c x (krypton traps fuel at (x.num_o / 2 + 1) 4 c)
  unfolding krypton
  krypton-Simulated {c} {x} {w} g small apart enough =
      let e0 = prepare-Ready g small in
      let c1 : Session W = record c { memory = clear_stat g.stat c.memory; world = w } in
      let (hn, ho) : IsShort x.num_n × IsShort x.num_o = (small.num_n, small.num_o) in
      let (e, run, fits, stop) =
        guess-ends x.num_n x.num_o x.temperature (omega arith) (omega arith) in
      let same : first_guess x.num_n x.num_o
          ≡ record { n2 = x.num_n / 2; o2 = x.num_o / 2; no2 = 0; o3 = 0 } =
        ground arith in
      let guessed : guess (x.num_o / 2 + 1) x.temperature (first_guess x.num_n x.num_o) ≡ some e =
        rw same run in
      let e1 = estimate-returned (x.num_o / 2 + 1) x e c1 guessed in
      let few : IsShort e.no2 × IsShort e.o3 =
        (omega (arith, fits.nitrogen), omega (arith, fits.oxygen)) in
      let z = print_all-Listed traps fuel at apart enough (printed x e) 0 c1 (
        small.h_mem,
        (
          small.s_procs_completed,
          (
            small.stat_lock,
            (
              small.n2_ready,
              (
                small.o2_ready,
                (
                  small.no2_ready,
                  (
                    small.o3_ready,
                    (small.num_n, (small.num_o, (few.0, (few.1, (small.temperature, tt))))),
                  ),
                ),
              ),
            ),
          ),
        ),
      ) in
      let from_first : (k : ℕ) → k < 12 → IsText fuel (nth (printed x e) k) (at.strs k) z.texts =
        λ k h. (let place : 0 + k ≡ k = omega arith in let r = z.read k h in rw place at r) in
      let step = λ (k : ℕ) (ks : List ℕ) (d : Session W).
        (process_create traps fuel (at.names k ∷ map at.strs ks) d).1 in
      let d3 : Session W = step 2 (0 ∷ 1 ∷ 2 ∷ 3 ∷ 5 ∷ 7 ∷ []) (
        step 1 (0 ∷ 1 ∷ 2 ∷ 4 ∷ 8 ∷ [])
          (step 0 (0 ∷ 1 ∷ 2 ∷ 3 ∷ 7 ∷ []) (record c1 { memory = z.texts }))) in
      let d6 : Session W =
        step 5 (0 ∷ 1 ∷ 2 ∷ 6 ∷ 10 ∷ 11 ∷ [])
          (step 4 (0 ∷ 1 ∷ 2 ∷ 5 ∷ 9 ∷ 11 ∷ []) (step 3 (0 ∷ 1 ∷ 2 ∷ 4 ∷ 5 ∷ 6 ∷ 8 ∷ []) d3)) in
      let all : d6.created ≡ c.created ++ six_calls z.texts = simp append_assoc refl in
      let e2 = z.run in
      let (e3, e4) = wait_for_all-exited traps fuel x.s_procs_completed d6 in
      record {
        estimated = e;
        texts = z.texts;
        guessed = run;
        exits = ground arith;
        calls = ground arith;
        producer_n = producer_n-Reads (printed x e) z.texts from_first;
        producer_o = producer_o-Reads (printed x e) z.texts from_first;
        reaction_1 = reaction_1-Reads (printed x e) z.texts from_first;
        reaction_2 = reaction_2-Reads (printed x e) z.texts from_first;
        reaction_3 = reaction_3-Reads (printed x e) z.texts from_first;
        reaction_4 = reaction_4-Reads (printed x e) z.texts from_first;
      }
