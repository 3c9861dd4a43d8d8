-- ===== src/Setup/Tests.antt =====
-- Examples for the programs that create others.
use ece695os_lab.Prelude.{◌+◌, ◌*◌, ◌/◌, ◌≡◌, inl, [], ◌∷◌, length, some, refl, arith}
use ece695os_lab.Misc.Numbers.{dstrtol, ditoa}
use ece695os_lab.Buffer.{buffer_size}
use ece695os_lab.Setup.{number, print_number}
use ece695os_lab.Setup.Sample.{host, texts, session}
use ece695os_lab.Setup.Makeprocs
use ece695os_lab.Setup.Makeprocs.{slots_makeprocs, busy_makeprocs, completed_count}
use ece695os_lab.Setup.Created.{Granted, AreSeparate, Spawned}
use ece695os_lab.Setup.Pairs.{Paired, all_strs, slots_makeprocs-Spawned}
use ece695os_lab.Setup.Krypton
use ece695os_lab.Setup.Krypton.{Inputs, krypton}
use ece695os_lab.Setup.Simulated.{Ready, IsSmall, Simulated, krypton-Simulated}

abbrev at : Makeprocs.Places
at = record {
  argument = 500;
  producer = 600;
  consumer = 620;
  h_mem_str = 700;
  s_procs_completed_str = 710;
  buf_lock_str = 720;
  fullslots_str = 730;
  emptyslots_str = 740;
}

argument_two : dstrtol 11 500 10 texts ≡ some (2, 501)
unfolding dstrtol
argument_two = refl

granted : Granted host 11 at session 2 3 2000 0 1 2
granted = record {
  end = 501;
  w1 = 0;
  w2 = 0;
  w3 = 1;
  argument = argument_two;
  page = refl;
  place = refl;
  completed = refl;
  lock = refl;
  some_page = λ e. absurd (omega arith);
  some_place = λ e. absurd (omega arith);
  some_sem = λ e. absurd (omega arith);
  some_lock = λ e. absurd (omega arith);
}

paired : Paired host 11 at (λ l. host.sem_create 0) (λ l. host.sem_create buffer_size) 1 2 3 2
paired = record {
  w1 = 3;
  w2 = 4;
  full = refl;
  empty = refl;
  some_full = λ e. absurd (omega arith);
  some_empty = λ e. absurd (omega arith);
}

separate : AreSeparate at
separate = record {
  second = omega arith;
  third = omega arith;
  fourth = omega arith;
  fifth = omega arith;
}

slots_makeprocs-Spawned_example :
    Spawned host 11 at session 2
      (all_strs host 11 at)
      (3 ∷ 0 ∷ 1 ∷ 2 ∷ 3 ∷ [])
      (slots_makeprocs host 11 at 2 session)
slots_makeprocs-Spawned_example =
    slots_makeprocs-Spawned host 11 at granted paired (omega arith) (omega arith) (omega arith)
      (omega arith) (omega arith) separate (omega arith)

-- A run of q2 with two pairs creates four programs; with no argument it creates none.
busy_makeprocs_four : length (busy_makeprocs host 11 at 2 session).1.created ≡ 4
unfolding busy_makeprocs number print_number dstrtol ditoa
busy_makeprocs_four = refl

busy_makeprocs_usage : length (busy_makeprocs host 11 at 1 session).1.created ≡ 0
unfolding busy_makeprocs number print_number dstrtol ditoa
busy_makeprocs_usage = refl

completed_count_two : completed_count 2 ≡ 4294967293
completed_count_two = refl

abbrev places : Krypton.Places
places = record { argv = λ k. 498 + 2 * k; names = λ k. 600 + 20 * k; strs = λ k. 1000 + 10 * k }

abbrev inputs : Inputs
inputs = record {
  num_n = 2;
  num_o = 9;
  temperature = 90;
  h_mem = 3;
  s_procs_completed = 0;
  stat_lock = 1;
  n2_ready = 2;
  o2_ready = 3;
  no2_ready = 4;
  o3_ready = 5;
}

argument_nine : dstrtol 11 502 10 texts ≡ some (9, 503)
unfolding dstrtol
argument_nine = refl

argument_ninety : dstrtol 11 504 10 texts ≡ some (90, 506)
unfolding dstrtol
argument_ninety = refl

ready : Ready host 11 places session inputs 6
ready = record {
  e1 = 501;
  e2 = 503;
  e3 = 506;
  stat = 2000;
  w1 = 0;
  w2 = 0;
  w3 = 1;
  w4 = 2;
  w5 = 3;
  w6 = 4;
  w7 = 5;
  argument_n = argument_two;
  argument_o = argument_nine;
  argument_t = argument_ninety;
  page = refl;
  place = refl;
  completed = refl;
  lock = refl;
  n2 = refl;
  o2 = refl;
  no2 = refl;
  o3 = refl;
  some_page = λ e. absurd (omega arith);
  some_place = λ e. absurd (omega arith);
}

small : IsSmall host 11 places inputs
small = record {
  h_mem = omega arith;
  s_procs_completed = omega arith;
  stat_lock = omega arith;
  n2_ready = omega arith;
  o2_ready = omega arith;
  no2_ready = omega arith;
  o3_ready = omega arith;
  num_n = omega arith;
  num_o = omega arith;
  temperature = omega arith;
}

krypton-Simulated_example :
    Simulated host 11 places session inputs (krypton host 11 places (9 / 2 + 1) 4 session)
krypton-Simulated_example =
    krypton-Simulated host 11 places ready small (λ i j h. inl (omega arith)) (omega arith)
