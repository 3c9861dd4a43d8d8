-- ===== src/Setup/Children/Tests.antt =====
-- Examples for the programs that makeprocs and krypton create.
use ece695os_lab.Prelude.{ℕ, ◌≡◌, [], ◌∷◌, refl}
use ece695os_lab.Misc.Numbers.{dstrtol}
use ece695os_lab.Setup.{returned, exited, number, signal_done}
use ece695os_lab.Setup.Sample.{host, session}
use ece695os_lab.Setup.Children.{
  numbers, start_program, busy_producer_start, busy_consumer_start, slots_producer_start,
  slots_consumer_start, cond_producer_start, cond_consumer_start, producer_n_start,
  producer_o_start, reaction_1_start, reaction_2_start, reaction_3_start, reaction_4_start,
}

-- The programs that are created read all their arguments, here the same one, and attach the page.
abbrev argv_two : ℕ → ℕ
argv_two k = 500

busy_producer_start_twos :
    (busy_producer_start host 11 4 argv_two session).0 ≡ returned (2 ∷ 2 ∷ 2 ∷ [], 2000)
unfolding busy_producer_start start_program numbers number dstrtol
busy_producer_start_twos = refl

busy_consumer_start_twos :
    (busy_consumer_start host 11 4 argv_two session).0 ≡ returned (2 ∷ 2 ∷ 2 ∷ [], 2000)
unfolding busy_consumer_start start_program numbers number dstrtol
busy_consumer_start_twos = refl

slots_producer_start_twos :
    (slots_producer_start host 11 6 argv_two session).0 ≡ returned (2 ∷ 2 ∷ 2 ∷ 2 ∷ 2 ∷ [], 2000)
unfolding slots_producer_start start_program numbers number dstrtol
slots_producer_start_twos = refl

slots_consumer_start_twos :
    (slots_consumer_start host 11 6 argv_two session).0 ≡ returned (2 ∷ 2 ∷ 2 ∷ 2 ∷ 2 ∷ [], 2000)
unfolding slots_consumer_start start_program numbers number dstrtol
slots_consumer_start_twos = refl

cond_producer_start_twos :
    (cond_producer_start host 11 6 argv_two session).0 ≡ returned (2 ∷ 2 ∷ 2 ∷ 2 ∷ 2 ∷ [], 2000)
unfolding cond_producer_start start_program numbers number dstrtol
cond_producer_start_twos = refl

cond_consumer_start_twos :
    (cond_consumer_start host 11 6 argv_two session).0 ≡ returned (2 ∷ 2 ∷ 2 ∷ 2 ∷ 2 ∷ [], 2000)
unfolding cond_consumer_start start_program numbers number dstrtol
cond_consumer_start_twos = refl

producer_n_start_twos :
    (producer_n_start host 11 6 argv_two session).0 ≡ returned (2 ∷ 2 ∷ 2 ∷ 2 ∷ 2 ∷ [], 2000)
unfolding producer_n_start start_program numbers number dstrtol
producer_n_start_twos = refl

producer_o_start_twos :
    (producer_o_start host 11 6 argv_two session).0 ≡ returned (2 ∷ 2 ∷ 2 ∷ 2 ∷ 2 ∷ [], 2000)
unfolding producer_o_start start_program numbers number dstrtol
producer_o_start_twos = refl

reaction_1_start_twos :
    (reaction_1_start host 11 7 argv_two session).0 ≡ returned (2 ∷ 2 ∷ 2 ∷ 2 ∷ 2 ∷ 2 ∷ [], 2000)
unfolding reaction_1_start start_program numbers number dstrtol
reaction_1_start_twos = refl

reaction_2_start_twos :
    (reaction_2_start host 11 8 argv_two session).0
    ≡ returned (2 ∷ 2 ∷ 2 ∷ 2 ∷ 2 ∷ 2 ∷ 2 ∷ [], 2000)
unfolding reaction_2_start start_program numbers number dstrtol
reaction_2_start_twos = refl

reaction_3_start_twos :
    (reaction_3_start host 11 7 argv_two session).0 ≡ returned (2 ∷ 2 ∷ 2 ∷ 2 ∷ 2 ∷ 2 ∷ [], 2000)
unfolding reaction_3_start start_program numbers number dstrtol
reaction_3_start_twos = refl

reaction_4_start_twos :
    (reaction_4_start host 11 7 argv_two session).0 ≡ returned (2 ∷ 2 ∷ 2 ∷ 2 ∷ 2 ∷ 2 ∷ [], 2000)
unfolding reaction_4_start start_program numbers number dstrtol
reaction_4_start_twos = refl

reaction_2_start_usage : (reaction_2_start host 11 7 argv_two session).0 ≡ exited
unfolding reaction_2_start start_program
reaction_2_start_usage = refl

signal_done_returned : (signal_done host 11 0 session).0 ≡ returned tt
unfolding signal_done
signal_done_returned = refl
