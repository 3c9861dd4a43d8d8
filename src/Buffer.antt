-- ===== src/Buffer.antt =====
-- The programs of apps/q2 and apps/q4 over the buffer that they share. A step of a program is what
-- it does from lock_acquire to lock_release, or to cond_wait: the lock keeps the others out
-- meanwhile. The places of the buffer behind its 64 bytes are in the same shared page.
pub mod Fifo
pub mod Order
pub mod Waiting
pub mod Slots
mod Tests
use ece695os_lab.Prelude.{
  ℕ, zero, suc, ◌+◌, ◌%◌, ◌≡◌, Bool, true, false, not, ◌&&◌, List, [], ◌∷◌, ◌++◌, ◌==◌, ltb,
  if◌then◌else◌, update,
}

-- BUFFER_SIZE and ITEM_SIZE.
abbrev pub buffer_size : ℕ
buffer_size = 64

abbrev pub item_size : ℕ
item_size = 10

-- `circular_buffer`. Both places are an `int` in the source: each round of a program moves at most one
-- of them, by 1, and with at most 32 processes of 10 characters each they stay below 2 ^ 31.
pub record Ring : Type 0 where
  pub head : ℕ
  pub tail : ℕ
  pub chars : ℕ → ℕ

abbrev pub is_full : Ring → Bool
is_full r = (r.head + 1) % buffer_size == r.tail

abbrev pub is_empty : Ring → Bool
is_empty r = r.head == r.tail

-- `cb->char_buf[cb->head++] = c` and `cb->char_buf[cb->tail++]`
pub insert : ℕ → Ring → Ring
insert c r = record r { chars = update r.chars r.head c; head = r.head + 1 }

pub remove : Ring → ℕ × Ring
remove r = (r.chars r.tail, record r { tail = r.tail + 1 })

-- What makeprocs sets up: the places of the buffer are as they were.
abbrev pub empty_ring : (ℕ → ℕ) → Ring
empty_ring chars = record { head = 0; tail = 0; chars = chars }

-- `out_content[i]` of "0123456789"
abbrev pub out_content : ℕ → ℕ
out_content i = 48 + i

-- A producer or a consumer, by its number.
pub data Actor : Type 0 where
  producer consumer : ℕ → Actor

-- What a step prints: the characters that it inserts and that it removes.
pub record Output : Type 0 where
  pub inserted : List ℕ
  pub removed : List ℕ

abbrev pub nothing : Output
nothing = record { inserted = []; removed = [] }

abbrev pub put : ℕ → Output
put c = record { inserted = c ∷ []; removed = [] }

abbrev pub got : ℕ → Output
got c = record { inserted = []; removed = c ∷ [] }

-- The programs of q2, which try again and again. `made` and `taken` are their `out_curr_idx`.
pub record Busy : Type 0 where
  pub ring : Ring
  pub made : ℕ → ℕ
  pub taken : ℕ → ℕ

pub busy_produce : ℕ → Busy → Output × Busy
busy_produce i s =
    let c = out_content (s.made i) in
    if is_full s.ring
    then (nothing, s)
    else (put c, record s { ring = insert c s.ring; made = update s.made i (s.made i + 1) })

pub busy_consume : ℕ → Busy → Output × Busy
busy_consume i s =
    let (c, r) = remove s.ring in
    if is_empty s.ring
    then (nothing, s)
    else (got c, record s { ring = r; taken = update s.taken i (s.taken i + 1) })

abbrev pub busy_step : Actor → Busy → Output × Busy
busy_step (producer i) s = busy_produce i s
busy_step (consumer i) s = busy_consume i s

-- `out_curr_idx < ITEM_SIZE`
abbrev pub busy_runs : Actor → Busy → Bool
busy_runs (producer i) s = ltb (s.made i) item_size
busy_runs (consumer i) s = ltb (s.taken i) item_size

-- Whether a program of q4 is at the head of its loop, in `cond_wait`, or woken up in `cond_wait`.
pub data Phase : Type 0 where
  ready waiting resumed : Phase

-- The programs of q4. `waiters` are the producers that wait for `c_emptyslots`, first to last.
pub record Cond : Type 0 where
  pub ring : Ring
  pub made : ℕ → ℕ
  pub taken : ℕ → ℕ
  pub producers : ℕ → Phase
  pub consumers : ℕ → Phase
  pub waiters : List ℕ

-- Behind the wait, which is not tested again.
abbrev produce_item : ℕ → Cond → Output × Cond
produce_item i s =
    let c = out_content (s.made i) in
    (
      put c,
      record s {
        ring = insert c s.ring;
        made = update s.made i (s.made i + 1);
        producers = update s.producers i ready;
      },
    )

pub cond_produce : ℕ → Cond → Output × Cond
cond_produce i s =
    let asleep = record s {
      producers = update s.producers i waiting;
      waiters = s.waiters ++ i ∷ [];
    } in
    elim (s.producers i) [
      | ready ↦ if is_full s.ring then (nothing, asleep) else produce_item i s
      | waiting ↦ (nothing, s)
      | resumed ↦ produce_item i s
    ]

-- `cond_signal (c_emptyslots)`
abbrev signal_empty : Cond → Cond
signal_empty s = elim (s.waiters) [
  | [] ↦ s
  | j ∷ js ↦ record s { producers = update s.producers j resumed; waiters = js }
]

abbrev consume_item : ℕ → Cond → Output × Cond
consume_item i s =
    let (c, r) = remove s.ring in
    (
      got c,
      signal_empty (record s {
        ring = r;
        taken = update s.taken i (s.taken i + 1);
        consumers = update s.consumers i ready;
      }),
    )

pub cond_consume : ℕ → Cond → Output × Cond
cond_consume i s =
    let asleep = record s { consumers = update s.consumers i waiting } in
    elim (s.consumers i) [
      | ready ↦ if is_empty s.ring then (nothing, asleep) else consume_item i s
      | waiting ↦ (nothing, s)
      | resumed ↦ consume_item i s
    ]

abbrev pub cond_step : Actor → Cond → Output × Cond
cond_step (producer i) s = cond_produce i s
cond_step (consumer i) s = cond_consume i s

abbrev awake : Phase → Bool
awake ready = true
awake waiting = false
awake resumed = true

-- `out_curr_idx < ITEM_SIZE`, and not asleep.
abbrev pub cond_runs : Actor → Cond → Bool
cond_runs (producer i) s = ltb (s.made i) item_size && awake (s.producers i)
cond_runs (consumer i) s = ltb (s.taken i) item_size && awake (s.consumers i)
