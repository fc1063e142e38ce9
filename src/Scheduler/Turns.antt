-- ===== src/Scheduler/Turns.antt =====
-- Round robin: the turns that `schelude` of src/scheluding/scheluder.c gives.
use native.Mathlib.Nat.{mod_self, mod-eq_of_lt}
use native.Mathlib.Decide.{dec_lt}
use mathlib.Core.Path.{subst}
use potatos.Base.{
  ℕ, ◌+◌, ◌%◌, ◌<◌, ◌≡◌, ◌≢◌, refl, ap, ◌⊎◌, ◌∙◌, ◌==◌, if◌then◌else◌, arith, some, List, [], ◌∷◌,
  length,
}
use potatos.Scheduler.{ready, running, Process, Scheduler, update, schelude, schelude_all}

-- The process in a slot.
abbrev pub process_at : Scheduler → ℕ → Process
process_at s i = s.processes (s.snapshots i)

-- The slots of the tasks point to different processes.
pub record IsTable (s : Scheduler) : Type 0 where
  pub current : s.current_task < s.num_tasks
  pub distinct :
      (i j : ℕ) → i < s.num_tasks → j < s.num_tasks → s.snapshots i ≡ s.snapshots j → i ≡ j

-- The slot whose turn comes next.
abbrev pub next_slot : Scheduler → ℕ
next_slot s = if s.current_task + 1 == s.num_tasks then 0 else s.current_task + 1

abbrev pub turn : (cur_status : ℕ) → Scheduler → Scheduler
turn cur_status s =
    let current = s.snapshots s.current_task in
    let saved =
      update s.processes current
        (record (s.processes current) { context = cur_status; process_status = ready }) in
    let next = s.snapshots (next_slot s) in
    record s {
      processes = update saved next (record (saved next) { process_status = running });
      current_task = next_slot s;
    }

-- What one call does to the slots.
pub record IsTurn (cur_status : ℕ) (s s' : Scheduler) (context : ℕ) : Type 0 where
  pub slot : s'.current_task ≡ next_slot s
  pub table : s'.snapshots ≡ s.snapshots
  pub tasks : s'.num_tasks ≡ s.num_tasks
  pub resumed :
      context
      ≡ (if next_slot s == s.current_task then cur_status else (process_at s (next_slot s)).context)
  pub contexts :
      (i : ℕ)
      → i < s.num_tasks
      → (process_at s' i).context
        ≡ (if i == s.current_task then cur_status else (process_at s i).context)
  pub statuses :
      (i : ℕ)
      → i < s.num_tasks
      → (process_at s' i).process_status ≡ (
          if i == next_slot s
          then running
          else if i == s.current_task
          then ready
          else (process_at s i).process_status)

pub next_slot_lem :
    (s : Scheduler)
    → s.current_task < s.num_tasks
    → (s.current_task + 1) % s.num_tasks ≡ next_slot s
next_slot_lem s h = elim (dec_lt (s.current_task + 1) s.num_tasks) [
  | yes inner ↦ ground (arith, mod-eq_of_lt inner)
  | no last ↦
      let e : s.current_task + 1 ≡ s.num_tasks = omega arith in
      rw e (ground (arith, mod_self s.num_tasks))
]

next_slot-lt : (s : Scheduler) → s.current_task < s.num_tasks → next_slot s < s.num_tasks
next_slot-lt s h = ground arith

-- The state and the context that a call leaves.
schelude_eq :
    (cur_status : ℕ) (s : Scheduler)
    → s.current_task < s.num_tasks
    → schelude cur_status s
      ≡ some ((process_at (turn cur_status s) (next_slot s)).context, turn cur_status s)
unfolding schelude
schelude_eq cur_status s h = rw (next_slot_lem s h) (ground arith)

turn-IsTurn :
    (cur_status : ℕ) (s : Scheduler)
    → IsTable s
    → IsTurn cur_status s (turn cur_status s) (process_at (turn cur_status s) (next_slot s)).context
turn-IsTurn cur_status s t = record {
  slot = refl;
  table = refl;
  tasks = refl;
  resumed =
      ground (arith, t.distinct (next_slot s) s.current_task (next_slot-lt s t.current) t.current);
  contexts = λ i h. ground (
    arith,
    t.distinct i s.current_task h t.current,
    t.distinct i (next_slot s) h (next_slot-lt s t.current),
  );
  statuses = λ i h. ground (
    arith,
    t.distinct i s.current_task h t.current,
    t.distinct i (next_slot s) h (next_slot-lt s t.current),
  );
}

-- One call on a table of tasks returns: it saves the interrupted context in the current slot, moves
-- on to the next slot in turn and returns the context saved there, marks these two slots `READY` and
-- `RUNNING` and changes no other slot; the table stays well formed.
pub schelude_lem :
    (cur_status : ℕ) (s : Scheduler)
    → IsTable s
    → (context : ℕ) × (s' : Scheduler) × (schelude cur_status s ≡ some (context, s'))
      × IsTurn cur_status s s' context
      × IsTable s'
schelude_lem cur_status s t = (
  (process_at (turn cur_status s) (next_slot s)).context,
  turn cur_status s,
  schelude_eq cur_status s t.current,
  turn-IsTurn cur_status s t,
  record { current = next_slot-lt s t.current; distinct = t.distinct },
)

schelude_all_step :
    (cur_status c : ℕ) (cs : List ℕ) (s : Scheduler) {called : ℕ × Scheduler}
    → schelude cur_status s ≡ some called
    → schelude_all cur_status (c ∷ cs) s ≡ schelude_all c cs called.1
unfolding schelude_all
schelude_all_step cur_status c cs s e = rw (schelude_all, e) refl

-- A context waits in slot `a` until the calls that come reach the slot.
resume :
    (a context cur_status : ℕ) (cs : List ℕ) (s : Scheduler)
    → IsTable s
    → a < s.num_tasks
    → (process_at s a).context ≡ context
    → length cs + 1 < s.num_tasks
    → (s.current_task + (length cs + 1) ≡ a) ⊎ (s.current_task + (length cs + 1) ≡ a + s.num_tasks)
    → (s' : Scheduler) × (schelude_all cur_status cs s ≡ some (context, s'))
      × (s'.current_task ≡ a)
      × IsTable s'
unfolding schelude_all
resume a context cur_status [] s t inside waits few way =
    let (context', s', called, turn, table) = schelude_lem cur_status s t in
    let here : next_slot s ≡ a = ground (arith, t.current) in
    let other : next_slot s ≢ s.current_task = ground (arith, t.current) in
    let found : context' ≡ context =
      ground (arith, turn.resumed, ap (λ i. (process_at s i).context) here) in
    (s', subst (λ k. schelude cur_status s ≡ some (k, s')) found called, turn.slot ∙ here, table)
resume a context cur_status (c ∷ cs) s t inside waits few way =
    let (context', s', called, turn, table) = schelude_lem cur_status s t in
    let (s'', returned, at_slot, ready_table) =
      resume a context c cs s' table (omega (arith, turn.tasks))
        (ground (arith, turn.contexts a inside, t.current)) (omega (arith, turn.tasks))
        (ground (arith, turn.slot, turn.tasks, t.current)) in
    (s'', schelude_all_step cur_status c cs s called ∙ returned, at_slot, ready_table)

-- When there are as many timer interrupts as tasks, the last of them returns the context that the
-- first one interrupted, and its slot is current again.
pub schelude_all_lem :
    (context : ℕ) (cs : List ℕ) (s : Scheduler)
    → IsTable s
    → length cs + 1 ≡ s.num_tasks
    → (s' : Scheduler) × (schelude_all context cs s ≡ some (context, s'))
      × (s'.current_task ≡ s.current_task)
      × IsTable s'
unfolding schelude_all
schelude_all_lem context [] s t round =
    let (context', s', called, turn, table) = schelude_lem context s t in
    let here : next_slot s ≡ s.current_task = ground (arith, t.current) in
    let found : context' ≡ context = ground (arith, turn.resumed) in
    (s', subst (λ k. schelude context s ≡ some (k, s')) found called, turn.slot ∙ here, table)
schelude_all_lem context (c ∷ cs) s t round =
    let (context', s', called, turn, table) = schelude_lem context s t in
    let (s'', returned, at_slot, ready_table) =
      resume s.current_task context c cs s' table (omega (arith, turn.tasks, t.current))
        (ground (arith, turn.contexts s.current_task t.current)) (omega (arith, turn.tasks))
        (ground (arith, turn.slot, turn.tasks, t.current)) in
    (s'', schelude_all_step context c cs s called ∙ returned, at_slot, ready_table)
