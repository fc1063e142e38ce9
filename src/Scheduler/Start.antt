-- ===== src/Scheduler/Start.antt =====
-- What `init_scheluder` of src/scheluding/scheluder.c leaves, and when it faults.
use potatos.Base.{
  All, get_elem?, ℕ, ◌+◌, ◌<◌, ◌≡◌, ◌≢◌, ◌⊎◌, refl, ap, ◌∙◌, true, false, Bool, if◌then◌else◌,
  arith, none, some, inl, inr, List, length,
}
use potatos.Scheduler.{Scheduler, Blocks, init_scheluder}
use potatos.Scheduler.Marks.{IsMarked, marked, dead_loop_lem}
use potatos.Scheduler.Made.{IsGranted, IsApart, IsMadeIn, IsFilled, IsMade-All, add_all_lem}

slot : (late : Bool) (i : ℕ) → (if late then i + 1 else i) ≡ (if late then 0 + 1 else 0) + i
slot late i = ground arith

-- The tasks, the slots and the processes that `init_scheluder` leaves.
pub record IsStarted (late : Bool) (ps : List (Blocks × List ℕ × ℕ)) (start s : Scheduler)
    : Type 0 where
  pub tasks : s.num_tasks ≡ length ps
  pub current : s.current_task ≡ 0
  pub filled :
      (i : ℕ) {p : Blocks × List ℕ × ℕ}
      → get_elem? ps i ≡ some p
      → s.snapshots (if late then i + 1 else i) ≡ p.0.process
  pub unset : late ≡ true → s.snapshots 0 ≡ start.snapshots 0
  pub made : All (λ p. IsMadeIn (marked 32 0 start p.0.process).process_status p s) ps
  pub others : (x : ℕ) → All (λ p. p.0.process ≢ x) ps → s.processes x ≡ marked 32 0 start x
  pub contexts : (x : ℕ) → All (λ p. p.0.context ≢ x) ps → s.contexts x ≡ start.contexts x

started :
    (late : Bool) (ps : List (Blocks × List ℕ × ℕ)) (start t s : Scheduler) (valid : ℕ → Bool)
    → All IsGranted ps
    → IsMarked valid 32 0 start t
    → IsFilled late ps (record t { num_tasks = 0 }) s
    → IsStarted late ps start (record s { current_task = 0 })
started late ps start t s valid granted m f = record {
  tasks = omega (arith, f.tasks);
  current = refl;
  filled = λ i {p} e. ap s.snapshots (slot late i) ∙ f.filled i e;
  unset = λ is_late. f.before 0 (rw is_late (omega arith)) ∙ ap (λ t. t 0) m.snapshots;
  made =
      IsMade-All (λ x. (t.processes x).process_status) (λ x. (marked 32 0 start x).process_status) s
        ps (λ p h. ap (λ r. r.process_status) (m.processes p.0.process)) granted f.made;
  others = λ x h. f.others x h ∙ m.processes x;
  contexts = λ x h. f.contexts x h ∙ ap (λ c. c x) m.contexts;
}

-- `init_scheluder`, when kmalloc grants the stacks, and processes and contexts at different addresses,
-- faults if one of the 32 pointers in the memory of the new array is not valid, and returns if they are
-- all valid. It has the given processes as its tasks then, and slot 0 as the current one. Where the
-- index is read before the call, process number `i` is in slot `i`; where it is read after the call,
-- it is in slot `i + 1`, and slot 0 still has the pointer that was in the memory of the array. Each
-- process has its name and a context of its own, which enters it with the argument 0 at the start of
-- its block for the stack, with interrupts on; its status is what was in its
-- memory, or dead if one of the 32 pointers leads there. Every other
-- process that one of the 32 pointers leads to is dead, and no other process or context has changed.
pub init_scheluder_lem :
    (valid : ℕ → Bool) (late : Bool) (ps : List (Blocks × List ℕ × ℕ)) (start : Scheduler)
    → All IsGranted ps
    → IsApart ps
    → ((s : Scheduler) × (init_scheluder valid late ps start ≡ some s)
        × ((i : ℕ) → i < 32 → valid (start.snapshots i) ≡ true)
        × IsStarted late ps start s)
      ⊎ ((i : ℕ) × (i < 32)
          × (valid (start.snapshots i) ≡ false)
          × (init_scheluder valid late ps start ≡ none))
unfolding init_scheluder
init_scheluder_lem valid late ps start granted apart = elim (dead_loop_lem valid 32 0 start) [
  | inr (j, below, bad, fault) ↦ inr (
    j,
    below,
    ap (λ k. valid (start.snapshots k)) (omega arith) ∙ bad,
    rw (init_scheluder, fault) refl,
  )
  | inl (t, marks, m) ↦
      let (s, made, f) = add_all_lem late ps (record t { num_tasks = 0 }) granted apart in
      inl (
        record s { current_task = 0 },
        rw (init_scheluder, marks, made) refl,
        λ i h. ap (λ k. valid (start.snapshots k)) (omega arith) ∙ m.valid_all i h,
        started late ps start t s valid granted m f,
      )
]
