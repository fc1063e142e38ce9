-- ===== src/Scheduler/Marks.antt =====
-- The loop of `init_scheluder` of src/scheluding/scheluder.c that marks slots as dead.
use potatos.Base.{
  ℕ, zero, suc, ◌+◌, ◌-◌, ◌<◌, ◌≡◌, ◌⊎◌, refl, ap, ◌∙◌, Bool, true, false, ◌||◌, ◌==◌,
  if◌then◌else◌, Bool-cases, inl, inr, arith, none, some, [], ◌∷◌,
}
use potatos.Scheduler.{Scheduler, Process, dead, update, dead_loop}

-- Is one of the `left` pointers from slot `i` on `x`?
abbrev pub points : (left i x : ℕ) → (ℕ → ℕ) → Bool
points zero i x snapshots = false
points (suc left) i x snapshots = (snapshots i == x) || points left (i + 1) x snapshots

abbrev pub dead_process : Process
dead_process = record { process_status = dead; name = 58 ∷ 40 ∷ []; context = 0 }

-- The process at `x` once those that the pointers lead to are dead.
abbrev pub marked : (left i : ℕ) → Scheduler → ℕ → Process
marked left i s x = if points left i x s.snapshots then dead_process else s.processes x

-- What the loop leaves.
pub record IsMarked (valid : ℕ → Bool) (left i : ℕ) (s t : Scheduler) : Type 0 where
  pub valid_all : (j : ℕ) → j < left → valid (s.snapshots (i + j)) ≡ true
  pub snapshots : t.snapshots ≡ s.snapshots
  pub contexts : t.contexts ≡ s.contexts
  pub processes : (x : ℕ) → t.processes x ≡ marked left i s x

both :
    (later first : Bool) (p : Process)
    → (if later then dead_process else if first then dead_process else p)
      ≡ (if first || later then dead_process else p)
both true true p = refl
both true false p = refl
both false true p = refl
both false false p = refl

abbrev marked_first : ℕ → Scheduler → Scheduler
marked_first i s = record s { processes = update s.processes (s.snapshots i) dead_process }

IsMarked-suc :
    (valid : ℕ → Bool) (left i : ℕ) (s t : Scheduler)
    → valid (s.snapshots i) ≡ true
    → IsMarked valid left (i + 1) (marked_first i s) t
    → IsMarked valid (suc left) i s t
IsMarked-suc valid left i s t good m = record {
  valid_all = λ j h. elim (Bool-cases (j == 0)) [
    | inl first ↦ let here : i + j ≡ i = ground arith in ap (λ k. valid (s.snapshots k)) here ∙ good
    | inr later ↦
        let there : i + j ≡ i + 1 + (j - 1) = ground arith in
        ap (λ k. valid (s.snapshots k)) there ∙ m.valid_all (j - 1) (ground arith)
  ];
  snapshots = m.snapshots;
  contexts = m.contexts;
  processes = λ x. m.processes x ∙ both (points left (i + 1) x s.snapshots) (s.snapshots i == x) _;
}

-- The loop either marks all slots or meets a pointer that is not valid.
pub dead_loop_lem :
    (valid : ℕ → Bool) (left i : ℕ) (s : Scheduler)
    → ((t : Scheduler) × (dead_loop valid left i s ≡ some t) × IsMarked valid left i s t)
      ⊎ ((j : ℕ) × (j < left)
          × (valid (s.snapshots (i + j)) ≡ false)
          × (dead_loop valid left i s ≡ none))
unfolding dead_loop
dead_loop_lem valid zero i s = inl (
  s,
  refl,
  record {
    valid_all = λ j h. absurd (omega arith);
    snapshots = refl;
    contexts = refl;
    processes = λ x. refl;
  },
)
dead_loop_lem valid (suc left) i s = elim (Bool-cases (valid (s.snapshots i))) [
  | inr bad ↦
      let here : i + 0 ≡ i = omega arith in
      inr (0, omega arith, ap (λ k. valid (s.snapshots k)) here ∙ bad, rw (dead_loop, bad) refl)
  | inl good ↦ elim (dead_loop_lem valid left (i + 1) (marked_first i s)) [
    | inl (t, run, m) ↦ inl (t, rw (dead_loop, good) run, IsMarked-suc valid left i s t good m)
    | inr (j, below, bad, fault) ↦
        let there : i + suc j ≡ i + 1 + j = omega arith in
        inr (
          suc j,
          omega arith,
          ap (λ k. valid (s.snapshots k)) there ∙ bad,
          rw (dead_loop, good) fault,
        )
  ]
]
