-- ===== src/Scheduler/Made.antt =====
-- The processes that `init_scheluder` of src/scheluding/scheluder.c makes, for both orders of evaluation.
use mathlib.Core.Path.{subst}
use potatos.Base.{
  All, get_elem?, ℕ, zero, suc, ◌+◌, ◌<◌, ◌≡◌, ◌≢◌, refl, ap, sym, ◌∙◌, true, false, Bool, ◌==◌,
  if◌then◌else◌, arith, some, List, [], ◌∷◌, length,
}
use potatos.Scheduler.{
  Status, Process, CpuStatus, Scheduler, Blocks, update, create_process, add_process, add_all,
}

-- The state with a new process in `slot`.
abbrev pub with_process :
    (slot : ℕ) → Blocks → (name : List ℕ) (entry_point : ℕ) → Scheduler → Scheduler
with_process slot b name entry_point s = record s {
  snapshots = update s.snapshots slot b.process;
  processes =
      update s.processes b.process
        (record (s.processes b.process) { context = b.context; name = name });
  contexts = update s.contexts b.context (record (s.contexts b.context) {
    vector_number = 0;
    error_code = 0;
    iret_rip = entry_point;
    rdi = 0;
    iret_cs = 0x8;
    iret_ss = 0x10;
    iret_rflags = 0x202;
    iret_rsp = b.stack;
    rbp = 0;
  });
  num_tasks = s.num_tasks + 1;
}

-- The slot that the next process is put in.
abbrev pub next_free : (late : Bool) → Scheduler → ℕ
next_free late s = if late then s.num_tasks + 1 else s.num_tasks

add_process_lem :
    (late : Bool) (b : Blocks) (name : List ℕ) (entry_point : ℕ) (s : Scheduler)
    → b.stack ≢ 0
    → add_process late b name entry_point s
      ≡ some (with_process (next_free late s) b name entry_point s)
unfolding add_process create_process
add_process_lem late b name entry_point s granted =
    let e : (b.stack == 0) ≡ false = ground arith in rw (add_process, create_process, e) refl

abbrev pub IsGranted : Blocks × List ℕ × ℕ → Type 0
IsGranted p = p.0.stack ≢ 0

-- No two of the processes, and no two of the contexts, are at the same address.
abbrev pub IsApart : List (Blocks × List ℕ × ℕ) → Type 0
IsApart [] = Unit {0}
IsApart (p ∷ ps) =
    All (λ q. (q.0.process ≢ p.0.process) × (q.0.context ≢ p.0.context)) ps × IsApart ps

-- The process with its name, and with a context that enters it on its own stack. Its status is
-- `old_status`.
pub record IsMade (old_status : Status) (p : Blocks × List ℕ × ℕ) (process : Process)
    (cpu : CpuStatus) : Type 0 where
  pub name : process.name ≡ p.1
  pub context : process.context ≡ p.0.context
  pub status : process.process_status ≡ old_status
  pub entry_point : cpu.iret_rip ≡ p.2
  pub arg : cpu.rdi ≡ 0
  pub stack : cpu.iret_rsp ≡ p.0.stack
  pub frame : cpu.rbp ≡ 0
  pub code_segment : cpu.iret_cs ≡ 0x8
  pub stack_segment : cpu.iret_ss ≡ 0x10
  pub flags : cpu.iret_rflags ≡ 0x202
  pub vector_number : cpu.vector_number ≡ 0
  pub error_code : cpu.error_code ≡ 0

-- The same of the process as it is in `s`.
abbrev pub IsMadeIn : (old_status : Status) → Blocks × List ℕ × ℕ → Scheduler → Type 0
IsMadeIn old_status p s = IsMade old_status p (s.processes p.0.process) (s.contexts p.0.context)

-- What making the processes of a list leaves.
pub record IsFilled (late : Bool) (ps : List (Blocks × List ℕ × ℕ)) (s s' : Scheduler)
    : Type 0 where
  pub tasks : s'.num_tasks ≡ s.num_tasks + length ps
  pub current : s'.current_task ≡ s.current_task
  pub filled :
      (i : ℕ) {p : Blocks × List ℕ × ℕ}
      → get_elem? ps i ≡ some p
      → s'.snapshots (next_free late s + i) ≡ p.0.process
  pub before : (x : ℕ) → x < next_free late s → s'.snapshots x ≡ s.snapshots x
  pub made : All (λ p. IsMadeIn (s.processes p.0.process).process_status p s') ps
  pub others : (x : ℕ) → All (λ p. p.0.process ≢ x) ps → s'.processes x ≡ s.processes x
  pub contexts : (x : ℕ) → All (λ p. p.0.context ≢ x) ps → s'.contexts x ≡ s.contexts x

both_filled :
    (late : Bool) (b : Blocks) (name : List ℕ) (entry_point : ℕ) (rest : List (Blocks × List ℕ × ℕ))
    → (s : Scheduler) {s' : Scheduler}
    → IsFilled late rest (with_process (next_free late s) b name entry_point s) s'
    → (i : ℕ) {p : Blocks × List ℕ × ℕ} → get_elem? ((b, name, entry_point) ∷ rest) i ≡ some p
    → s'.snapshots (next_free late s + i) ≡ p.0.process
both_filled late b name entry_point rest s f zero e = ground (arith, f.before (next_free late s), e)
both_filled late b name entry_point rest s {s'} f (suc i) {p} e =
    let place : next_free late (with_process (next_free late s) b name entry_point s) + i
        ≡ next_free late s + suc i =
      ground arith in
    ap s'.snapshots (sym place) ∙ f.filled i e

All-map :
    {P Q : Blocks × List ℕ × ℕ → Type 0} (ps : List (Blocks × List ℕ × ℕ))
    → ((p : Blocks × List ℕ × ℕ) → P p → Q p)
    → All P ps
    → All Q ps
All-map [] f h = tt
All-map (p ∷ ps) f h = (f p h.0, All-map ps f h.1)

-- The same processes, with their old statuses read elsewhere.
pub IsMade-All :
    {P : Blocks × List ℕ × ℕ → Type 0} (f g : ℕ → Status) (s : Scheduler)
    → (ps : List (Blocks × List ℕ × ℕ))
    → ((p : Blocks × List ℕ × ℕ) → P p → f p.0.process ≡ g p.0.process)
    → All P ps
    → All (λ p. IsMadeIn (f p.0.process) p s) ps
    → All (λ p. IsMadeIn (g p.0.process) p s) ps
IsMade-All f g s [] same h made = tt
IsMade-All f g s (p ∷ ps) same h (m, ms) =
    (subst (λ x. IsMadeIn x p s) (same p h.0) m, IsMade-All f g s ps same h.1 ms)

-- The first process, once the others are made too.
first-IsMade :
    (p : Blocks × List ℕ × ℕ) (slot : ℕ) (s s' : Scheduler)
    → s'.processes p.0.process ≡ (with_process slot p.0 p.1 p.2 s).processes p.0.process
    → s'.contexts p.0.context ≡ (with_process slot p.0 p.1 p.2 s).contexts p.0.context
    → IsMadeIn (s.processes p.0.process).process_status p s'
first-IsMade p slot s s' process context =
    let same : (p.0.process == p.0.process) ≡ true = ground arith in
    let here : (p.0.context == p.0.context) ≡ true = ground arith in
    record {
      name = ap (λ q. q.name) process ∙ rw same refl;
      context = ap (λ q. q.context) process ∙ rw same refl;
      status = ap (λ q. q.process_status) process ∙ rw same refl;
      entry_point = ap (λ c. c.iret_rip) context ∙ rw here refl;
      arg = ap (λ c. c.rdi) context ∙ rw here refl;
      stack = ap (λ c. c.iret_rsp) context ∙ rw here refl;
      frame = ap (λ c. c.rbp) context ∙ rw here refl;
      code_segment = ap (λ c. c.iret_cs) context ∙ rw here refl;
      stack_segment = ap (λ c. c.iret_ss) context ∙ rw here refl;
      flags = ap (λ c. c.iret_rflags) context ∙ rw here refl;
      vector_number = ap (λ c. c.vector_number) context ∙ rw here refl;
      error_code = ap (λ c. c.error_code) context ∙ rw here refl;
    }

-- The fields of a filled list from those of its rest.
IsFilled-cons :
    (late : Bool) (b : Blocks) (name : List ℕ) (entry_point : ℕ) (rest : List (Blocks × List ℕ × ℕ))
    → (s s' : Scheduler) → IsApart ((b, name, entry_point) ∷ rest)
    → IsFilled late rest (with_process (next_free late s) b name entry_point s) s'
    → IsFilled late ((b, name, entry_point) ∷ rest) s s'
IsFilled-cons late b name entry_point rest s s' (apart, aparts) f = record {
  tasks = omega (arith, f.tasks);
  current = f.current;
  filled = both_filled late b name entry_point rest s f;
  before = λ x h. ground (arith, f.before x);
  made = (
    first-IsMade (b, name, entry_point) (next_free late s) s s'
        (f.others b.process (All-map rest (λ q h. h.0) apart))
        (f.contexts b.context (All-map rest (λ q h. h.1) apart)),
    IsMade-All
        (λ x. ((with_process (next_free late s) b name entry_point s).processes x).process_status)
        (λ x. (s.processes x).process_status) s' rest
        (λ q h.
          let other : (b.process == q.0.process) ≡ false = ground (arith, h.0) in rw other refl)
        apart f.made,
  );
  others = λ x h.
      let other : (b.process == x) ≡ false = ground (arith, h.0) in f.others x h.1 ∙ rw other refl;
  contexts = λ x h.
      let other : (b.context == x) ≡ false = ground (arith, h.0) in
      f.contexts x h.1 ∙ rw other refl;
}

pub add_all_lem :
    (late : Bool) (ps : List (Blocks × List ℕ × ℕ)) (s : Scheduler)
    → All IsGranted ps
    → IsApart ps
    → (s' : Scheduler) × (add_all late ps s ≡ some s') × IsFilled late ps s s'
unfolding add_all
add_all_lem late [] s granted apart = (
  s,
  refl,
  record {
    tasks = omega arith;
    current = refl;
    filled = λ i e. absurd (ground (arith, e));
    before = λ x h. refl;
    made = tt;
    others = λ x h. refl;
    contexts = λ x h. refl;
  },
)
add_all_lem late ((b, name, entry_point) ∷ rest) s (h, hs) apart =
    let (s', made, f) =
      add_all_lem late rest (with_process (next_free late s) b name entry_point s) hs apart.1 in
    (
      s',
      rw (add_all, add_process_lem late b name entry_point s h) made,
      IsFilled-cons late b name entry_point rest s s' apart f,
    )
