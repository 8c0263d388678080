-- ===== src/Proc.antt =====
-- kernel/proc.c: the process table, and the operations that read and change it alone.
-- Addresses are numbers: 0 is the null pointer, `&proc[i]` is `i + 1`, and the other channels that
-- processes sleep on lie above those. Each operation runs as the code does under the locks it takes.
pub mod Wakeup
pub mod Life
pub mod Reaping
pub mod Sharing
pub mod Taking
pub mod Forking
pub mod Tame
pub mod Reparent
pub mod Safe
pub mod Waiting
pub mod Count
mod LifeTests
mod Tests
use intro2os_project.Prelude.{
  ℕ, zero, suc, ◌+◌, ◌-◌, ◌*◌, ◌^◌, Bool, true, false, not, ◌&&◌, ◌||◌, Option, none, some, ◌==◌,
  ltb, if◌then◌else◌, update, u32, u64,
}

-- NPROC, NCPU and NOFILE
abbrev pub nproc : ℕ
nproc = 64

abbrev pub ncpu : ℕ
ncpu = 8

abbrev pub nofile : ℕ
nofile = 16

-- `enum procstate`
pub data State : Type 0 where
  unused used sleeping runnable running zombie : State

-- `struct proc`, less its lock. The registers of `context` and the characters of `name` are numbered.
pub record Proc : Type 0 where
  pub state : State
  pub chan : ℕ
  pub killed : Bool
  pub xstate : ℕ
  pub pid : ℕ
  pub parent : ℕ
  pub kstack : ℕ
  pub sz : ℕ
  pub pagetable : ℕ
  pub trapframe : ℕ
  pub context : ℕ → ℕ
  pub ofile : ℕ → ℕ
  pub cwd : ℕ
  pub name : ℕ → ℕ
  pub trace_mask : ℕ

-- `proc`, `nextpid` and `initproc`
pub record Table : Type 0 where
  pub procs : ℕ → Proc
  pub nextpid : ℕ
  pub initproc : ℕ

abbrev pub ptr : ℕ → ℕ
ptr i = suc i

abbrev pub put : ℕ → Proc → Table → Table
put i p t = record t { procs = update t.procs i p }

abbrev pub is_unused : State → Bool
is_unused State.unused = true
is_unused _ = false

abbrev pub is_sleeping : State → Bool
is_sleeping State.sleeping = true
is_sleeping _ = false

abbrev pub is_runnable : State → Bool
is_runnable State.runnable = true
is_runnable _ = false

abbrev pub is_running : State → Bool
is_running State.running = true
is_running _ = false

abbrev pub is_zombie : State → Bool
is_zombie State.zombie = true
is_zombie _ = false

-- KSTACK: a stack for each process below the trampoline page, each with a guard page.
abbrev pub pgsize : ℕ
pgsize = 4096

abbrev pub maxva : ℕ
maxva = 2 ^ 38

abbrev pub trampoline : ℕ
trampoline = maxva - pgsize

abbrev pub kstack_of : ℕ → ℕ
kstack_of i = trampoline - (i + 1) * 2 * pgsize

-- The loop of `procinit` from process `i` on, with `k` to go.
unfoldable pub procinit_from : ℕ → ℕ → Table → Table
procinit_from i zero t = t
procinit_from i (suc k) t =
    let p = t.procs i in
    procinit_from (i + 1) k (put i (record p { state = State.unused; kstack = kstack_of i }) t)

unfoldable pub procinit : Table → Table
procinit t = procinit_from 0 nproc t

-- `allocpid`
unfoldable pub allocpid : Table → ℕ × Table
allocpid t = (t.nextpid, record t { nextpid = u32 (t.nextpid + 1) })

-- One process in the loop of `wakeup`.
abbrev pub woken : ℕ → Proc → Proc
woken chan p =
    if is_sleeping p.state && p.chan == chan then record p { state = State.runnable } else p

-- One round of the loop of `wakeup`.
unfoldable pub wake_one : ℕ → ℕ → ℕ → Table → Table
wake_one me chan i t = if i == me then t else put i (woken chan (t.procs i)) t

-- The loop of `wakeup` called by process `me` (the index; NPROC if there is none).
unfoldable pub wakeup_from : ℕ → ℕ → ℕ → ℕ → Table → Table
wakeup_from me chan i zero t = t
wakeup_from me chan i (suc k) t = wakeup_from me chan (i + 1) k (wake_one me chan i t)

-- `wakeup`
unfoldable pub wakeup : ℕ → ℕ → Table → Table
wakeup me chan t = wakeup_from me chan 0 nproc t

-- One round of the loop of `reparent`.
unfoldable pub reparent_one : ℕ → ℕ → Table → Table
reparent_one me i t =
    let p = t.procs i in
    if p.parent == ptr me
    then wakeup me t.initproc (put i (record p { parent = t.initproc }) t)
    else t

-- `reparent` of the children of process `me`, which runs it.
unfoldable pub reparent_from : ℕ → ℕ → ℕ → Table → Table
reparent_from me i zero t = t
reparent_from me i (suc k) t = reparent_from me (i + 1) k (reparent_one me i t)

unfoldable pub reparent : ℕ → Table → Table
reparent me t = reparent_from me 0 nproc t

-- What `kill` does to its victim.
abbrev pub struck : Proc → Proc
struck p = record p {
  killed = true;
  state = if is_sleeping p.state then State.runnable else p.state;
}

-- `kill`: whether a process with that pid was found (0 in the code, -1 if not).
unfoldable pub kill_from : ℕ → ℕ → ℕ → Table → Bool × Table
kill_from pid i zero t = (false, t)
kill_from pid i (suc k) t =
    let rest = kill_from pid (i + 1) k t in
    if (t.procs i).pid == pid then (true, put i (struck (t.procs i)) t) else rest

unfoldable pub kill : ℕ → Table → Bool × Table
kill pid t = kill_from pid 0 nproc t

-- `setkilled` and `killed`
unfoldable pub setkilled : ℕ → Table → Table
setkilled i t = let p = t.procs i in put i (record p { killed = true }) t

unfoldable pub killed : ℕ → Table → Bool
killed i t = (t.procs i).killed

-- The loops of `kcollect_nproc` and `kcollect_load`: the processes from `i` on that pass the test.
unfoldable pub count_from : (State → Bool) → (ℕ → Proc) → ℕ → ℕ → ℕ → ℕ
count_from test procs i zero count = count
count_from test procs i (suc k) count =
    count_from test procs (i + 1) k (if test (procs i).state then u64 (count + 1) else count)

-- `kcollect_nproc`: its loop ends at `&proc[NCPU]`.
unfoldable pub kcollect_nproc : Table → ℕ
kcollect_nproc t = count_from (λ s. not (is_unused s)) t.procs 0 ncpu 0

-- `kcollect_load`
unfoldable pub kcollect_load : Table → ℕ
kcollect_load t = count_from (λ s. is_running s || is_runnable s) t.procs 0 nproc 0

-- The critical section of `exit` under `wait_lock`: the children go to init, the parent is woken, and
-- the process becomes a zombie. Then it enters `sched`, which does not return.
unfoldable pub exit_final : ℕ → ℕ → Table → Table
exit_final me status t =
    let t1 = reparent me t in
    let t2 = wakeup me (t1.procs me).parent t1 in
    let p = t2.procs me in put me (record p { xstate = status; state = State.zombie }) t2

-- What the scan of `wait` by process `me` finds from `i` on: a zombie child, or whether it has children.
pub data Scan : Type 0 where
  zombie_at : ℕ → Scan
  no_zombie : Bool → Scan

unfoldable pub scan_children : (ℕ → Proc) → ℕ → ℕ → ℕ → Bool → Scan
scan_children procs me i zero havekids = no_zombie havekids
scan_children procs me i (suc k) havekids =
    let p = procs i in
    let rest = scan_children procs me (i + 1) k in
    if p.parent == ptr me
    then (if is_zombie p.state then zombie_at i else rest true)
    else rest havekids

-- A process with the fields that `freeproc` clears.
abbrev pub cleared : Proc → Proc
cleared p = record p {
  trapframe = 0;
  pagetable = 0;
  sz = 0;
  pid = 0;
  parent = 0;
  name = update p.name 0 0;
  chan = 0;
  killed = false;
  xstate = 0;
  state = State.unused;
}

-- `sleep` up to `sched`, and behind it.
unfoldable pub sleep_on : ℕ → ℕ → Table → Table
sleep_on me chan t =
    let p = t.procs me in put me (record p { chan = chan; state = State.sleeping }) t

unfoldable pub wake_up : ℕ → Table → Table
wake_up me t = let p = t.procs me in put me (record p { chan = 0 }) t

-- One process in the inner loop of `scheduler` on a processor whose `c->proc` is `running`: a runnable
-- process is made RUNNING and becomes `c->proc`; then `swtch` runs it.
unfoldable pub scheduled : ℕ → Table → Table
scheduled i t =
    let p = t.procs i in
    if is_runnable p.state then put i (record p { state = State.running }) t else t

-- `yield`, up to `sched`.
unfoldable pub yielded : ℕ → Table → Table
yielded i t = let p = t.procs i in put i (record p { state = State.runnable }) t
