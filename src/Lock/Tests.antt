-- ===== src/Lock/Tests.antt =====
-- One processor takes the spin lock while another one spins; a process takes the sleep lock.
use intro2os_project.Prelude.{ℕ, ◌≡◌, ◌≢◌, ◌↔◌, refl, true, false, none, update}
use intro2os_project.Lock.{
  Cpu, holding, push_off, acquire_start, test_and_set, acquire_end, acquiresleep, holdingsleep,
}
use intro2os_project.Lock.Exclusion.{
  Pc, inside, owns, System, initial, Reach, here, later, starts, spins, enters, mutual_exclusion,
}
use intro2os_project.Lock.Sleeping
use intro2os_project.Lock.Sleeping.{sleeplock_exclusive}

abbrev on : Cpu
on = record { noff = 0; intena = false; intr = true }

-- Processor 0 is in the critical section, and processor 1 has spun once.
abbrev contended : System
contended = record {
  lock = record { locked = true; cpu = 1 };
  cpus =
      update (update (initial true).cpus 0 (record { noff = 1; intena = true; intr = false })) 1
        (record { noff = 1; intena = true; intr = false });
  at =
      update
        (update (update (update (update (initial true).at 0 Pc.spinning) 0 Pc.entered) 0 Pc.inside)
          1 Pc.spinning)
        1 Pc.spinning;
}

contended_reached : Reach (initial true) contended
unfolding acquire_start test_and_set acquire_end push_off
contended_reached =
    later
      (later (later (later (later here (starts 0 refl refl)) (spins 0 refl)) (enters 0 refl))
        (starts 1 refl refl))
      (spins 1 refl)

abbrev second_cpu : ℕ
second_cpu = 1

mutual_exclusion_example :
    (owns (contended.at 0) ≡ true → owns (contended.at 1) ≡ true → 0 ≡ second_cpu)
    × ((holding 0 contended.lock ≡ true) ↔ (contended.at 0 ≡ inside))
mutual_exclusion_example = mutual_exclusion 0 1 contended_reached

-- Process 4 is inside.
abbrev held : Sleeping.System
held = record { lock = record { locked = true; pid = 4 }; inside = update (λ p. false) 4 true }

held_reached : Sleeping.Reach Sleeping.initial held
unfolding acquiresleep
held_reached = Sleeping.later Sleeping.here (Sleeping.acquires 4 refl)

abbrev other_pid : ℕ
other_pid = 5

sleeplock_exclusive_example :
    (held.inside 4 ≡ true → held.inside 5 ≡ true → 4 ≡ other_pid)
    × (holdingsleep 4 held.lock ≡ held.inside 4)
    × (((r : ℕ) → held.inside r ≡ false) → acquiresleep 4 held.lock ≢ none)
sleeplock_exclusive_example = sleeplock_exclusive 4 5 held_reached
