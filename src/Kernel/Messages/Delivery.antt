-- ===== src/Kernel/Messages/Delivery.antt =====
-- grass/kernel.c: a message reaches the process that waits for it, and who runs again after it.
use egos.Base.{
  ℕ, ◌<◌, ◌≡◌, ◌≢◌, refl, ap, ◌∙◌, true, false, some, ◌==◌, ◌&&◌, ◌||◌, ltb, List, update, arith,
  ==_refl, Bool-cases, ◌⊎◌, inl, inr,
}
use egos.Kernel.Process.{
  Process, Table, gpid_all, sys_recv, pending, done, is_unused, is_user, unused, runnable,
  max_nprocess, proc_free,
}
use egos.Kernel.Process.Table.{IsTable, proc_free_lem}
use egos.Kernel.Earth.{Earth}
use egos.Kernel.Messages.{syscall_arg, is_receiver, is_taking, proc_try_send, proc_try_recv}
use egos.Kernel.Messages.Rendezvous.{proc_try_send-sent, proc_try_recv-done}

-- The process waits for a message of any process, or of this one.
abbrev pub Waits : ℕ → Process → Type 0
Waits pid p =
    (p.syscall.type ≡ sys_recv)
    × (p.syscall.delivery ≡ pending)
    × ((p.syscall.sender ≡ gpid_all) ⊎ (p.syscall.sender ≡ pid))

-- The process once it has got the message.
abbrev pub received : ℕ → List ℕ → Process → Process
received pid content p = record p {
  syscall = record {
    type = p.syscall.type;
    sender = pid;
    receiver = p.syscall.receiver;
    content = content;
    delivery = done;
  };
}

-- The process is in use and has this pid.
abbrev pub IsAlive : ℕ → Process → Type 0
IsAlive pid p = (p.pid ≡ pid) × (is_unused p.status ≡ false)

Waits-is_taking :
    (sender p : Process)
    → (Waits sender.pid p × (is_taking sender p ≡ true))
      ⊎ (¬ Waits sender.pid p × (is_taking sender p ≡ false))
Waits-is_taking sender p = elim (Bool-cases (is_taking sender p)) [
  | inl takes ↦ inl ((ground arith, ground arith, ground arith), takes)
  | inr refuses ↦ inr (λ waits. ground arith, refuses)
]

-- In a table with distinct pids, let entry i be in use and have the receiver's pid. Then a
-- send never stops the kernel. If that process has a pending receive of all processes or of
-- the sender, its entry gets the sender's pid and content and is marked as done, and nothing
-- else changes; if not, nothing changes.
pub proc_try_send-delivers :
    (last_pid idx i : ℕ) (procs : Table)
    → IsTable last_pid procs
    → i < max_nprocess
    → IsAlive (procs idx).syscall.receiver (procs i)
    → let sender = procs idx in
      (Waits sender.pid (procs i)
        × (proc_try_send idx procs
            ≡ some (update procs i (received sender.pid sender.syscall.content (procs i)))))
      ⊎ (¬ Waits sender.pid (procs i) × (proc_try_send idx procs ≡ some procs))
proc_try_send-delivers last_pid idx i procs v lt alive =
    let hit : is_receiver (procs idx) (procs i) ≡ true = ground (arith, alive) in
    let gives = proc_try_send-sent last_pid idx i procs v lt hit in
    elim (Waits-is_taking (procs idx) (procs i)) [
      | inl (waits, takes) ↦ inl (waits, gives ∙ rw takes refl)
      | inr (busy, refuses) ↦ inr (busy, gives ∙ rw refuses refl)
    ]

proc_try_send-Waits :
    (last_pid s r : ℕ) (procs : Table)
    → IsTable last_pid procs
    → r < max_nprocess
    → IsAlive (procs s).syscall.receiver (procs r)
    → Waits (procs s).pid (procs r)
    → proc_try_send s procs
      ≡ some (update procs r (received (procs s).pid (procs s).syscall.content (procs r)))
proc_try_send-Waits last_pid s r procs v lt alive waits =
    elim (proc_try_send-delivers last_pid s r procs v lt alive) [
      | inl (_, gives) ↦ gives
      | inr (busy, _) ↦ absurd (busy waits)
    ]

module _ {M : Type 0} (earth : Earth M) (last_pid s r : ℕ) (procs : Table) (memory : M)
    (v : IsTable last_pid procs) (s_lt : s < max_nprocess) (r_lt : r < max_nprocess)
    (used : is_unused (procs s).status ≡ false)
    (alive : IsAlive (procs s).syscall.receiver (procs r))
    (waits : Waits (procs s).pid (procs r)) where
  open earth use {mmu_translate, store}

  abbrev with_message : Table
  with_message = update procs r (received (procs s).pid (procs s).syscall.content (procs r))

  -- With distinct pids the two processes are the only ones with their pids.
  apart :
      (j : ℕ)
      → j ≢ s
      → j ≢ r
      → (ltb j max_nprocess
          && (((procs j).pid == (procs r).pid) || ((procs j).pid == (procs s).pid)))
        ≡ false
  apart j other other' =
      ground
        (arith, v.distinct j s, v.distinct j r, v.in_use s s_lt used, v.in_use r r_lt (alive.1))

  others : (j : ℕ) → j ≢ s → j ≢ r → (proc_try_recv earth r with_message memory).0 j ≡ procs j
  others j other other' =
      let aside : (j == r) ≡ false = ground arith in
      let misses = apart j other other' in
      proc_try_recv-done earth r j with_message memory (ground arith)
      ∙ rw (==_refl r, aside, misses) refl

  kept_memory : (proc_try_recv earth r with_message memory).1 ≡ (
      let (paddr, translated) = mmu_translate (procs r).pid syscall_arg memory in
      store paddr
        (record {
          type = sys_recv;
          sender = (procs s).pid;
          receiver = (procs r).syscall.receiver;
          content = (procs s).syscall.content;
          delivery = done;
        })
        translated)
  unfolding proc_try_recv
  kept_memory = rw (==_refl r, waits.0) refl

  -- In a table with distinct pids, let process s, which is in use, send to process r, which
  -- waits for a message of it or of all. Then the send returns, and r's next try to receive
  -- writes the system call to r's memory, with the pid of s, the content that s sent, and the
  -- mark that it is done. It makes both processes runnable and changes no other entry.
  pub rendezvous :
      (procs' : Table) × (proc_try_send s procs ≡ some procs')
      × (let (after, memory') = proc_try_recv earth r procs' memory in
          let (paddr, translated) = mmu_translate (procs r).pid syscall_arg memory in
          ((after s).status ≡ runnable)
          × ((after r).status ≡ runnable)
          × ((j : ℕ) → j ≢ s → j ≢ r → after j ≡ procs j)
          × (memory'
              ≡ store paddr
                  (record {
                    type = sys_recv;
                    sender = (procs s).pid;
                    receiver = (procs r).syscall.receiver;
                    content = (procs s).syscall.content;
                    delivery = done;
                  })
                  translated))
  rendezvous =
      let delivered : (with_message r).syscall.delivery ≡ done = ground arith in
      let after = λ (j : ℕ). proc_try_recv-done earth r j with_message memory delivered in
      (
        with_message,
        proc_try_send-Waits last_pid s r procs v r_lt alive waits,
        (ground (arith, after s, s_lt), ground (arith, after r, r_lt), others, kept_memory),
      )

  -- In a table with distinct pids, let a user process in use send to a server that waits for
  -- it, and then let `proc_free` with GPID_ALL free all user processes. The sender's entry is
  -- unused then, and the server's next try to receive makes it RUNNABLE.
  pub proc_try_recv-revives :
      (mmu_free : ℕ → M → M)
      → is_user (procs s).pid ≡ true
      → is_user (procs r).pid ≡ false
      → (procs' : Table) × (proc_try_send s procs ≡ some procs')
        × (let (freed, memory') = proc_free mmu_free gpid_all (procs', memory) in
            ((freed s).status ≡ unused)
            × (((proc_try_recv earth r freed memory').0 s).status ≡ runnable))
  proc_try_recv-revives mmu_free user server =
      let free = proc_free_lem mmu_free gpid_all with_message memory in
      let (freed, memory') = proc_free mmu_free gpid_all (with_message, memory) in
      let stays : freed r ≡ received (procs s).pid (procs s).syscall.content (procs r) =
        free r ∙ rw (==_refl r, server) (ground arith) in
      let finished : (freed r).syscall.delivery ≡ done =
        ap (λ (p : Process). p.syscall.delivery) stays in
      (
        with_message,
        proc_try_send-Waits last_pid s r procs v r_lt alive waits,
        (
          ground (arith, free s, s_lt),
          ground (arith, free s, s_lt, stays, proc_try_recv-done earth r s freed memory' finished),
        ),
      )
