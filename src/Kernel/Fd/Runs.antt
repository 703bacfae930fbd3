-- ===== src/Kernel/Fd/Runs.antt =====
-- A process that calls `sys_dup` and `sys_close` of Lab6/xv6-semaphores/sysfile.c again and again.
use system_device_programmin.Base.{ℕ, List, [], ◌∷◌, Option, ℤ, pos}
use system_device_programmin.Kernel.Outcome.{
  Outcome, done, sleeping, spinning, fault, panicked, Ends, ◌>>=◌,
}
use system_device_programmin.Kernel.Fd.{State, sys_dup, sys_close}
use system_device_programmin.Kernel.Fd.Counted.{IsCounted}
use system_device_programmin.Kernel.Fd.Calls.{sys_dup-IsCounted, sys_close-IsCounted}

pub data Call : Type 0 where
  dup close : Option ℤ → Call

abbrev call : Call → State → Outcome State ℤ
call (dup a) = sys_dup a
call (close a) = sys_close a

-- The calls in turn, whatever each returns.
unfoldable pub call_all : List Call → State → Outcome State ℤ
call_all [] s = done (pos 0) s
call_all (c ∷ cs) s = (call c >>= λ r. call_all cs) s

module _ (others : ℕ → ℕ) where
  call-IsCounted : (c : Call) {s : State} → IsCounted others s → Ends (IsCounted others) (call c s)
  call-IsCounted (dup a) v = sys_dup-IsCounted others a v
  call-IsCounted (close a) v = sys_close-IsCounted others a v

  -- Where the counts are exact, any calls of `sys_dup` and `sys_close` after one another, with any
  -- arguments, keep the count of each file equal to the number of references to it, and neither
  -- panic nor spin.
  pub call_all-IsCounted :
      (cs : List Call) {s : State} → IsCounted others s → Ends (IsCounted others) (call_all cs s)
  unfolding call_all
  call_all-IsCounted [] v = v
  call_all-IsCounted (c ∷ cs) {s} v =
      go (call c s) (call-IsCounted c v) (λ t w. call_all-IsCounted cs {s = t} w)
    where
      go :
          (o : Outcome State ℤ)
          → Ends (IsCounted others) o
          → ((t : State) → IsCounted others t → Ends (IsCounted others) (call_all cs t))
          → Ends (IsCounted others) (elim o [
            | done r t ↦ call_all cs t
            | sleeping at t ↦ sleeping at t
            | spinning ↦ spinning
            | fault ↦ fault
            | panicked ↦ panicked
          ])
      go (done r t) w next = next t w
      go (sleeping at t) w next = w
      go spinning w next = elim w [ ]
      go fault w next = elim w [ ]
      go panicked w next = elim w [ ]
