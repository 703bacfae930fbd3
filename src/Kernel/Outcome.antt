-- ===== src/Kernel/Outcome.antt =====
-- How a kernel function of Lab6/xv6-semaphores/file.c ends, and the statements it is made of.
use system_device_programmin.Base.{ℕ, Bool, true, false}

-- Where a process goes on when it is woken: the code behind each call of `sleep`.
pub data Resume : Type 0 where
  in_sem_wait : ℕ → Resume  -- behind `sleep` in `sem_wait`
  in_cond_lock : ℕ → Resume  -- behind `sleep` in the loop of `cond_lock`
  in_cond_wait : ℕ → Resume  -- behind `sleep` in `cond_wait`
  in_cond_wait_lock : ℕ → Resume  -- behind `sleep` in the `cond_lock` that `cond_wait` calls

-- `done a s`: it returns `a`. `sleeping r s`: it has called `sleep`, and goes on at `r`.
-- `spinning`: it waits in `acquire` for a lock that is held. `fault`: it leaves a table's bounds.
-- `panicked`: it has called `panic`, which does not return.
pub data Outcome (S A : Type 0) : Type 0 where
  done : A → S → Outcome S A
  sleeping : Resume → S → Outcome S A
  spinning : Outcome S A
  fault : Outcome S A
  panicked : Outcome S A

-- What it leaves behind, if it ends.
abbrev pub Ends : {S A : Type 0} → (S → Type 0) → Outcome S A → Type 0
Ends P (done a s) = P s
Ends P (sleeping r s) = P s
Ends P spinning = ⊥
Ends P fault = ⊥
Ends P panicked = ⊥

-- What it leaves behind, where it ends at all.
abbrev pub After : {S A : Type 0} → (S → Type 0) → Outcome S A → Type 0
After P (done a s) = P s
After P (sleeping r s) = P s
After P _ = Unit

module _ {S : Type 0} where
  -- A sleeping process has given up its stack to `Resume`, so what follows a `sleep` is not run.
  infixl 5 ◌>>=◌ ◌>>◌
  abbrev pub ◌>>=◌ : {A B : Type 0} → (S → Outcome S A) → (A → S → Outcome S B) → S → Outcome S B
  ◌>>=◌ m f s = elim (m s) [
    | done a s' ↦ f a s'
    | sleeping r s' ↦ sleeping r s'
    | spinning ↦ spinning
    | fault ↦ fault
    | panicked ↦ panicked
  ]

  abbrev pub ◌>>◌ : {A B : Type 0} → (S → Outcome S A) → (S → Outcome S B) → S → Outcome S B
  m >> k = m >>= λ _. k

  abbrev pub ret : {A : Type 0} → A → S → Outcome S A
  ret a s = done a s

  -- `if (b) m else k`
  abbrev pub branch : {A : Type 0} → Bool → (S → Outcome S A) → (S → Outcome S A) → S → Outcome S A
  branch true m k s = m s
  branch false m k s = k s

  abbrev pub spin : {A : Type 0} → S → Outcome S A
  spin s = spinning

  -- An access outside an array.
  abbrev pub stray : {A : Type 0} → S → Outcome S A
  stray s = fault

  -- `panic(...)`
  abbrev pub panic : {A : Type 0} → S → Outcome S A
  panic s = panicked
