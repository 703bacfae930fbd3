-- ===== src/Kernel/Fs/Clean.antt =====
-- How a system call of Lab6/xv6-semaphores/sysfile.c uses transactions, locks and references: one
-- rule for each call that it makes of fs.c and log.c, and for the statements between them.
use system_device_programmin.Base.{
  ℕ, List, ◌∷◌, ◌≡◌, refl, Bool, true, false, Option, none, some, arith,
}
use system_device_programmin.Kernel.Outcome.{Outcome, done, sleeping, spinning, fault, panicked}
use system_device_programmin.Kernel.Fs.{
  Event, Ctx, contains, M, begin, commit, lock, unlock, put, unlock_put, store, ret, branch, panic,
  ◌>>=◌, ◌>>◌,
}

-- It returns so, or it panics where the code says so: it never waits for itself, and commits,
-- unlocks and gives back only what it has.
abbrev pub Clean : {S A : Type 0} → (A → S → Type 0) → Outcome S A → Type 0
Clean P (done a s) = P a s
Clean P (sleeping at s) = ⊥
Clean P spinning = ⊥
Clean P fault = ⊥
Clean P panicked = Unit

-- A transaction is open or not, and these inodes are locked and owned.
abbrev pub At : Bool → List ℕ → List ℕ → Ctx → Type 0
At t h r s = (s.trans ≡ t) × (s.held ≡ h) × (s.refs ≡ r)

abbrev pub Leaves : {A : Type 0} → Bool → List ℕ → List ℕ → A → Ctx → Type 0
Leaves t h r _ s = At t h r s

-- From each such state it runs cleanly to one with `P`.
pub record Runs {A : Type 0} (t : Bool) (h r : List ℕ) (P : A → Ctx → Type 0) (m : M A)
    : Type 0 where
  pub runs : (s : Ctx) → At t h r s → Clean P (m s)

pub bind_outcome :
    {S A B : Type 0} (P : B → S → Type 0) (Q : A → S → Type 0) (f : A → S → Outcome S B)
    → (o : Outcome S A) → Clean Q o
    → ((a : A) (s : S) → Q a s → Clean P (f a s))
    → Clean P (elim o [
      | done a s ↦ f a s
      | sleeping at s ↦ sleeping at s
      | spinning ↦ spinning
      | fault ↦ fault
      | panicked ↦ panicked
    ])
bind_outcome P Q f (done a s) h k = k a s h
bind_outcome P Q f (sleeping at s) h k = absurd h
bind_outcome P Q f spinning h k = absurd h
bind_outcome P Q f fault h k = absurd h
bind_outcome P Q f panicked h k = tt

module _ {A B : Type 0} (P : B → Ctx → Type 0) (Q : A → Ctx → Type 0) (m : M A) where
  pub Clean-bind :
      (f : A → M B) (s : Ctx)
      → Clean Q (m s)
      → ((a : A) (s' : Ctx) → Q a s' → Clean P (f a s'))
      → Clean P ((m >>= f) s)
  unfolding ◌>>=◌
  Clean-bind f s = bind_outcome P Q f (m s)

  pub Clean-then :
      (k : M B) (s : Ctx)
      → Clean Q (m s)
      → ((a : A) (s' : Ctx) → Q a s' → Clean P (k s'))
      → Clean P ((m >> k) s)
  unfolding ◌>>◌
  Clean-then k = Clean-bind (λ _. k)

-- The references with the one that a call has yielded.
abbrev pub owning : Option ℕ → List ℕ → List ℕ
owning none r = r
owning (some ip) r = ip ∷ r

branch_run :
    {B : Type 0} (P : B → Ctx → Type 0) (b : Bool) (m k : M B) (s : Ctx)
    → (b ≡ true → Clean P (m s))
    → (b ≡ false → Clean P (k s))
    → Clean P (branch b m k s)
unfolding branch
branch_run P true m k s one other = one refl
branch_run P false m k s one other = other refl

ret_run : {B : Type 0} (P : B → Ctx → Type 0) (b : B) (s : Ctx) → P b s → Clean P (ret b s)
unfolding ret
ret_run P b s holds = holds

panic_run : {B : Type 0} (P : B → Ctx → Type 0) (s : Ctx) → Clean P (panic s)
unfolding panic
panic_run P s = tt

-- The inode that is returned is locked and owned.
abbrev pub Locked : Bool → List ℕ → List ℕ → Option ℕ → Ctx → Type 0
Locked t h r o s = At t (owning o h) (owning o r) s

module _ {t : Bool} {h r : List ℕ} {B : Type 0} {P : B → Ctx → Type 0} where
  both_answers :
      (f : Option ℕ → M B)
      → Runs t h r P (f none)
      → ((ip : ℕ) → Runs t (ip ∷ h) (ip ∷ r) P (f (some ip)))
      → (o : Option ℕ) (s : Ctx) → Locked t h r o s
      → Clean P (f o s)
  both_answers f missing found none s at = missing.runs s at
  both_answers f missing found (some ip) s at = (found ip).runs s at

  Runs-then :
      {t' : Bool} {h' r' : List ℕ} {A : Type 0} {m : M A} {k : M B}
      → Runs t h r (Leaves t' h' r') m
      → Runs t' h' r' P k
      → Runs t h r P (m >> k)
  Runs-then {t'} {h'} {r'} {A} {m} {k} first next = record {
    runs = λ s at. Clean-then P (Leaves t' h' r') m k s (first.runs s at) (λ _. next.runs);
  }

  pub Runs-answer :
      {A : Type 0} {m : M A} (f : A → M B)
      → Runs t h r (Leaves t h r) m
      → ((a : A) → Runs t h r P (f a))
      → Runs t h r P (m >>= f)
  Runs-answer {A} {m} f first next = record {
    runs = λ s at. Clean-bind P (Leaves t h r) m f s (first.runs s at) (λ a. (next a).runs);
  }

  -- Where the answer is an inode that is locked and owned.
  pub Runs-answered :
      {m : M (Option ℕ)} (f : Option ℕ → M B)
      → Runs t h r (Locked t h r) m
      → Runs t h r P (f none)
      → ((ip : ℕ) → Runs t (ip ∷ h) (ip ∷ r) P (f (some ip)))
      → Runs t h r P (m >>= f)
  Runs-answered {m} f first missing found = record {
    runs =
        λ s at. Clean-bind P (Locked t h r) m f s (first.runs s at) (both_answers f missing found);
  }

  pub Runs-ret : (b : B) → ((s : Ctx) → At t h r s → P b s) → Runs t h r P (ret b)
  Runs-ret b holds = record { runs = λ s at. ret_run P b s (holds s at) }

  pub Runs-panic : Runs t h r P panic
  Runs-panic = record { runs = λ s at. panic_run P s }

  pub Runs-branch :
      {b : Bool} {m k : M B}
      → (b ≡ true → Runs t h r P m)
      → (b ≡ false → Runs t h r P k)
      → Runs t h r P (branch b m k)
  Runs-branch {b} {m} {k} one other = record {
    runs = λ s at. branch_run P b m k s (λ e. (one e).runs s at) (λ e. (other e).runs s at);
  }

store_run :
    (t : Bool) (h r : List ℕ) (s : Ctx) (e : Event) → At t h r s → Clean (Leaves t h r) (store e s)
unfolding store
store_run t h r s e at = at

put_second_run :
    (t : Bool) (h r : List ℕ) (s : Ctx) (ip dp : ℕ)
    → At t h (ip ∷ dp ∷ r) s
    → Clean (Leaves t h (ip ∷ r)) (put dp s)
unfolding put
put_second_run t h r s ip dp (et, eh, er) = ground arith

unlock_put_below_run :
    (t : Bool) (h r : List ℕ) (s : Ctx) (ip dp : ℕ)
    → At t (dp ∷ h) (ip ∷ dp ∷ r) s
    → Clean (Leaves t h (ip ∷ r)) (unlock_put dp s)
unfolding unlock_put
unlock_put_below_run t h r s ip dp (et, eh, er) = ground arith

module _ (h r : List ℕ) (s : Ctx) where
  begin_run : At false h r s → Clean (Leaves true h r) (begin s)
  unfolding begin
  begin_run (et, eh, er) = rw et (refl, eh, er)

  commit_run : At true h r s → Clean (Leaves false h r) (commit s)
  unfolding commit
  commit_run (et, eh, er) = rw et (refl, eh, er)

module _ (t : Bool) (h r : List ℕ) (s : Ctx) where
  lock_run : (ip : ℕ) → contains ip h ≡ false → At t h r s → Clean (Leaves t (ip ∷ h) r) (lock ip s)
  unfolding lock
  lock_run ip out (et, eh, er) = ground arith

  pub unlock_run : (ip : ℕ) → At t (ip ∷ h) r s → Clean (Leaves t h r) (unlock ip s)
  unfolding unlock
  unlock_run ip (et, eh, er) = ground arith

  put_run : (ip : ℕ) → At t h (ip ∷ r) s → Clean (Leaves t h r) (put ip s)
  unfolding put
  put_run ip (et, eh, er) = ground arith

  pub unlock_put_run : (ip : ℕ) → At t (ip ∷ h) (ip ∷ r) s → Clean (Leaves t h r) (unlock_put ip s)
  unfolding unlock_put
  unlock_put_run ip (et, eh, er) = ground arith

  -- The last but one that was locked and yielded.
  unlock_put_second_run :
      (ip dp : ℕ)
      → At t (ip ∷ dp ∷ h) (ip ∷ dp ∷ r) s
      → Clean (Leaves t (ip ∷ h) (ip ∷ r)) (unlock_put dp s)
  unfolding unlock_put
  unlock_put_second_run ip dp (et, eh, er) = ground arith

module _ {h r : List ℕ} {B : Type 0} {P : B → Ctx → Type 0} {k : M B} where
  pub Runs-begin : Runs true h r P k → Runs false h r P (begin >> k)
  Runs-begin = Runs-then (record { runs = begin_run h r })

  pub Runs-commit : Runs false h r P k → Runs true h r P (commit >> k)
  Runs-commit = Runs-then (record { runs = commit_run h r })

module _ {t : Bool} {h r : List ℕ} {B : Type 0} {P : B → Ctx → Type 0} {k : M B} where
  pub Runs-store : (e : Event) → Runs t h r P k → Runs t h r P (store e >> k)
  Runs-store e = Runs-then (record { runs = λ s. store_run t h r s e })

  pub Runs-lock :
      {ip : ℕ} → contains ip h ≡ false → Runs t (ip ∷ h) r P k → Runs t h r P (lock ip >> k)
  Runs-lock {ip} out = Runs-then (record { runs = λ s. lock_run t h r s ip out })

  pub Runs-unlock : {ip : ℕ} → Runs t h r P k → Runs t (ip ∷ h) r P (unlock ip >> k)
  Runs-unlock {ip} = Runs-then (record { runs = λ s. unlock_run t h r s ip })

  pub Runs-put : {ip : ℕ} → Runs t h r P k → Runs t h (ip ∷ r) P (put ip >> k)
  Runs-put {ip} = Runs-then (record { runs = λ s. put_run t h r s ip })

  pub Runs-put_second : {ip dp : ℕ} → Runs t h (ip ∷ r) P k → Runs t h (ip ∷ dp ∷ r) P (put dp >> k)
  Runs-put_second {ip} {dp} = Runs-then (record { runs = λ s. put_second_run t h r s ip dp })

  pub Runs-unlock_put : {ip : ℕ} → Runs t h r P k → Runs t (ip ∷ h) (ip ∷ r) P (unlock_put ip >> k)
  Runs-unlock_put {ip} = Runs-then (record { runs = λ s. unlock_put_run t h r s ip })

  pub Runs-unlock_put_below :
      {ip dp : ℕ} → Runs t h (ip ∷ r) P k → Runs t (dp ∷ h) (ip ∷ dp ∷ r) P (unlock_put dp >> k)
  Runs-unlock_put_below {ip} {dp} =
      Runs-then (record { runs = λ s. unlock_put_below_run t h r s ip dp })

  pub Runs-unlock_put_second :
      {ip dp : ℕ}
      → Runs t (ip ∷ h) (ip ∷ r) P k
      → Runs t (ip ∷ dp ∷ h) (ip ∷ dp ∷ r) P (unlock_put dp >> k)
  Runs-unlock_put_second {ip} {dp} =
      Runs-then (record { runs = λ s. unlock_put_second_run t h r s ip dp })

pub ruleset statements = (
  Runs-ret, Runs-panic, Runs-store, Runs-begin, Runs-commit, Runs-unlock, Runs-put, Runs-unlock_put,
)
