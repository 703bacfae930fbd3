-- ===== src/Kernel/Fs/Exec.antt =====
-- Lab6/xv6-semaphores/sysfile.c: `sys_exec`.
use system_device_programmin.Base.{
  ℕ, zero, suc, ◌+◌, ◌*◌, ◌<◌, ◌≡◌, ◌≢◌, ◌⊎◌, ◌∙◌, ap, List, [], ◌∷◌, Option, none, some,
  Option-cases, inl, inr, subst, ◌==◌, if◌then◌else◌, length, ℤ, negsuc, unsigned32, ◌≤◌,
  ℕ_discrete, arith,
}
use system_device_programmin.Kernel.Args.{Proc, uint, fetchint, fetchstr, argint, argstr}

module _ (p : Proc) (uargv : ℕ) where
  -- The pointer `argv[i]` of the process.
  pub argv_word : ℕ → Option ℕ
  argv_word i = elim (fetchint p (uint (uargv + 4 * i))) [
    | none ↦ none
    | some uarg ↦ some (unsigned32 uarg)
  ]

  -- The `for` of `sys_exec`, with `n` elements of `argv` left: the pointers that it collects.
  argv_loop : ℕ → ℕ → Option (List ℕ)
  argv_loop zero i = none
  argv_loop (suc n) i =
      let rest = argv_loop n (suc i) in
      elim (argv_word i) [
        | none ↦ none
        | some uarg ↦ if uarg == 0 then some [] else elim (fetchstr p uarg) [
          | none ↦ none
          | some _ ↦ elim rest [ none ↦ none | some args ↦ some (uarg ∷ args) ]
        ]
      ]

  -- From the `i`-th pointer on these are strings of the process, behind which is a null pointer.
  abbrev pub Pointers : ℕ → List ℕ → Type 0
  Pointers i [] = argv_word i ≡ some 0
  Pointers i (a ∷ args) =
      (argv_word i ≡ some a) × (a ≢ 0) × (fetchstr p a ≢ none) × Pointers (suc i) args

  -- Fewer than the elements that `argv` has.
  abbrev pub Few : ℕ → ℕ → Option (List ℕ) → Type 0
  Few n i none = (args : List ℕ) → Pointers i args → n ≤ length args
  Few n i (some args) = Pointers i args × (length args < n)

  refuse :
      (n i : ℕ)
      → argv_word i ≢ some 0
      → ((a : ℕ) (args : List ℕ)
          → argv_word i ≡ some a
          → fetchstr p a ≢ none
          → Pointers (suc i) args
          → n ≤ length args)
      → Few (suc n) i none
  refuse n i more longer [] null = absurd (more null)
  refuse n i more longer (a ∷ args) (at_i, _, string, next) =
      omega (arith, longer a args at_i string next)

  argv_loop-Few : (n i : ℕ) → Few n i (argv_loop n i)
  unfolding argv_loop
  argv_loop-Few zero i = λ args _. omega arith
  argv_loop-Few (suc n) i = elim (Option-cases (argv_word i)) [
    | inl out ↦
        subst (Few (suc n) i) {x = none} (ground arith)
          (refuse n i (λ e. ground arith) (λ a args e. absurd (ground arith)))
    | inr (a, at_i) ↦ elim (ℕ_discrete a 0) [
      | yes null ↦
          subst (Few (suc n) i) {x = some []} (ground arith) (at_i ∙ ap some null, omega arith)
      | no ne ↦ elim (Option-cases (fetchstr p a)) [
        | inl bad ↦
            subst (Few (suc n) i) {x = none} (ground arith)
              (refuse n i (λ e. ground arith) (λ b args e string next. absurd (ground arith)))
        | inr (k, string) ↦ elim (Option-cases (argv_loop n (suc i))) [
          | inl no_more ↦ subst (Few (suc n) i) {x = none} (ground arith) (
              refuse n i (λ e. ground arith)
                (λ b args e _ next.
                  subst (Few n (suc i)) no_more (argv_loop-Few n (suc i)) args next))
          | inr (args, more) ↦
              let (next, short) = subst (Few n (suc i)) more (argv_loop-Few n (suc i)) in
              subst (Few (suc n) i) {x = some (a ∷ args)} (ground arith)
                ((at_i, ne, (λ e. ground arith), next), omega arith)
        ]
      ]
    ]
  ]

module _ (exec : ℕ → List ℕ → ℤ) (p : Proc) where
  -- `exec` is in exec.c; its arguments are `path` and the pointers in `argv`.
  pub sys_exec : ℤ
  unfolding argv_loop
  sys_exec = elim (argstr p 0) [
    | none ↦ negsuc 0
    | some (path, _) ↦ elim (argint p 1) [
      | none ↦ negsuc 0
      | some uargv ↦ elim (argv_loop p (unsigned32 uargv) 32 0) [
        | none ↦ negsuc 0
        | some argv ↦ exec path argv
      ]
    ]
  ]

  -- What it does of the three.
  pub data Executed : ℤ → Type 0 where
    refused : (argstr p 0 ≡ none) ⊎ (argint p 1 ≡ none) → Executed (negsuc 0)
    too_many :
        (uargv : ℤ)
        → argint p 1 ≡ some uargv
        → ((args : List ℕ) → Pointers p (unsigned32 uargv) 0 args → 32 ≤ length args)
        → Executed (negsuc 0)
    called :
        (path len : ℕ) (uargv : ℤ) (args : List ℕ)
        → argstr p 0 ≡ some (path, len)
        → argint p 1 ≡ some uargv
        → Pointers p (unsigned32 uargv) 0 args
        → length args < 32
        → Executed (exec path args)

  -- `sys_exec` passes the path and the pointers of the process on to `exec` exactly where these are
  -- strings of the process, fewer than 32, and a null pointer ends them; otherwise it returns -1.
  pub sys_exec-Executed : Executed sys_exec
  unfolding sys_exec
  sys_exec-Executed = elim (Option-cases (argstr p 0)) [
    | inl bad ↦ subst Executed (ground arith) (refused (inl bad))
    | inr ((path, len), one) ↦ elim (Option-cases (argint p 1)) [
      | inl bad ↦ subst Executed (ground arith) (refused (inr bad))
      | inr (uargv, two) ↦ elim (Option-cases (argv_loop p (unsigned32 uargv) 32 0)) [
        | inl none_left ↦ subst Executed (ground arith) (
            too_many uargv two (
              subst (Few p (unsigned32 uargv) 32 0) none_left
                (argv_loop-Few p (unsigned32 uargv) 32 0)))
        | inr (args, found) ↦
            let (strings, few) =
              subst (Few p (unsigned32 uargv) 32 0) found
                (argv_loop-Few p (unsigned32 uargv) 32 0) in
            subst Executed (ground arith) (called path len uargv args one two strings few)
      ]
    ]
  ]
