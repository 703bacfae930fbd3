-- ===== src/Kernel/Dispatch/Table.antt =====
-- The table of Lab6/xv6-semaphores/syscall.c holds each function at its number of syscall.h.
use system_device_programmin.Base.{
  ℕ, ◌<◌, ◌≡◌, ◌≢◌, ◌⊎◌, inl, inr, ◌↔◌, refl, Bool, true, Option, none, some, ◌==◌, Option-cases,
  holds_below, holds_below_each, ℤ, pos, negsuc, arith,
}
use system_device_programmin.Kernel.Dispatch.{Handler, number, nelem, select, syscall}

select-number : (h : Handler) → select (pos (number h)) ≡ some h
unfolding select number
select-number Handler.sys_fork = refl
select-number _ = refl

-- The function at a number of the table has that number.
agrees : ℕ → Option Handler → Bool
agrees num none = true
agrees num (some h) = number h == num

table_agrees : holds_below (λ num. agrees num (select (pos num))) nelem ≡ true
unfolding holds_below agrees select number
table_agrees = refl

select-inside : (num : ℕ) (h : Handler) → select (pos num) ≡ some h → num < nelem
unfolding select
select-inside num h e = ground arith

never : (num : ℕ) {h : Handler} → select (negsuc num) ≢ some h
unfolding select
never num e = ground arith

-- `syscall` calls the function `h` for the number of `h`, and for no other.
pub select_iff : (num : ℤ) (h : Handler) → (select num ≡ some h) ↔ (num ≡ pos (number h))
unfolding agrees
select_iff num h = (to num, λ e. rw e (select-number h))
  where
    to : (num : ℤ) → select num ≡ some h → num ≡ pos (number h)
    to (pos num) e =
        let same = holds_below_each _ nelem num table_agrees (select-inside num h e) in ground arith
    to (negsuc num) e = absurd (never num e)

-- Either the number is that of one of the 35 functions of syscall.h, and `syscall` leaves the
-- result of that function in `%eax`; or it is the number of none, and it leaves -1.
pub syscall_cases :
    (result : Handler → ℤ) (num : ℤ)
    → ((h : Handler) × (num ≡ pos (number h)) × (syscall result num ≡ result h))
      ⊎ (((h : Handler) → num ≢ pos (number h)) × (syscall result num ≡ negsuc 0))
unfolding syscall
syscall_cases result num = elim (Option-cases (select num)) [
  | inl e ↦ inr (λ h at_h. ground (arith, (select_iff num h).1 at_h), rw (e, syscall))
  | inr (h, e) ↦ inl (h, (select_iff num h).0 e, rw (e, syscall))
]
