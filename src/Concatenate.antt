-- ===== src/Concatenate.antt =====
-- exam/20110629/file_concatenate.c: how a thread looks for two files in the directory.
pub mod Scan
pub mod Copy
mod Tests
use system_device_programmin.Base.{
  ℕ, zero, suc, ◌+◌, Bool, true, false, not, ◌||◌, Option, none, some, if◌then◌else◌, ◌==◌,
}

-- The names that the code tells apart; all other ones are numbered.
pub data Name : Type 0 where
  dot dot_dot tmp : Name
  file : ℕ → Name

-- What `readdir` returns: an entry, or NULL; it failed where `errno` is not what it was before.
pub data Answer : Type 0 where
  entry : Name → Answer
  at_end failed : Answer

-- `!strcmp(a, b)`
pub same_name : Name → Name → Bool
same_name dot dot = true
same_name dot_dot dot_dot = true
same_name tmp tmp = true
same_name (file m) (file n) = m == n
same_name dot dot_dot = false
same_name dot tmp = false
same_name dot (file n) = false
same_name dot_dot dot = false
same_name dot_dot tmp = false
same_name dot_dot (file n) = false
same_name tmp dot = false
same_name tmp dot_dot = false
same_name tmp (file n) = false
same_name (file m) dot = false
same_name (file m) dot_dot = false
same_name (file m) tmp = false

abbrev pub passed_over : Name → Bool
passed_over name = same_name name dot || same_name name dot_dot || same_name name tmp

-- How a `do` loop ends: with `cont` 0, or with a name, where `none` is NULL, after so many calls of
-- `readdir`.
pub data Scanned : Type 0 where
  stopped : Scanned
  found : Option Name → ℕ → Scanned

-- How a thread comes out of its section under `dir_lock`: `break` leaves the loop of the thread
-- with the lock held; a name that is NULL is read; or it goes on with two names.
pub data Section : Type 0 where
  breaks_locked reads_null : Section
  unlocked : Name → Option Name → ℕ → Section

-- The body of the first `do` loop, with what `readdir` returned; `k` is the next call of it.
pub first_body : (Bool → Bool → Option Scanned) → ℕ → Bool → Bool → Answer → Option Scanned
first_body rest k next1 rewinded (entry name) =
    if passed_over name then rest true rewinded else some (found (some name) k)
first_body rest k next1 rewinded at_end =
    if rewinded then some stopped else if next1 then rest next1 true else some (found none k)
first_body rest k next1 rewinded failed = some stopped

end_with : Bool → Option Name → ℕ → Scanned
end_with cont head k = if cont then found head k else stopped

-- That of the second one, with the variable `cont` and the name that the entry of the first file holds.
pub second_body :
    Name → (Bool → Bool → Bool → Option Scanned) → ℕ → Bool → Bool → Bool → Answer → Option Scanned
unfolding end_with
second_body name1 rest k cont next2 rewinded (entry name) =
    if passed_over name || same_name name1 name
    then rest cont true rewinded
    else some (end_with cont (some name) k)
second_body name1 rest k cont next2 rewinded at_end =
    if rewinded
    then some stopped
    else if next2
    then rest cont next2 true
    else some (end_with cont none k)
second_body name1 rest k cont next2 rewinded failed =
    if next2 then rest false next2 rewinded else some stopped

pub after_second : (ℕ → Name) → Option Scanned → Option Section
after_second name1 none = none
after_second name1 (some stopped) = some breaks_locked
after_second name1 (some (found head k)) = some (unlocked (name1 k) head k)

-- `readdir` is what its calls return, in their order, with the directory rewound where the code does
-- that; `none` is a loop that runs out of fuel.
module _ (readdir : ℕ → Answer) where
  pub first_loop : ℕ → ℕ → Bool → Bool → Option Scanned
  unfolding first_body
  first_loop zero k next1 rewinded = none
  first_loop (suc fuel) k next1 rewinded =
      first_body (first_loop fuel (k + 1)) (k + 1) next1 rewinded (readdir k)

  -- The thread keeps the pointer that the first loop got. `now name k` is the name in the entry there,
  -- which was `name` when it was found, after `k` calls of `readdir`: later calls may overwrite it.
  module _ (now : Name → ℕ → Name) where
    pub second_loop : Name → ℕ → ℕ → Bool → Bool → Bool → Option Scanned
    unfolding second_body
    second_loop name1 zero k cont next2 rewinded = none
    second_loop name1 (suc fuel) k cont next2 rewinded =
        second_body (now name1 (k + 1)) (second_loop name1 fuel (k + 1)) (k + 1) cont next2 rewinded
          (readdir k)

    pub after_first : ℕ → Bool → Option Scanned → Option Section
    unfolding second_loop after_second
    after_first fuel next2 none = none
    after_first fuel next2 (some stopped) = some breaks_locked
    after_first fuel next2 (some (found none k)) = some reads_null
    after_first fuel next2 (some (found (some name1) k)) =
        after_second (now name1) (second_loop name1 fuel k true next2 false)

    pub section : ℕ → ℕ → Bool → Bool → Option Section
    unfolding first_loop after_first
    section fuel k next1 next2 = after_first fuel next2 (first_loop fuel k next1 false)
