-- ===== src/Kernel/Fs.antt =====
-- The calls that Lab6/xv6-semaphores/sysfile.c makes of fs.c and log.c of xv6, which the repository
-- does not hold: what they ask of the process that makes them.
pub mod Clean
pub mod Answers
pub mod Link
pub mod Unlink
pub mod Create
pub mod Chdir
pub mod Exec
pub mod Open
pub mod Tests
use system_device_programmin.Base.{
  ℕ, List, [], ◌∷◌, ◌++◌, ◌≡◌, ◌≢◌, ◌≤◌, Bool, true, false, Option, none, some, ◌||◌, ◌==◌,
  if◌then◌else◌, ℤ, pos, negsuc,
}
use system_device_programmin.Kernel.Outcome.{Outcome, done, sleeping, spinning, fault, panicked}

pub data InodeType : Type 0 where
  t_dir : InodeType
  t_file : InodeType
  t_dev : InodeType

abbrev pub is_dir : InodeType → Bool
is_dir t_dir = true
is_dir _ = false

abbrev pub is_file : InodeType → Bool
is_file t_file = true
is_file _ = false

-- What sysfile.c reads of a `struct inode`.
pub record Inode : Type 0 where
  pub type : InodeType
  pub dev : ℕ
  pub inum : ℕ
  pub nlink : ℤ
  pub size : ℕ

-- `char name[DIRSIZ]`, up to its end.
abbrev pub Name : Type 0
Name = List ℕ

-- A call, or a store to a field of an inode. A path is its address.
pub data Event : Type 0 where
  begin_trans : Event
  commit_trans : Event
  ilock : ℕ → Event
  iunlock : ℕ → Event
  iput : ℕ → Event
  iupdate : ℕ → Event
  set_nlink : ℕ → ℤ → Event
  set_device : ℕ → ℤ → ℤ → Event
  namei : ℕ → Event
  nameiparent : ℕ → Event
  namecmp : Name → Name → Event
  dirlookup : ℕ → Name → Event
  dirlink : ℕ → Name → ℕ → Event
  ialloc : ℕ → InodeType → Event
  readi : ℕ → ℕ → ℕ → Event
  writei : ℕ → ℕ → ℕ → Event

-- An account of what the process has asked of log.c and fs.c, by the order of its calls: whether it
-- has a transaction open, the inodes that it has locked, the references to inodes that it owns. It is
-- no state of the code; what the calls do inside is left to World.
pub record Ctx : Type 0 where
  pub trans : Bool
  pub held : List ℕ
  pub refs : List ℕ
  pub calls : List Event

abbrev pub contains : ℕ → List ℕ → Bool
contains x [] = false
contains x (y ∷ ys) = x == y || contains x ys

-- Without the first `x`.
abbrev pub remove : ℕ → List ℕ → List ℕ
remove x [] = []
remove x (y ∷ ys) = if x == y then ys else y ∷ remove x ys

abbrev pub noted : Ctx → Event → Ctx
noted s e = record s { calls = s.calls ++ e ∷ [] }

-- Whether a call answers so.
abbrev pub equals : ℤ → ℕ → Bool
equals (pos n) m = n == m
equals (negsuc _) _ = false

abbrev pub dot : Name
dot = b'.' ∷ []

abbrev pub dotdot : Name
dotdot = b'.' ∷ b'.' ∷ []

-- What the calls answer, from the state in which they are made, and the fields of the inodes. The
-- laws are what fs.c says of names, of new inodes and of sizes.
pub record World : Type 0 where
  pub pointer : Ctx → Event → Option ℕ
  pub int : Ctx → Event → ℤ
  pub name : Ctx → Event → Name
  -- What a call stores through a pointer: `off` of `dirlookup`, `de.inum` of `readi`.
  pub word : Ctx → Event → ℕ
  pub inode : Ctx → ℕ → Inode
  pub compares : (s : Ctx) (n m : Name) → n ≡ m → int s (namecmp n m) ≡ pos 0
  pub other :
      (s : Ctx) (dp ip : ℕ) (n : Name)
      → n ≢ dot
      → n ≢ dotdot
      → pointer s (dirlookup dp n) ≡ some ip
      → ip ≢ dp
  pub fresh :
      (s : Ctx) (dev ip : ℕ) (t : InodeType)
      → pointer s (ialloc dev t) ≡ some ip
      → contains ip s.held ≡ false
  -- `MAXFILE * BSIZE`
  pub max_size : (s : Ctx) (dp : ℕ) → (inode s dp).size ≤ 71680

abbrev pub M : Type 0 → Type 0
M A = Ctx → Outcome Ctx A

infixl 5 ◌>>=◌ ◌>>◌
pub ◌>>=◌ : {A B : Type 0} → M A → (A → M B) → M B
◌>>=◌ m f s = elim (m s) [
  | done a s' ↦ f a s'
  | sleeping at s' ↦ sleeping at s'
  | spinning ↦ spinning
  | fault ↦ fault
  | panicked ↦ panicked
]

pub ◌>>◌ : {A B : Type 0} → M A → M B → M B
unfolding ◌>>=◌
◌>>◌ m k s = (m >>= λ _. k) s

pub ret : {A : Type 0} → A → M A
ret a s = done a s

pub branch : {A : Type 0} → Bool → M A → M A → M A
branch true m k s = m s
branch false m k s = k s

pub wait : {A : Type 0} → M A
wait s = spinning

pub panic : {A : Type 0} → M A
panic s = panicked

note : Event → M (Unit {0})
note e s = done tt (noted s e)

-- With a transaction open already the process waits for itself.
pub begin : M (Unit {0})
unfolding note
begin s = if s.trans then spinning else note begin_trans (record s { trans = true })

pub commit : M (Unit {0})
unfolding note
commit s = if s.trans then note commit_trans (record s { trans = false }) else fault

-- With the inode locked already the process waits for itself.
pub lock : ℕ → M (Unit {0})
unfolding note
lock ip s =
    if contains ip s.held then spinning else note (ilock ip) (record s { held = ip ∷ s.held })

pub unlock : ℕ → M (Unit {0})
unfolding note
unlock ip s =
    if contains ip s.held then note (iunlock ip) (record s { held = remove ip s.held }) else fault

-- A reference is given back that the process must own.
pub put : ℕ → M (Unit {0})
unfolding note
put ip s =
    if contains ip s.refs then note (iput ip) (record s { refs = remove ip s.refs }) else fault

-- `iunlockput`
pub unlock_put : ℕ → M (Unit {0})
unfolding ◌>>◌ unlock put
unlock_put ip s = (unlock ip >> put ip) s

abbrev own : Option ℕ → Ctx → Ctx
own none s = s
own (some ip) s = record s { refs = ip ∷ s.refs }

module _ (w : World) where
  -- A call that yields a reference to an inode, or a null pointer.
  pub find : Event → M (Option ℕ)
  find e s = done (w.pointer s e) (own (w.pointer s e) (noted s e))

  -- `nameiparent` also yields the last name of the path.
  pub find_parent : ℕ → M (Option ℕ × Name)
  find_parent path s =
      let e = nameiparent path in done (w.pointer s e, w.name s e) (own (w.pointer s e) (noted s e))

  -- `dirlookup` also yields the offset of the entry.
  pub lookup : ℕ → Name → M (Option ℕ × ℕ)
  lookup dp n s =
      let e = dirlookup dp n in done (w.pointer s e, w.word s e) (own (w.pointer s e) (noted s e))

  pub ask : Event → M ℤ
  ask e s = done (w.int s e) (noted s e)

  -- `readi(dp, (char*)&de, off, sizeof(de))`
  pub read_dirent : ℕ → ℕ → M (ℤ × ℕ)
  read_dirent dp off s = let e = readi dp off 16 in done (w.int s e, w.word s e) (noted s e)

  pub load : ℕ → M Inode
  load ip s = done (w.inode s ip) s

pub store : Event → M (Unit {0})
unfolding note
store e s = note e s
