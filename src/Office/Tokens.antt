-- ===== src/Office/Tokens.antt =====
-- The counters of Lab3/Lab3.c against the buffers: an office that has counted a request down finds
-- it in the buffer.
pub mod Students
pub mod Offices
pub mod Seat
pub mod Served
use system_device_programmin.Base.{
  ℕ, zero, suc, ◌+◌, ◌-◌, ◌≤◌, ◌<◌, ◌≡◌, ◌≢◌, refl, inl, inr, List, [], ◌∷◌, ◌++◌, Option, none,
  some, ◌==◌, if◌then◌else◌, Option-cases, subst, sym, ap, length, ℕ_discrete, arith, ltb,
}
use system_device_programmin.Office.Ring.{Info, Buffer, put, get}
use system_device_programmin.Office.Ring.Refines.{IsQueue, length-snoc, put-IsQueue, get-IsQueue}
use system_device_programmin.Office.{
  num_offices, update, Cond, Shared, Queue, normal_q, special_q, urgent_q, answer_q, notify, send,
  receive, Office, waiting, serve_urgent, serve_normal, answer, office_take, office_urgent,
  office_normal, office_answer, special_take, special_serve, buffer_of, with_buffer,
}
use system_device_programmin.Office.System.{
  System, Special, at_top, serve_special, answer_special, Step, student_normal, student_special,
  student_urgent, student_receives, takes, serves_urgent, serves_normal, answers, special_takes,
  special_serves, special_answers, Reach, start, next,
}

-- A buffer that holds `n` entries.
abbrev pub Holds : Buffer → ℕ → Type 0
Holds b n = (b.count ≡ n) × (xs : List Info) × IsQueue b xs

pub Holds-same : {b : Buffer} (n : ℕ) {n' : ℕ} → Holds b n → n ≡ n' → Holds b n'
Holds-same n (size, xs, q) e = (omega arith, xs, q)

pub put-Holds :
    (b : Buffer) (n : ℕ) (x : Info) {b' : Buffer} → Holds b n → put x b ≡ some b' → Holds b' (n + 1)
put-Holds b n x {b'} (size, xs, q) e = elim (put-IsQueue b xs x q) [
  | inl (free, b1, e1, q1, same) ↦
      let e2 : b1 ≡ b' = ground arith in
      subst (λ c. Holds c (n + 1)) e2
        (omega (arith, q1.counted, q.counted, length-snoc xs x), xs ++ x ∷ [], q1)
  | inr (full, e1) ↦ absurd (ground arith)
]

-- A buffer that is not empty yields an entry.
get_entry :
    (b : Buffer) (n : ℕ) (x : Info) {b' : Buffer}
    → Holds b n
    → get b ≡ some (x, b')
    → (0 < n) × Holds b' (n - 1)
get_entry b n x {b'} (size, xs, q) e = elim (get-IsQueue b xs q) [
  | inl (empty, e1) ↦ absurd (ground arith)
  | inr (y, ys, e0, b1, e1, q1, same) ↦
      let e2 : b1 ≡ b' = ground arith in
      let n1 : suc (length ys) ≡ n = omega (arith, q.counted, ap length e0) in
      (omega arith, subst (λ c. Holds c (n - 1)) e2 (omega (arith, q1.counted), ys, q1))
]

pub get-Holds :
    (b : Buffer) (n : ℕ) (x : Info) {b' : Buffer}
    → Holds b n
    → get b ≡ some (x, b')
    → Holds b' (n - 1)
get-Holds b n x h e = (get_entry b n x h e).1

pub get_finds : (b : Buffer) (n : ℕ) → Holds b (suc n) → get b ≢ none
get_finds b n (size, xs, q) e = elim (get-IsQueue b xs q) [
  | inl (empty, e1) ↦ omega (arith, q.counted, ap length empty)
  | inr (y, ys, e0, b1, e1, q1, same) ↦ ground arith
]

-- What a `send` and a `receive` that do not wait have done.
pub send-some :
    (q : Queue) (info : Info) (s : Shared) {m : Shared}
    → send q info s ≡ some m
    → (b : Buffer) × (put info (buffer_of q s) ≡ some b)
      × (record (with_buffer q b s) { cond = notify q info (with_buffer q b s).cond } ≡ m)
unfolding send
send-some q info s e = elim (Option-cases (put info (buffer_of q s))) [
  | inl stays ↦ absurd (ground arith)
  | inr (b, goes) ↦ (b, goes, ground arith)
]

pub receive-some :
    (q : Queue) (info : Info) (s : Shared) {m : Shared}
    → receive q s ≡ some (info, m)
    → (b : Buffer) × (get (buffer_of q s) ≡ some (info, b)) × (with_buffer q b s ≡ m)
unfolding receive
receive-some q info s e = elim (Option-cases (get (buffer_of q s))) [
  | inl stays ↦ absurd (ground arith)
  | inr ((x, b), goes) ↦ (b, ground arith, ground arith)
]

-- Whether the thread has counted a request down that it has not received yet.
abbrev pub at_normal : Office → ℕ
at_normal serve_normal = 1
at_normal _ = 0

abbrev pub at_urgent : Office → ℕ
at_urgent serve_urgent = 1
at_urgent _ = 0

abbrev pub at_special : Special → ℕ
at_special serve_special = 1
at_special _ = 0

-- The offices of which this holds for `normal`.
abbrev pub all_normal : (ℕ → Office) → ℕ
all_normal f = at_normal (f 0) + at_normal (f 1) + at_normal (f 2) + at_normal (f 3)

-- Every buffer of requests holds those that are counted, and one for each thread that has counted
-- one down and not received it yet.
pub record Tokens (s : System) : Type 0 where
  pub normal : Holds s.shared.normal_Q (s.shared.cond.normal + all_normal s.office)
  pub urgent :
      (i : ℕ)
      → i < num_offices
      → Holds (s.shared.urgent_Q i) (s.shared.cond.urgent i + at_urgent (s.office i))
  pub special : Holds s.shared.special_Q (s.shared.cond.urgent num_offices + at_special s.special)

pub all_normal-update :
    (f : ℕ → Office) (i : ℕ) (w : Office)
    → i < num_offices
    → all_normal (update f i w) + at_normal (f i) ≡ all_normal f + at_normal w
all_normal-update f i w lt = ground arith

update_self : {A : Type 0} (f : ℕ → A) (j : ℕ) (a : A) → update f j a j ≡ a
update_self f j a = ground arith

update_ne : {A : Type 0} (f : ℕ → A) (j i : ℕ) (a : A) → i ≢ j → update f j a i ≡ f i
update_ne f j i a ne = ground arith

-- One urgent buffer changes.
pub Holds-update :
    (q : ℕ → Buffer) (n n' : ℕ → ℕ) (j : ℕ) (b : Buffer)
    → ((i : ℕ) → i < num_offices → Holds (q i) (n i))
    → Holds b (n' j)
    → ((i : ℕ) → i ≢ j → n i ≡ n' i)
    → (i : ℕ) → i < num_offices
    → Holds (update q j b i) (n' i)
Holds-update q n n' j b before at_j rest i lt = elim (ℕ_discrete i j) [
  | yes e ↦
      subst (λ k. Holds (update q j b k) (n' k)) (sym e)
        (subst (λ c. Holds c (n' j)) (sym (update_self q j b)) at_j)
  | no ne ↦
      subst (λ c. Holds c (n' i)) (sym (update_ne q j i b ne))
        (Holds-same _ (before i lt) (rest i ne))
]
