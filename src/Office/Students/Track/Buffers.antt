-- ===== src/Office/Students/Track/Buffers.antt =====
-- What `send` and `receive` of Lab3/Lab3.c do to the buffers taken as lists.
use system_device_programmin.Base.{
  ℕ, ◌≡◌, subst, ap, ◌∙◌, inl, inr, List, [], ◌∷◌, ◌++◌, some, ℕ_discrete, arith,
}
use system_device_programmin.Office.Ring.{Info, Buffer}
use system_device_programmin.Office.Ring.Refines.{IsQueue, put-IsQueue, get-IsQueue}
use system_device_programmin.Office.{
  update, Cond, Shared, Queue, normal_q, special_q, urgent_q, answer_q, send, receive, buffer_of,
  with_buffer,
}
use system_device_programmin.Office.Tokens.{send-some, receive-some}
use system_device_programmin.Office.Students.Track.{Lists, list_of, with_list, Represents}

at_update :
    (f : ℕ → Buffer) (g : ℕ → List Info) (j : ℕ) (b : Buffer) (xs : List Info)
    → ((i : ℕ) → IsQueue (f i) (g i))
    → IsQueue b xs
    → (i : ℕ) → IsQueue (update f j b i) (update g j xs i)
at_update f g j b xs before new i = elim (ℕ_discrete i j) [
  | yes e ↦ ground (arith, e, new)
  | no ne ↦ ground (arith, ne, before i)
]

-- A buffer is replaced, with its list.
replaced :
    (q : Queue) (s : Shared) (l : Lists) (b : Buffer) (xs : List Info)
    → Represents s l
    → IsQueue b xs
    → Represents (with_buffer q b s) (with_list q xs l)
replaced normal_q s l b xs r new = record {
  normal = new;
  special = r.special;
  urgent = r.urgent;
  answers = r.answers;
}
replaced special_q s l b xs r new = record {
  normal = r.normal;
  special = new;
  urgent = r.urgent;
  answers = r.answers;
}
replaced (urgent_q o) s l b xs r new = record {
  normal = r.normal;
  special = r.special;
  urgent = at_update s.urgent_Q l.urgent o b xs r.urgent new;
  answers = r.answers;
}
replaced (answer_q i) s l b xs r new = record {
  normal = r.normal;
  special = r.special;
  urgent = r.urgent;
  answers = at_update s.answer_Q l.answers i b xs r.answers new;
}

pub list-buffer :
    (q : Queue) {s : Shared} {l : Lists} → Represents s l → IsQueue (buffer_of q s) (list_of q l)
list-buffer normal_q r = r.normal
list-buffer special_q r = r.special
list-buffer (urgent_q o) r = r.urgent o
list-buffer (answer_q i) r = r.answers i

-- The counters do not matter.
pub other_cond :
    {s : Shared} {c : Cond} {l : Lists} → Represents s l → Represents (record s { cond = c }) l
other_cond r = record {
  normal = r.normal;
  special = r.special;
  urgent = r.urgent;
  answers = r.answers;
}

pub send-Represents :
    (q : Queue) (v : Info) {s m : Shared} {l : Lists}
    → Represents s l
    → send q v s ≡ some m
    → Represents m (with_list q (list_of q l ++ v ∷ []) l)
send-Represents q v {s} {m} {l} r e =
    let (b, e1, e2) = send-some q v s e in
    elim (put-IsQueue (buffer_of q s) (list_of q l) v (list-buffer q r)) [
      | inr (full, none_put) ↦ absurd (ground arith)
      | inl (room, b', e3, new, same) ↦
          let is_b : b' ≡ b = ground arith in
          let xs = list_of q l ++ v ∷ [] in
          subst (λ x. Represents x (with_list q xs l)) e2
            (other_cond (replaced q s l b xs r (subst (λ x. IsQueue x xs) is_b new)))
    ]

pub receive-Represents :
    (q : Queue) (v : Info) {s m : Shared} {l : Lists}
    → Represents s l
    → receive q s ≡ some (v, m)
    → (ys : List Info) × (list_of q l ≡ v ∷ ys) × Represents m (with_list q ys l)
receive-Represents q v {s} {m} {l} r e =
    let (b, e1, e2) = receive-some q v s e in
    elim (get-IsQueue (buffer_of q s) (list_of q l) (list-buffer q r)) [
      | inl (empty, none_got) ↦ absurd (ground arith)
      | inr (x, ys, at_head, b', e3, rest, same) ↦
          let is_v : x ≡ v = ground arith in
          let is_b : b' ≡ b = ground arith in
          (
            ys,
            at_head ∙ ap (λ y. y ∷ ys) is_v,
            subst (λ y. Represents y (with_list q ys l)) e2
                (replaced q s l b ys r (subst (λ y. IsQueue y ys) is_b rest)),
          )
    ]
