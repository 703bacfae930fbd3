-- ===== src/Office/Students/Track/Results.antt =====
-- What the parts of `office` and `special_office` in Lab3/Lab3.c have done where they do not wait.
use system_device_programmin.Base.{
  ℕ, ◌≡◌, ◌⊎◌, inl, inr, some, Option-cases, if◌then◌else◌, ltb, ℕ_discrete, arith,
}
use system_device_programmin.Office.Ring.{Info}
use system_device_programmin.Office.{
  num_offices, Shared, normal_q, urgent_q, receive, Office, serve_urgent, serve_normal, answer,
  office_take, office_urgent, office_normal, special_take,
}

pub office_take-some :
    (o : ℕ) (w : Office) (s : Shared) {m : Shared}
    → office_take o s ≡ some (w, m)
    → (record s { cond = m.cond } ≡ m) × ((w ≡ serve_normal) ⊎ (w ≡ serve_urgent))
unfolding office_take
office_take-some o w s {m} e = elim (ℕ_discrete (s.cond.urgent o) 0) [
  | yes none_urgent ↦ elim (ℕ_discrete s.cond.normal 0) [
    | yes none_normal ↦ absurd (ground arith)
    | no some_normal ↦ (ground arith, inl (ground arith))
  ]
  | no some_urgent ↦ (ground arith, inr (ground arith))
]

pub office_urgent-some :
    (o : ℕ) (w : Office) (s : Shared) {m : Shared}
    → office_urgent o s ≡ some (w, m)
    → (v : Info) × (receive (urgent_q o) s ≡ some (v, m)) × (answer (record v { urgent = 0 }) ≡ w)
unfolding office_urgent
office_urgent-some o w s e = elim (Option-cases (receive (urgent_q o) s)) [
  | inl waits ↦ absurd (ground arith)
  | inr ((v, m'), got) ↦ (v, ground arith, ground arith)
]

pub office_normal-some :
    (draw o : ℕ) (w : Office) (s : Shared) {m : Shared}
    → office_normal draw o s ≡ some (w, m)
    → (v : Info) × (receive normal_q s ≡ some (v, m))
      × (u : ℕ) × (answer (record v { office_no = o; urgent = u }) ≡ w)
unfolding office_normal
office_normal-some draw o w s e = elim (Option-cases (receive normal_q s)) [
  | inl waits ↦ absurd (ground arith)
  | inr ((v, m'), got) ↦ (v, ground arith, if ltb draw 4 then 1 else 0, ground arith)
]

pub special_take-some :
    (s : Shared) {m : Shared} → special_take s ≡ some m → record s { cond = m.cond } ≡ m
unfolding special_take
special_take-some s {m} e = elim (ℕ_discrete (s.cond.urgent num_offices) 0) [
  | yes none_urgent ↦ absurd (ground arith)
  | no some_urgent ↦ ground arith
]
