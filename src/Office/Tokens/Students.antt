-- ===== src/Office/Tokens/Students.antt =====
-- The steps of students in Lab3/Lab3.c keep the counters in agreement with the buffers, and so do
-- those that send an answer.
use system_device_programmin.Base.{ℕ, ◌+◌, ◌<◌, ◌≡◌, some, subst, sym, arith}
use system_device_programmin.Office.Ring.{Info}
use system_device_programmin.Office.{
  num_offices, update, Cond, Shared, normal_q, special_q, urgent_q, answer_q, notify, send, receive,
  office_answer,
}
use system_device_programmin.Office.System.{System}
use system_device_programmin.Office.Tokens.{
  Holds-same, put-Holds, send-some, receive-some, Tokens, Holds-update,
}

notify_plain :
    (info : Info) (c : Cond)
    → info.urgent ≡ 0
    → notify normal_q info c ≡ record c { normal = c.normal + 1 }
unfolding notify
notify_plain info c plain = ground arith

notify_special :
    (info : Info) (c : Cond)
    → info.urgent ≡ 1
    → notify special_q info c
      ≡ record c { urgent = update c.urgent num_offices (c.urgent num_offices + 1) }
unfolding notify
notify_special info c again = ground arith

notify_urgent :
    (info : Info) (c : Cond)
    → info.urgent ≡ 1
    → notify (urgent_q info.office_no) info c
      ≡ record c { urgent = update c.urgent info.office_no (c.urgent info.office_no + 1) }
unfolding notify
notify_urgent info c again = ground arith

module _ (s : System) (t : Tokens s) where
  pub student_normal-Tokens :
      (info : Info) {m : Shared}
      → info.urgent ≡ 0
      → send normal_q info s.shared ≡ some m
      → Tokens (record s { shared = m })
  student_normal-Tokens info plain e =
      let (b, e1, e2) = send-some normal_q info s.shared e in
      let e3 = notify_plain info s.shared.cond plain in
      subst (λ x. Tokens (record s { shared = x })) e2
        (subst (λ c. Tokens (record s { shared = record s.shared { normal_Q = b; cond = c } }))
          (sym e3)
          (record {
            normal = Holds-same _ (put-Holds s.shared.normal_Q _ info t.normal e1) (omega arith);
            urgent = t.urgent;
            special = t.special;
          }))

  pub student_special-Tokens :
      (info : Info) {m : Shared}
      → info.urgent ≡ 1
      → send special_q info s.shared ≡ some m
      → Tokens (record s { shared = m })
  student_special-Tokens info again e =
      let (b, e1, e2) = send-some special_q info s.shared e in
      let e3 = notify_special info s.shared.cond again in
      subst (λ x. Tokens (record s { shared = x })) e2
        (subst (λ c. Tokens (record s { shared = record s.shared { special_Q = b; cond = c } }))
          (sym e3)
          (record {
            normal = t.normal;
            urgent = λ i lt. Holds-same _ (t.urgent i lt) (ground arith);
            special =
                Holds-same _ (put-Holds s.shared.special_Q _ info t.special e1) (ground arith);
          }))

  pub student_urgent-Tokens :
      (info : Info) {m : Shared}
      → info.urgent ≡ 1
      → info.office_no < num_offices
      → send (urgent_q info.office_no) info s.shared ≡ some m
      → Tokens (record s { shared = m })
  student_urgent-Tokens info again inside e =
      let (b, e1, e2) = send-some (urgent_q info.office_no) info s.shared e in
      let e3 = notify_urgent info s.shared.cond again in
      subst (λ x. Tokens (record s { shared = x })) e2
        (subst
          (λ c. Tokens (record s {
            shared = record s.shared {
              urgent_Q = update s.shared.urgent_Q info.office_no b;
              cond = c;
            };
          }))
          (sym e3)
          (record {
            normal = t.normal;
            urgent =
                Holds-update s.shared.urgent_Q _ _ info.office_no b t.urgent
                  (Holds-same _
                    (put-Holds (s.shared.urgent_Q info.office_no) _ info
                      (t.urgent info.office_no inside) e1)
                    (ground arith))
                  (λ i ne. ground arith);
            special = Holds-same _ t.special (ground arith);
          }))

  pub answer_received-Tokens :
      (i : ℕ) (info : Info) {m : Shared}
      → receive (answer_q i) s.shared ≡ some (info, m)
      → Tokens (record s { shared = m })
  answer_received-Tokens i info e =
      let (b, e1, e2) = receive-some (answer_q i) info s.shared e in
      subst (λ x. Tokens (record s { shared = x })) e2
        (record { normal = t.normal; urgent = t.urgent; special = t.special })

  pub answer_sent-Tokens :
      (info : Info) {m : Shared}
      → office_answer info s.shared ≡ some m
      → Tokens (record s { shared = m })
  unfolding office_answer notify
  answer_sent-Tokens info e =
      let (b, e1, e2) = send-some (answer_q info.id) info s.shared e in
      subst (λ x. Tokens (record s { shared = x })) e2
        (record { normal = t.normal; urgent = t.urgent; special = t.special })
