-- ===== src/Office/Tokens/Seat.antt =====
-- The steps of the special office in Lab3/Lab3.c keep the counters in agreement with the buffers.
use system_device_programmin.Base.{◌-◌, ◌≡◌, ◌≢◌, some, subst, ap, ℕ_discrete, arith}
use system_device_programmin.Office.Ring.{Info}
use system_device_programmin.Office.{
  num_offices, update, Shared, special_q, special_take, special_serve,
}
use system_device_programmin.Office.System.{System, at_top, serve_special, answer_special}
use system_device_programmin.Office.Tokens.{Holds-same, get-Holds, receive-some, at_special, Tokens}

module _ (s : System) (t : Tokens s) where
  special_counted :
      s.special ≡ at_top
      → s.shared.cond.urgent num_offices ≢ 0
      → Tokens (record s {
        shared = record s.shared {
          cond = record s.shared.cond {
            urgent = update s.shared.cond.urgent num_offices (s.shared.cond.urgent num_offices - 1);
          };
        };
        special = serve_special;
      })
  special_counted idle some_urgent = record {
    normal = t.normal;
    urgent = λ i lt. Holds-same _ (t.urgent i lt) (ground arith);
    special = Holds-same _ t.special (ground (arith, ap at_special idle));
  }

  pub special_take-Tokens :
      {m : Shared}
      → s.special ≡ at_top
      → special_take s.shared ≡ some m
      → Tokens (record s { shared = m; special = serve_special })
  unfolding special_take
  special_take-Tokens {m} idle e = elim (ℕ_discrete (s.shared.cond.urgent num_offices) 0) [
    | yes none_urgent ↦ absurd (ground arith)
    | no some_urgent ↦
        subst (λ x. Tokens (record s { shared = x; special = serve_special })) (ground arith)
          (special_counted idle some_urgent)
  ]

  pub special_serve-Tokens :
      (info : Info) {m : Shared}
      → s.special ≡ serve_special
      → special_serve s.shared ≡ some (info, m)
      → Tokens (record s { shared = m; special = answer_special info })
  unfolding special_serve
  special_serve-Tokens info busy e =
      let (b, e1, e2) = receive-some special_q info s.shared e in
      subst (λ x. Tokens (record s { shared = x; special = answer_special info })) e2
        (record {
          normal = t.normal;
          urgent = t.urgent;
          special =
              Holds-same _ (get-Holds s.shared.special_Q _ info t.special e1)
                (omega (arith, ap at_special busy));
        })

  pub special_answer-Tokens :
      (info : Info) → s.special ≡ answer_special info → Tokens (record s { special = at_top })
  special_answer-Tokens info busy = record {
    normal = t.normal;
    urgent = t.urgent;
    special = Holds-same _ t.special (omega (arith, ap at_special busy));
  }
