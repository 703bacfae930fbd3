-- ===== src/Office/Tokens/Offices.antt =====
-- The steps of offices in Lab3/Lab3.c keep the counters in agreement with the buffers.
use system_device_programmin.Base.{
  ℕ, ◌-◌, ◌<◌, ◌≡◌, ◌≢◌, inl, inr, some, if◌then◌else◌, Option-cases, subst, ap, ℕ_discrete, arith,
  ltb,
}
use system_device_programmin.Office.Ring.{Info, Buffer, get}
use system_device_programmin.Office.{
  num_offices, update, Shared, normal_q, urgent_q, receive, Office, waiting, serve_urgent,
  serve_normal, answer, office_take, office_urgent, office_normal, with_buffer,
}
use system_device_programmin.Office.System.{System}
use system_device_programmin.Office.Tokens.{
  Holds-same, get-Holds, at_normal, at_urgent, all_normal-update, Tokens, Holds-update,
}

module _ (s : System) (t : Tokens s) where
  -- A step that ends with the thread of office `i` at `w` and the shared state `m`.
  abbrev pub At : ℕ → Office → Shared → Type 0
  At i w m = Tokens (record s { shared = m; office = update s.office i w })

  -- A request is counted down: the office goes to the `receive` for it.
  takes_normal :
      (i : ℕ)
      → i < num_offices
      → s.office i ≡ waiting
      → s.shared.cond.normal ≢ 0
      → At i serve_normal
          (record s.shared { cond = record s.shared.cond { normal = s.shared.cond.normal - 1 } })
  takes_normal i lt idle some_normal = record {
    normal =
        Holds-same _ t.normal
          (omega (arith, all_normal-update s.office i serve_normal lt, ap at_normal idle));
    urgent = λ j lt'. Holds-same _ (t.urgent j lt') (ground (arith, ap at_urgent idle));
    special = t.special;
  }

  takes_urgent :
      (i : ℕ)
      → i < num_offices
      → s.office i ≡ waiting
      → s.shared.cond.urgent i ≢ 0
      → At i serve_urgent (record s.shared {
        cond = record s.shared.cond {
          urgent = update s.shared.cond.urgent i (s.shared.cond.urgent i - 1);
        };
      })
  takes_urgent i lt idle some_urgent = record {
    normal =
        Holds-same _ t.normal
          (omega (arith, all_normal-update s.office i serve_urgent lt, ap at_normal idle));
    urgent = λ j lt'. Holds-same _ (t.urgent j lt') (ground (arith, ap at_urgent idle));
    special = Holds-same _ t.special (ground arith);
  }

  pub office_take-Tokens :
      (i : ℕ) (w : Office) {m : Shared}
      → i < num_offices
      → s.office i ≡ waiting
      → office_take i s.shared ≡ some (w, m)
      → At i w m
  unfolding office_take
  office_take-Tokens i w {m} lt idle e = elim (ℕ_discrete (s.shared.cond.urgent i) 0) [
    | yes none_urgent ↦ elim (ℕ_discrete s.shared.cond.normal 0) [
      | yes none_normal ↦ absurd (ground arith)
      | no some_normal ↦
          subst (λ x. At i x m) (ground arith)
            (subst (At i serve_normal) (ground arith) (takes_normal i lt idle some_normal))
    ]
    | no some_urgent ↦
        subst (λ x. At i x m) (ground arith)
          (subst (At i serve_urgent) (ground arith) (takes_urgent i lt idle some_urgent))
  ]

  -- The request is received.
  urgent_received :
      (i : ℕ) (info v : Info) (b : Buffer)
      → i < num_offices
      → s.office i ≡ serve_urgent
      → get (s.shared.urgent_Q i) ≡ some (info, b)
      → At i (answer v) (with_buffer (urgent_q i) b s.shared)
  urgent_received i info v b lt busy e = record {
    normal =
        Holds-same _ t.normal
          (omega (arith, all_normal-update s.office i (answer v) lt, ap at_normal busy));
    urgent =
        Holds-update s.shared.urgent_Q _ _ i b t.urgent
          (Holds-same _ (get-Holds (s.shared.urgent_Q i) _ info (t.urgent i lt) e)
            (ground (arith, ap at_urgent busy)))
          (λ j ne. ground arith);
    special = t.special;
  }

  normal_received :
      (i : ℕ) (info v : Info) (b : Buffer)
      → i < num_offices
      → s.office i ≡ serve_normal
      → get s.shared.normal_Q ≡ some (info, b)
      → At i (answer v) (with_buffer normal_q b s.shared)
  normal_received i info v b lt busy e = record {
    normal =
        Holds-same _ (get-Holds s.shared.normal_Q _ info t.normal e)
          (omega (arith, all_normal-update s.office i (answer v) lt, ap at_normal busy));
    urgent = λ j lt'. Holds-same _ (t.urgent j lt') (ground (arith, ap at_urgent busy));
    special = t.special;
  }

  pub office_urgent-Tokens :
      (i : ℕ) (w : Office) {m : Shared}
      → i < num_offices
      → s.office i ≡ serve_urgent
      → office_urgent i s.shared ≡ some (w, m)
      → At i w m
  unfolding office_urgent receive
  office_urgent-Tokens i w {m} lt busy e = elim (Option-cases (get (s.shared.urgent_Q i))) [
    | inl stays ↦ absurd (ground arith)
    | inr ((info, b), goes) ↦
        subst (λ x. At i x m) (ground arith)
          (subst (At i (answer (record info { urgent = 0 }))) (ground arith)
            (urgent_received i info _ b lt busy goes))
  ]

  pub office_normal-Tokens :
      (i draw : ℕ) (w : Office) {m : Shared}
      → i < num_offices
      → s.office i ≡ serve_normal
      → office_normal draw i s.shared ≡ some (w, m)
      → At i w m
  unfolding office_normal receive
  office_normal-Tokens i draw w {m} lt busy e = elim (Option-cases (get s.shared.normal_Q)) [
    | inl stays ↦ absurd (ground arith)
    | inr ((info, b), goes) ↦
        let v : Info = record info { office_no = i; urgent = if ltb draw 4 then 1 else 0 } in
        subst (λ x. At i x m) (ground arith)
          (subst (At i (answer v)) (ground arith) (normal_received i info v b lt busy goes))
  ]

  -- The answer is sent, from the state behind the `send`.
  pub office_answer-Tokens :
      (i : ℕ) (info : Info) → i < num_offices → s.office i ≡ answer info → At i waiting s.shared
  office_answer-Tokens i info lt busy = record {
    normal =
        Holds-same _ t.normal
          (omega (arith, all_normal-update s.office i waiting lt, ap at_normal busy));
    urgent = λ j lt'. Holds-same _ (t.urgent j lt') (ground (arith, ap at_urgent busy));
    special = t.special;
  }
