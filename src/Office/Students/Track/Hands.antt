-- ===== src/Office/Students/Track/Hands.antt =====
-- The steps of the offices of Lab3/Lab3.c keep the request of a student on its track.
use system_device_programmin.Base.{
  ℕ, ◌+◌, ◌<◌, ◌≡◌, ◌≢◌, sym, subst, ap, List, [], ◌∷◌, ◌++◌, length, ℕ_discrete, arith,
}
use system_device_programmin.Office.Ring.{Info}
use system_device_programmin.Office.Ring.Refines.{length-snoc}
use system_device_programmin.Office.{
  num_offices, update, Shared, normal_q, urgent_q, answer_q, Office, waiting, serve_urgent,
  serve_normal, answer,
}
use system_device_programmin.Office.System.{System}
use system_device_programmin.Office.Students.{Student}
use system_device_programmin.Office.Students.Track.{
  Lists, with_list, Each, mine, of_mine, in_hand, in_hands, Fits, HandFits, OnTrack,
}
use system_device_programmin.Office.Students.Track.Own.{Each-append, one_place, in_urgents-update}

module _ (i : ℕ) (p : Student) where
  abbrev Hands : (ℕ → Office) → Type 0
  Hands f = (o : ℕ) (v : Info) → o < num_offices → f o ≡ answer v → v.id ≡ i → HandFits i p v

  update-Hands :
      (f : ℕ → Office) (o : ℕ) (w : Office)
      → Hands f
      → ((v : Info) → w ≡ answer v → v.id ≡ i → HandFits i p v)
      → Hands (update f o w)
  update-Hands f o w before new j v lt e own = elim (ℕ_discrete j o) [
    | yes same ↦ new v (ground (arith, e, same)) own
    | no other ↦ before j v lt (ground (arith, e, other)) own
  ]

  in_hands-update :
      (f : ℕ → Office) (o : ℕ) (w : Office)
      → o < num_offices
      → in_hands i (update f o w) + in_hand i (f o) ≡ in_hands i f + in_hand i w
  in_hands-update f o w lt = ground arith

  -- An answer is put into the buffer of its student.
  pub arrived :
      (l : Lists) (v : Info)
      → Each (Fits i p) (l.answers i)
      → (v.id ≡ i → Fits i p v)
      → let xs = update l.answers v.id (l.answers v.id ++ v ∷ []) i in
        Each (Fits i p) xs × (length xs ≡ length (l.answers i) + mine i v)
  arrived l v before fits =
      let xs = update l.answers v.id (l.answers v.id ++ v ∷ []) i in
      elim (ℕ_discrete v.id i) [
        | yes own ↦
            let is_new : xs ≡ l.answers i ++ v ∷ [] = ground (arith, own) in
            let one : mine i v ≡ 1 = ground (arith, own) in
            (
              subst (Each (Fits i p)) (sym is_new)
                  (Each-append (Fits i p) (l.answers i) v before (fits own)),
              omega (arith, ap length is_new, length-snoc (l.answers i) v),
            )
        | no other ↦
            let stays : xs ≡ l.answers i = ground (arith, other) in
            let none : mine i v ≡ 0 = ground (arith, other) in
            (subst (Each (Fits i p)) (sym stays) before, omega (arith, ap length stays))
      ]

  module _ (s : System) (l : Lists) (m : Shared) (t : OnTrack i p s l) where
    -- An office goes on with nothing in its hand.
    pub took :
        (o : ℕ) (w : Office)
        → o < num_offices
        → s.office o ≡ waiting
        → ((v : Info) → w ≢ answer v)
        → in_hand i w ≡ 0
        → OnTrack i p (record s { shared = m; office = update s.office o w }) l
    took o w lt idle not_answer nothing =
        let change = in_hands-update s.office o w lt in
        record {
          total = omega (arith, t.total, ap (in_hand i) idle);
          normal = t.normal;
          special = t.special;
          urgent = t.urgent;
          answers = t.answers;
          hands = update-Hands s.office o w t.hands (λ v e own. absurd (not_answer v e));
          held = t.held;
        }

    -- It takes a request from its own buffer.
    pub served_urgent :
        (o : ℕ) (v : Info) (ys : List Info)
        → o < num_offices
        → s.office o ≡ serve_urgent
        → l.urgent o ≡ v ∷ ys
        → let w = answer (record v { urgent = 0 }) in
          OnTrack i p
            (record s { shared = m; office = update s.office o w })
            (with_list (urgent_q o) ys l)
    served_urgent o v ys lt busy e =
        let w = answer (record v { urgent = 0 }) in
        let change = in_hands-update s.office o w lt in
        let shorter = in_urgents-update i l.urgent o ys lt in
        let counts = ap (of_mine i) e in
        record {
          total = omega (arith, t.total, ap (in_hand i) busy);
          normal = t.normal;
          special = t.special;
          urgent = omega (arith, t.urgent);
          answers = t.answers;
          hands = update-Hands s.office o w t.hands (λ x is_w own.
              let mine_too : mine i v ≡ 1 = ground (arith, is_w, own) in
              record {
                of_normal = λ at_normal. absurd (omega (arith, t.urgent, one_place p));
                not_special = omega (arith, t.urgent, one_place p);
              });
          held = t.held;
        }

    -- It takes one from the buffer of normal requests.
    pub served_normal :
        (o u : ℕ) (v : Info) (ys : List Info)
        → o < num_offices
        → s.office o ≡ serve_normal
        → l.normal ≡ v ∷ ys
        → let w = answer (record v { office_no = o; urgent = u }) in
          OnTrack i p
            (record s { shared = m; office = update s.office o w })
            (with_list normal_q ys l)
    served_normal o u v ys lt busy e =
        let w = answer (record v { office_no = o; urgent = u }) in
        let change = in_hands-update s.office o w lt in
        let counts = ap (of_mine i) e in
        record {
          total = omega (arith, t.total, ap (in_hand i) busy);
          normal = omega (arith, t.normal);
          special = t.special;
          urgent = t.urgent;
          answers = t.answers;
          hands = update-Hands s.office o w t.hands (λ x is_w own.
              let mine_too : mine i v ≡ 1 = ground (arith, is_w, own) in
              let office_is : o ≡ x.office_no = ground (arith, is_w) in
              record {
                of_normal = λ at_normal. omega arith;
                not_special = omega (arith, t.normal, one_place p);
              });
          held = t.held;
        }

    -- It answers.
    pub answered :
        (o : ℕ) (v : Info)
        → o < num_offices
        → s.office o ≡ answer v
        → OnTrack i p
            (record s { shared = m; office = update s.office o waiting })
            (with_list (answer_q v.id) (l.answers v.id ++ v ∷ []) l)
    answered o v lt busy =
        let change = in_hands-update s.office o waiting lt in
        let counts = ap (in_hand i) busy in
        let (each, longer) = arrived l v t.answers (λ own.
          let fits = t.hands o v lt busy own in
          record {
            own = own;
            of_normal = fits.of_normal;
            of_special = λ at_special. absurd (omega (arith, fits.not_special));
          }) in
        record {
          total = omega (arith, t.total);
          normal = t.normal;
          special = t.special;
          urgent = t.urgent;
          answers = each;
          hands = update-Hands s.office o waiting t.hands (λ x e own. absurd (ground arith));
          held = t.held;
        }
