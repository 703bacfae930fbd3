-- ===== src/Office/Students/Track/Seat.antt =====
-- The steps of the special office of Lab3/Lab3.c keep the request of a student on its track.
use system_device_programmin.Base.{ℕ, ◌≡◌, ap, List, [], ◌∷◌, ◌++◌, arith}
use system_device_programmin.Office.Ring.{Info}
use system_device_programmin.Office.{Shared, special_q, answer_q}
use system_device_programmin.Office.System.{System, at_top, serve_special, answer_special}
use system_device_programmin.Office.Students.{Student}
use system_device_programmin.Office.Students.Track.{
  Lists, with_list, Again, mine, of_mine, in_special_hand, OnTrack,
}
use system_device_programmin.Office.Students.Track.Own.{one_place}
use system_device_programmin.Office.Students.Track.Hands.{arrived}

module _ (i : ℕ) (p : Student) (s : System) (l : Lists) (m : Shared) (t : OnTrack i p s l) where
  pub special_took :
      s.special ≡ at_top → OnTrack i p (record s { shared = m; special = serve_special }) l
  special_took idle =
      let counts = ap (in_special_hand i) idle in
      record {
        total = omega (arith, t.total);
        normal = t.normal;
        special = omega (arith, t.special);
        urgent = t.urgent;
        answers = t.answers;
        hands = t.hands;
        held = t.held;
      }

  pub special_served :
      (v : Info) (ys : List Info)
      → s.special ≡ serve_special
      → l.special ≡ v ∷ ys
      → OnTrack i p (record s { shared = m; special = answer_special v }) (with_list special_q ys l)
  special_served v ys busy e =
      let counts = ap (in_special_hand i) busy in
      let shorter = ap (of_mine i) e in
      record {
        total = omega (arith, t.total);
        normal = t.normal;
        special = omega (arith, t.special);
        urgent = t.urgent;
        answers = t.answers;
        hands = t.hands;
        held = t.held;
      }

  pub special_answered :
      (v : Info)
      → s.special ≡ answer_special v
      → Again v
      → OnTrack i p
          (record s { shared = m; special = at_top })
          (with_list (answer_q v.id) (l.answers v.id ++ v ∷ []) l)
  special_answered v busy again =
      let counts = ap (in_special_hand i) busy in
      let (each, longer) = arrived i p l v t.answers (λ own.
        let mine_too : mine i v ≡ 1 = ground (arith, own) in
        record {
          own = own;
          of_normal = λ at_normal. absurd (omega (arith, t.special, one_place p));
          of_special = λ at_special. again;
        }) in
      record {
        total = omega (arith, t.total);
        normal = t.normal;
        special = omega (arith, t.special);
        urgent = t.urgent;
        answers = each;
        hands = t.hands;
        held = t.held;
      }
