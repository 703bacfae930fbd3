-- ===== src/Clients/Stuck.antt =====
-- In Lab1/Lab1.3.c the handler may interrupt a client inside `mutex`: then it waits for ever.
use system_device_programmin.Base.{
  ℕ, zero, suc, ◌<◌, ◌≡◌, ◌≢◌, refl, sym, ap, ◌∙◌, count_pos, List, [], ◌∷◌, some, get_elem?,
  get_elem?-set_ne, set, count, ℤ, arith,
}
use system_device_programmin.Clients.{
  Client, Server, idle, doubling, to_post, at_top, reading, has_read, at_eof, at_kill, at_ready,
  to_print, printing, finished, System, at_mutex, Step, opens, fails_opening, enters, reads,
  meets_end, leaves, ends, kills, is_ready, enters_again, prints, interrupts, locks, doubles, posts,
  Reach, start, next, initial,
}
use system_device_programmin.Clients.Counts.{
  inside, server_code, IsCounted, Step-IsCounted, Reach-IsCounted,
}

inside_pos :
    (l : List Client) (i : ℕ) {p : Client}
    → get_elem? l i ≡ some p
    → inside p ≡ 1
    → 0 < count inside reading l
unfolding count
inside_pos [] i e holds = absurd (ground arith)
inside_pos (q ∷ l) zero e holds = ground arith
inside_pos (q ∷ l) (suc i) e holds = omega (arith, inside_pos l i e holds)

-- The client `i` is inside `mutex`, at `p`, and the handler that runs in its thread waits for it;
-- `n` requests were served.
record Trapped (i : ℕ) (p : Client) (n : ℕ) (s : System) : Type 0 where
  counted : IsCounted s
  waits : get_elem? s.handlers i ≡ some at_mutex
  there : get_elem? s.clients i ≡ some p
  holds : inside p ≡ 1
  served : s.request_nb ≡ n

module _ {i : ℕ} {p : Client} {n : ℕ} where
  taken : {s : System} → Trapped i p n s → s.mutex ≡ 0
  taken {s} t = omega (arith, t.counted.mutex, inside_pos s.clients i t.there t.holds)

  -- The handler of `i` waits, so that a thread where it is elsewhere is another thread.
  elsewhere :
      {s : System} {j : ℕ} {w : Server}
      → Trapped i p n s
      → get_elem? s.handlers j ≡ some w
      → w ≢ at_mutex
      → j ≢ i
  elsewhere {s} {w = w} t e ne same =
      let there : get_elem? s.handlers i ≡ some w =
        ap (λ k. get_elem? s.handlers k) (sym same) ∙ e in
      ne (ground (arith, there, t.waits))

  -- A step of another client.
  other_client :
      {s u : System} (j : ℕ) (new : Client)
      → Trapped i p n s
      → Step s u
      → get_elem? s.handlers j ≡ some idle
      → u.clients ≡ set s.clients j new
      → u.handlers ≡ s.handlers
      → u.request_nb ≡ s.request_nb
      → Trapped i p n u
  other_client {s} {u} j new t st f clients handlers nb = record {
    counted = Step-IsCounted t.counted st;
    waits = ap (λ l. get_elem? l i) handlers ∙ t.waits;
    there =
        ap (λ l. get_elem? l i) clients
        ∙ get_elem?-set_ne s.clients new (elsewhere t f (λ e. ground arith))
        ∙ t.there;
    holds = t.holds;
    served = nb ∙ t.served;
  }

  -- A step of the handler in another thread.
  other_handler :
      {s u : System} (j : ℕ) (old new : Server)
      → Trapped i p n s
      → Step s u
      → get_elem? s.handlers j ≡ some old
      → old ≢ at_mutex
      → u.handlers ≡ set s.handlers j new
      → u.clients ≡ s.clients
      → u.request_nb ≡ s.request_nb
      → Trapped i p n u
  other_handler {s} {u} j old new t st e ne handlers clients nb = record {
    counted = Step-IsCounted t.counted st;
    waits =
        ap (λ l. get_elem? l i) handlers
        ∙ get_elem?-set_ne s.handlers new (elsewhere t e ne)
        ∙ t.waits;
    there = ap (λ l. get_elem? l i) clients ∙ t.there;
    holds = t.holds;
    served = nb ∙ t.served;
  }

  Step-Trapped : {s u : System} → Trapped i p n s → Step s u → Trapped i p n u
  Step-Trapped t (opens j (e, f)) = other_client j at_top t (opens j (e, f)) f refl refl refl
  Step-Trapped t (fails_opening j (e, f)) =
      other_client j finished t (fails_opening j (e, f)) f refl refl refl
  Step-Trapped t (enters j (e, f) lt) =
      other_client j reading t (enters j (e, f) lt) f refl refl refl
  Step-Trapped t (reads j x xs (e, f) rest) =
      other_client j has_read t (reads j x xs (e, f) rest) f refl refl refl
  Step-Trapped t (meets_end j (e, f) rest) =
      other_client j at_eof t (meets_end j (e, f) rest) f refl refl refl
  Step-Trapped t (leaves j (e, f)) = other_client j at_kill t (leaves j (e, f)) f refl refl refl
  Step-Trapped t (ends j (e, f)) = other_client j finished t (ends j (e, f)) f refl refl refl
  Step-Trapped t (kills j (e, f)) = other_client j at_ready t (kills j (e, f)) f refl refl refl
  Step-Trapped t (is_ready j (e, f) lt) =
      other_client j to_print t (is_ready j (e, f) lt) f refl refl refl
  Step-Trapped t (enters_again j (e, f) lt) =
      other_client j printing t (enters_again j (e, f) lt) f refl refl refl
  Step-Trapped t (prints j (e, f)) = other_client j at_top t (prints j (e, f)) f refl refl refl
  Step-Trapped t (interrupts j sent e there) =
      other_handler j idle at_mutex t (interrupts j sent e there) e (λ w. ground arith) refl refl
        refl
  Step-Trapped t (locks j e lt) = absurd (omega (arith, taken t))
  Step-Trapped {s} t (doubles j e) = absurd (
      omega (
        arith,
        t.counted.mutex,
        inside_pos s.clients i t.there t.holds,
        count_pos server_code doubling s.handlers j e,
      ))
  Step-Trapped t (posts j e) =
      other_handler j to_post idle t (posts j e) e (λ w. ground arith) refl refl refl

  Reach-Trapped : (k : ℕ) {s u : System} → Trapped i p n s → Reach s k u → Trapped i p n u
  Reach-Trapped zero t start = t
  Reach-Trapped (suc k) t (next r st) = Step-Trapped (Reach-Trapped k t r) st

-- Once the handler runs in the thread of a client that is inside `mutex`, it waits for `mutex` for
-- ever: whatever the threads do then, with the handler in other threads too, the handler there and that
-- client stay where they are, and no
-- further request is served.
pub handler_waits :
    (n k i : ℕ) (p : Client) (files : ℕ → List ℤ) {s t : System}
    → Reach (initial files) n s
    → get_elem? s.handlers i ≡ some at_mutex
    → get_elem? s.clients i ≡ some p
    → inside p ≡ 1
    → Reach s k t
    → (get_elem? t.handlers i ≡ some at_mutex)
      × (get_elem? t.clients i ≡ some p)
      × (t.request_nb ≡ s.request_nb)
handler_waits n k i p files r waits there holds more =
    let t =
      Reach-Trapped k
        (record {
          counted = Reach-IsCounted n files r;
          waits = waits;
          there = there;
          holds = holds;
          served = refl;
        })
        more in
    (t.waits, t.there, t.served)
