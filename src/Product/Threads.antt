-- ===== src/Product/Threads.antt =====
-- The threads of Lab2/Lab2.3_2.c print the result of Lab2/Lab2.3_1.c, in whatever order they run.
use system_device_programmin.Base.{
  ℕ, zero, suc, ◌+◌, ◌-◌, ◌<◌, ◌≡◌, ◌≢◌, refl, ap, ◌∙◌, sym, [], ◌∷◌, some, if◌then◌else◌, ◌==◌,
  get_elem?, get_elem?_total, length, length-set, length-replicate, get_elem?-set_self,
  get_elem?-set_ne, get_elem?-lt, get_elem?-replicate_inv, replicate, ℕ_discrete, count, count-set,
  count_pos, arith,
}
use system_device_programmin.Product.{
  Float, Place, computes, counts, ended, System, row, sequential, compute, count_down, computing,
  counting, Reach, start, next,
}
use system_device_programmin.Product.Rows.{AllRows, sequential_lem}

abbrev code : Place → ℕ
code computes = 0
code counts = 1
code ended = 2

count-initial :
    (k : ℕ)
    → (count code computes (replicate k computes) ≡ k)
      × (count code counts (replicate k computes) ≡ 0)
unfolding count
count-initial zero = (refl, refl)
count-initial (suc k) = (omega (arith, (count-initial k).0), omega (arith, (count-initial k).1))

module _ (f : Float) (k : ℕ) (v1 v2 : ℕ → f.F) (mat : ℕ → ℕ → f.F) (junk : f.F) where
  record Fits (s : System f) : Type 0 where
    size : length s.v ≡ k
    threads : length s.threads ≡ k
    rows :
        (i : ℕ) (p : Place)
        → get_elem? s.threads i ≡ some p
        → p ≢ computes
        → get_elem? s.v i ≡ some (row f k v1 v2 mat junk i)
    left : s.cnt ≡ count code computes s.threads + count code counts s.threads
    prints : s.printed ≡ (if s.cnt == 0 then sequential f k v1 v2 mat junk ∷ [] else [])

  compute-Fits :
      {s : System f} (i : ℕ)
      → get_elem? s.threads i ≡ some computes
      → Fits s
      → Fits (compute f k v1 v2 mat junk i s)
  compute-Fits {s} i e h =
      let a = count-set code computes counts s.threads i e in
      let b = count-set code counts counts s.threads i e in
      let here = get_elem?-lt s.threads i e in
      let r = row f k v1 v2 mat junk i in
      record {
        size = length-set s.v i r ∙ h.size;
        threads = length-set s.threads i counts ∙ h.threads;
        rows = λ j p at ne. elim (ℕ_discrete i j) [
          | yes same ↦ rw (← same) (get_elem?-set_self s.v i r (omega (arith, h.size, h.threads)))
          | no other ↦
              get_elem?-set_ne s.v r other
              ∙ h.rows j p (sym (get_elem?-set_ne s.threads counts other) ∙ at) ne
        ];
        left = omega (arith, h.left);
        prints = h.prints;
      }

  -- With nobody left before the count, all rows are there.
  complete :
      (s : System f) → Fits s → count code computes s.threads ≡ 0 → AllRows f k v1 v2 mat junk s.v
  complete s h none_computes i lt =
      let (p, e) = get_elem?_total s.threads i (omega (arith, h.threads)) in
      h.rows i p e
        (λ same. absurd (ground (arith, count_pos code computes s.threads i (e ∙ ap some same))))

  count_down-Fits :
      {s : System f} (i : ℕ)
      → get_elem? s.threads i ≡ some counts
      → Fits s
      → Fits (count_down f k v1 v2 mat junk i s)
  count_down-Fits {s} i e h =
      let a = count-set code computes ended s.threads i e in
      let b = count-set code counts ended s.threads i e in
      let here = count_pos code counts s.threads i e in
      let (x, is_x, same) = sequential_lem f k v1 v2 mat junk in
      record {
        size = h.size;
        threads = length-set s.threads i ended ∙ h.threads;
        rows = λ j p at ne. elim (ℕ_discrete i j) [
          | yes is_i ↦ rw (← is_i) (h.rows i counts e (λ bad. absurd (ground arith)))
          | no other ↦ h.rows j p (sym (get_elem?-set_ne s.threads ended other) ∙ at) ne
        ];
        left = omega (arith, h.left);
        prints = elim (ℕ_discrete (s.cnt - 1) 0) [
          | yes last ↦
              let all = same s.v (complete s h (omega (arith, h.left))) in
              ground (arith, h.prints, h.left, all, is_x)
          | no more ↦ ground (arith, h.prints, h.left)
        ];
      }

  Reach-Fits : 0 < k → {s : System f} → Reach f k v1 v2 mat junk s → Fits s
  Reach-Fits some_row start =
      let (a, b) = count-initial k in
      record {
        size = length-replicate k junk;
        threads = length-replicate k computes;
        rows = λ i p e ne. absurd (ne (sym (get_elem?-replicate_inv k i computes e)));
        left = omega arith;
        prints = ground arith;
      }
  Reach-Fits some_row (next r (computing i e)) = compute-Fits i e (Reach-Fits some_row r)
  Reach-Fits some_row (next r (counting i e)) = count_down-Fits i e (Reach-Fits some_row r)

  -- For any operations on `float`, and in whatever order the threads run: nothing is printed until
  -- the last of them counts down to 0, and then once the result of the program without threads.
  pub printed-sequential :
      0 < k
      → {s : System f} → Reach f k v1 v2 mat junk s
      → (x : f.F) × (sequential f k v1 v2 mat junk ≡ some x)
        × (s.printed ≡ (if s.cnt == 0 then some x ∷ [] else []))
  printed-sequential some_row {s} r =
      let (x, is_x, _) = sequential_lem f k v1 v2 mat junk in
      (x, is_x, rw (← is_x) ((Reach-Fits some_row r).prints))
