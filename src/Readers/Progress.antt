-- ===== src/Readers/Progress.antt =====
-- Some thread of homework/reader_writer.c can always go on until all are done.
use system_device_programmin.Base.{
  ℕ, zero, suc, ◌+◌, ◌<◌, ◌≡◌, refl, ap, ◌∙◌, sym, List, Bool, true, false, some, get_elem?, count,
  count_pos, count_found, arith, dec_lt,
}
use system_device_programmin.Readers.{
  Place, reader_asks, reader_counts, first_waits, reader_reads, reader_leaves, reader_done,
  writer_asks, writer_writes, writer_leaves, writer_done, Library, Step, asking, entering, opening,
  ending, leaving, claiming, writing, handing, Reach,
}
use system_device_programmin.Readers.Invariant.{code, as_number, Fits, Reach-Fits}

decode : ℕ → Place
decode zero = reader_asks
decode (suc zero) = reader_counts
decode (suc (suc zero)) = first_waits
decode (suc (suc (suc zero))) = reader_reads
decode (suc (suc (suc (suc zero)))) = reader_leaves
decode (suc (suc (suc (suc (suc zero))))) = reader_done
decode (suc (suc (suc (suc (suc (suc zero)))))) = writer_asks
decode (suc (suc (suc (suc (suc (suc (suc zero))))))) = writer_writes
decode (suc (suc (suc (suc (suc (suc (suc (suc zero)))))))) = writer_leaves
decode (suc (suc (suc (suc (suc (suc (suc (suc (suc n))))))))) = writer_done

decode-code : (p : Place) → decode (code p) ≡ p
unfolding decode
decode-code reader_asks = refl
decode-code reader_counts = refl
decode-code first_waits = refl
decode-code reader_reads = refl
decode-code reader_leaves = refl
decode-code reader_done = refl
decode-code writer_asks = refl
decode-code writer_writes = refl
decode-code writer_leaves = refl
decode-code writer_done = refl

apart : (p q : Place) → code p ≡ code q → q ≡ p
apart p q e = sym (decode-code q) ∙ (ap decode (sym e) ∙ decode-code p)

Moves : Library → Type 0
Moves s = (t : Library) × Step s t

module _ (s : Library) where
  found : (p : Place) → 0 < count code p s.threads → (i : ℕ) × (get_elem? s.threads i ≡ some p)
  found p some_there = count_found code apart p s.threads some_there

  -- A thread that holds a lock goes on at once.
  holder-Moves :
      0
        < count code reader_counts s.threads
          + count code reader_leaves s.threads
          + count code writer_writes s.threads
          + count code writer_leaves s.threads
      → Moves s
  unfolding Moves
  holder-Moves some_there = elim (dec_lt 0 (count code reader_counts s.threads)) [
    | yes h ↦ let (i, e) = found reader_counts h in (_, entering i e)
    | no none1 ↦ elim (dec_lt 0 (count code reader_leaves s.threads)) [
      | yes h ↦ let (i, e) = found reader_leaves h in (_, leaving i e)
      | no none2 ↦ elim (dec_lt 0 (count code writer_writes s.threads)) [
        | yes h ↦ let (i, e) = found writer_writes h in (_, writing i e)
        | no none3 ↦ let (i, e) = found writer_leaves (omega arith) in (_, handing i e)
      ]
    ]
  ]

  is_free : (b : Bool) → as_number b ≡ 0 → b ≡ false
  is_free true h = absurd (omega arith)
  is_free false h = refl

  -- With no such thread the locks are free, or held by readers who read.
  other-Moves :
      Fits s
      → count code reader_counts s.threads
          + count code reader_leaves s.threads
          + count code writer_writes s.threads
          + count code writer_leaves s.threads
        ≡ 0
      → 0
        < count code first_waits s.threads
          + count code reader_reads s.threads
          + count code reader_asks s.threads
          + count code writer_asks s.threads
      → Moves s
  unfolding Moves
  other-Moves f none_holds some_there = elim (dec_lt 0 (count code first_waits s.threads)) [
    | yes h ↦
        let (i, e) = found first_waits h in
        let one = f.alone h in
        (_, opening i e (is_free s.library_lock (ground (arith, f.holds_library, f.readers))))
    | no no_first ↦
        let count_free = is_free s.count_lock (omega (arith, f.holds_count)) in
        elim (dec_lt 0 (count code reader_reads s.threads)) [
          | yes h ↦ let (i, e) = found reader_reads h in (_, ending i e count_free)
          | no no_reader ↦ elim (dec_lt 0 (count code reader_asks s.threads)) [
            | yes h ↦ let (i, e) = found reader_asks h in (_, asking i e count_free)
            | no none_asks ↦
                let (i, e) = found writer_asks (omega arith) in
                (_, claiming i e (is_free s.library_lock (ground (arith, f.holds_library))))
          ]
        ]
  ]

-- Not at its end.
abbrev pub is_done : Place → Bool
is_done reader_done = true
is_done writer_done = true
is_done _ = false

abbrev busy : List Place → ℕ
busy l =
    count code reader_counts l
    + count code reader_leaves l
    + count code writer_writes l
    + count code writer_leaves l
    + (count code first_waits l
        + count code reader_reads l
        + count code reader_asks l
        + count code writer_asks l)

busy_pos :
    (l : List Place) (i : ℕ) (p : Place) → get_elem? l i ≡ some p → is_done p ≡ false → 0 < busy l
busy_pos l i reader_asks e h = omega (arith, count_pos code reader_asks l i e)
busy_pos l i reader_counts e h = omega (arith, count_pos code reader_counts l i e)
busy_pos l i first_waits e h = omega (arith, count_pos code first_waits l i e)
busy_pos l i reader_reads e h = omega (arith, count_pos code reader_reads l i e)
busy_pos l i reader_leaves e h = omega (arith, count_pos code reader_leaves l i e)
busy_pos l i reader_done e h = absurd (ground arith)
busy_pos l i writer_asks e h = omega (arith, count_pos code writer_asks l i e)
busy_pos l i writer_writes e h = omega (arith, count_pos code writer_writes l i e)
busy_pos l i writer_leaves e h = omega (arith, count_pos code writer_leaves l i e)
busy_pos l i writer_done e h = absurd (ground arith)

-- In every reachable state in which a thread is not done, some thread can go on.
pub some_thread_moves :
    {n m : ℕ} {s : Library} (i : ℕ) (p : Place)
    → Reach n m s
    → get_elem? s.threads i ≡ some p
    → is_done p ≡ false
    → (t : Library) × Step s t
unfolding Moves
some_thread_moves {s = s} i p r e h =
    let some_there = busy_pos s.threads i p e h in
    elim (dec_lt 0 (
      count code reader_counts s.threads
      + count code reader_leaves s.threads
      + count code writer_writes s.threads
      + count code writer_leaves s.threads)) [
        | yes held ↦ holder-Moves s held
        | no none_holds ↦ other-Moves s (Reach-Fits r) (omega arith) (omega arith)
      ]
