-- ===== src/Readers/Tests.antt =====
-- A reader and a writer of homework/reader_writer.c.
use system_device_programmin.Base.{◌≡◌, refl, [], ◌∷◌, true, false, arith}
use system_device_programmin.Readers.{
  reader_asks, writer_writes, Library, Step, claiming, Reach, start, next,
}
use system_device_programmin.Readers.Exclusion.{reads, writes, alone_writing}
use system_device_programmin.Readers.Progress.{some_thread_moves}

-- The writer has the lock of the library.
abbrev one_writes : Library
one_writes = record {
  count_lock = false;
  count = 0;
  library_lock = true;
  value = 0;
  threads = reader_asks ∷ writer_writes ∷ [];
}

reached : Reach 1 1 one_writes
reached = next start (claiming 1 refl refl)

alone_writing_example : (writes reader_asks ≡ false) × (reads reader_asks ≡ false)
alone_writing_example =
    alone_writing reached 1 0 writer_writes reader_asks refl refl (omega arith) refl

some_thread_moves_example : (t : Library) × Step one_writes t
some_thread_moves_example = some_thread_moves 0 reader_asks reached refl refl
