-- ===== src/Tests/Pipes.antt =====
-- A pipe whose positions are about to wrap around, and three bytes for it.
use os_lab5_challenge.Base.{
  ℕ, ◌+◌, ◌-◌, ◌^◌, ◌≤◌, ◌<◌, ◌≡◌, refl, arith, true, false, List, [], ◌∷◌, ◌++◌,
}
use os_lab5_challenge.Pipe.{
  Pipe, Phase, testing, Transfer, Ends, used, Turn, reads, writes, interleave, pipe_read,
  pipe_write, returned,
}
use os_lab5_challenge.Pipe.Order.{interleave_lem}
use os_lab5_challenge.Pipe.Drain.{read_alone, read_alone_lem}
use os_lab5_challenge.Pipe.Close.{
  Refs, Reached, start, later, closes, closed, reading, writing, unmap_fd, unmap_page, created,
  Look, pipe_is_closed, IsSeen, pipe_is_closed_lem, is_shut,
}

abbrev transfer : ℕ → (ℕ → ℕ) → Transfer
transfer n buf = record { n = n; i = 0; buf = buf; phase = testing }

abbrev opened : Ends
opened = record {
  pipe = record { p_rpos = 2 ^ 32 - 1; p_wpos = 2 ^ 32 - 1; p_buf = λ _. 0 };
  reader = transfer 5 (λ _. 0);
  writer = transfer 3 (λ j. j + 65);
}

abbrev three_writes : List Turn
three_writes = writes false ∷ writes false ∷ writes false ∷ []

abbrev turns : List Turn
turns =
    reads false
    ∷ reads false
    ∷ (three_writes ++ (three_writes ++ (reads false ∷ reads false ∷ reads false ∷ [])))

all_read : (interleave turns opened).reader.i ≡ 1
unfolding interleave
all_read = refl

interleave_example :
    ((j : ℕ)
      → j < (interleave turns opened).reader.i
      → (interleave turns opened).reader.buf j ≡ j + 65)
    × ((interleave turns opened).reader.i ≤ (interleave turns opened).writer.i)
    × ((interleave turns opened).writer.i ≤ (interleave turns opened).reader.i + 32)
interleave_example = interleave_lem turns opened (record {
  in_range = omega arith;
  no_bytes = refl;
  reads_begin = refl;
  writes_begin = refl;
  reader_tests = refl;
  writer_tests = refl;
})

-- The writer has left two bytes.
abbrev left : Ends
left = record opened { pipe = record { p_rpos = 2 ^ 32 - 1; p_wpos = 1; p_buf = λ j. j } }

read_alone_example :
    ((read_alone 17 left).reader.phase ≡ returned) × ((read_alone 17 left).reader.i ≡ 2)
read_alone_example =
    read_alone_lem left 17 refl refl (omega arith) (omega arith) (omega arith) (omega arith)

abbrev writer_shut : Refs
writer_shut = record { fd0 = 1; fd1 = 0; page = 1; halfway = 0 }

writer_shut-Reached : Reached writer_shut
unfolding unmap_fd unmap_page
writer_shut-Reached =
    later (later start (closes writing created (omega arith)))
      (closed _ (omega arith) (omega arith))

abbrev looks : List Look
looks =
    record { runs = 6; at_fd = created; at_page = writer_shut; runs_after = 7 }
    ∷ record { runs = 7; at_fd = writer_shut; at_page = writer_shut; runs_after = 7 }
    ∷ []

pipe_is_closed_example : (s : Refs) × IsSeen s looks × (true ≡ is_shut writing s)
unfolding pipe_is_closed os_lab5_challenge.Pipe.Close.AreLooks
pipe_is_closed_example =
    pipe_is_closed_lem reading looks {b = true}
      (start, (λ e. absurd (omega arith)), (writer_shut-Reached, (λ _. refl), tt)) refl
