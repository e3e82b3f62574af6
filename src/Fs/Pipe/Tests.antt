-- ===== src/Fs/Pipe/Tests.antt =====
-- Tests of fs/pipe.c: a pipe that wraps round the end of its page.
use linux.Common.{
  ℕ, ◌≡◌, refl, List, [], ◌∷◌, arith, replicate, length-replicate, set, length-set, ◌∙◌, none,
}
use linux.Fs.Pipe.{Pipe, page_size, Reading, read_pipe, write_pipe, broken}
use linux.Fs.Pipe.Fifo.{IsPipe}
use linux.Fs.Pipe.Read.{ReadFrom, read_pipe_lem}
use linux.Fs.Pipe.Write.{WriteFrom, write_pipe_lem}

-- Three bytes, of which the last is at the start of the page.
abbrev wrapped : Pipe
wrapped = record {
  head = 1;
  tail = 4094;
  page = set (set (replicate page_size 0) 0 33) 4094 11;
  i_count = 2;
}

wrapped-IsPipe : IsPipe wrapped
wrapped-IsPipe = record {
  head = omega arith;
  tail = omega arith;
  page =
      length-set {A = ℕ} (set (replicate page_size 0) 0 33) 4094 11
      ∙ (length-set {A = ℕ} (replicate page_size 0) 0 33 ∙ length-replicate {A = ℕ} page_size 0);
}

read_pipe_lem_example : ReadFrom wrapped 3 [] (read_pipe wrapped 3)
read_pipe_lem_example = read_pipe_lem wrapped 3 wrapped-IsPipe

write_pipe_lem_example : WriteFrom wrapped (5 ∷ 6 ∷ []) 0 (write_pipe wrapped (5 ∷ 6 ∷ []))
write_pipe_lem_example = write_pipe_lem wrapped (5 ∷ 6 ∷ []) wrapped-IsPipe

abbrev bytes : List ℕ
bytes = 7 ∷ 8 ∷ 9 ∷ []

abbrev small : Pipe
small = record { head = 2; tail = 0; page = bytes; i_count = 1 }

-- Without a writer a read returns with what is there.
short_read : read_pipe small 5 ≡ Reading.done (record small { tail = 2 }) (7 ∷ 8 ∷ [])
unfolding read_pipe
short_read = refl

-- A full pipe without a reader.
broken_write :
    write_pipe (record small { head = 0; tail = 1 }) (5 ∷ [])
    ≡ broken (record small { head = 0; tail = 1 }) none
unfolding write_pipe
broken_write = refl
