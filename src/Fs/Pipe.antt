-- ===== src/Fs/Pipe.antt =====
-- read_pipe and write_pipe of fs/pipe.c. Each loop runs until the call returns or goes to sleep on the
-- pipe; a sleeping call goes on from the state and the count that it slept with.
pub mod Fifo
pub mod Read
pub mod Write
mod Tests
use linux.Common.{
  ℕ, zero, suc, ◌+◌, ◌-◌, ◌%◌, ◌^◌, Bool, Option, none, some, List, [], ◌∷◌, ◌++◌, not, ltb, ◌==◌,
  if◌then◌else◌, length, get_or, set, take, drop, min,
}

abbrev pub page_size : ℕ
page_size = 4096

-- The fields of `struct m_inode` that a pipe uses: PIPE_HEAD, PIPE_TAIL, the page at `i_size` and the
-- number of readers and writers.
pub record Pipe : Type 0 where
  pub head : ℕ
  pub tail : ℕ
  pub page : List ℕ
  pub i_count : ℕ

-- `PIPE_SIZE(inode)`
abbrev pub pipe_size : Pipe → ℕ
pipe_size p = (p.head + 2 ^ 32 - p.tail) % 2 ^ 32 % page_size

-- `while (chars-->0) put_fs_byte(page[size++],buf++)`
unfoldable pub read_bytes : List ℕ → ℕ → ℕ → List ℕ
read_bytes page i zero = []
read_bytes page i (suc chars) = get_or page i 0 ∷ read_bytes page (i + 1) chars

-- `while (chars-->0) page[size++]=get_fs_byte(buf++)`
unfoldable pub write_bytes : List ℕ → ℕ → List ℕ → List ℕ
write_bytes page i [] = page
write_bytes page i (x ∷ xs) = write_bytes (set page i x) (i + 1) xs

pub data Reading : Type 0 where
  -- the call returns; the bytes are in the caller's buffer
  done : Pipe → List ℕ → Reading
  -- the call sleeps, with the count that is left
  sleeps : Pipe → ℕ → List ℕ → Reading
  out_of_fuel : Reading

abbrev pub read_chars : Pipe → ℕ → ℕ
read_chars p count = min (min (page_size - p.tail) count) (pipe_size p)

-- `out` is what has been read so far.
pub read_loop : ℕ → Pipe → ℕ → List ℕ → Reading
unfolding read_bytes
read_loop zero p count out = out_of_fuel
read_loop (suc fuel) p count out =
    let chars = read_chars p count in
    let p' = record p { tail = (p.tail + chars) % page_size } in
    let rest = read_loop fuel p' (count - chars) (out ++ read_bytes p.page p.tail chars) in
    if count == 0
    then done p out
    else if pipe_size p == 0
    then (if p.i_count == 2 then sleeps p count out else done p out)
    else rest

-- Every round reads at least one byte.
pub read_pipe : Pipe → ℕ → Reading
unfolding read_loop
read_pipe p count = read_loop (count + 1) p count []

pub data Writing : Type 0 where
  done : Pipe → ℕ → Writing
  -- SIGPIPE is raised; `none` is a return of -1
  broken : Pipe → Option ℕ → Writing
  -- the bytes that are still to be written, and the count of those written
  sleeps : Pipe → List ℕ → ℕ → Writing
  out_of_fuel : Writing

abbrev pub write_chars : Pipe → ℕ → ℕ
write_chars p count = min (min (page_size - p.head) count) (page_size - 1 - pipe_size p)

-- The caller's buffer is `buf`, whose length is the count that is left.
pub write_loop : ℕ → Pipe → List ℕ → ℕ → Writing
unfolding write_bytes
write_loop zero p buf written = out_of_fuel
write_loop (suc fuel) p buf written =
    let chars = write_chars p (length buf) in
    let p' = record p {
      head = (p.head + chars) % page_size;
      page = write_bytes p.page p.head (take chars buf);
    } in
    let rest = write_loop fuel p' (drop chars buf) (written + chars) in
    if length buf == 0
    then Writing.done p written
    else if page_size - 1 - pipe_size p == 0
    then (if p.i_count == 2
        then Writing.sleeps p buf written
        else broken p (if written == 0 then none else some written))
    else rest

pub write_pipe : Pipe → List ℕ → Writing
unfolding write_loop
write_pipe p buf = write_loop (length buf + 1) p buf 0
