-- ===== src/Bsp/Syscalls/Access.antt =====
-- _lseek(), _read(), _stat(), _fstat() and _gettimeofday() of bsp/syscalls.c, and the calls of a program
-- one after the other.
use free_rtos_demos_cheri_ri.Prelude.{
  ℕ, ◌*◌, ◌/◌, ◌%◌, Option, none, some, List, [], ◌∷◌, Text, length, ltb, if◌then◌else◌, ℤ, pos,
  negsuc, is_zero,
}
use free_rtos_demos_cheri_ri.Bsp.Syscalls.{
  Flags, FfStat, Timespec, Stat, Event, Env, State, Result, fails_with, with_file, write, open_file,
  close_file,
}

-- The result of _lseek() is 0, wherever the file then is.
unfoldable pub lseek_at : Env → ℤ → ℕ → State → ℕ → ℕ → Result
unfolding fails_with
lseek_at e offset origin s fd file =
    let s' = record s { trace = Event.ff_fseek file offset origin ∷ s.trace } in
    if is_zero (e.ff_fseek s.trace file offset origin)
    then some (pos 0, s')
    else fails_with (e.get_errno s'.trace) s'

unfoldable pub lseek : Env → ℤ → ℤ → ℕ → State → Result
unfolding with_file lseek_at
lseek e fd offset origin s = with_file e fd s (lseek_at e offset origin s)

-- What _read() leaves in the buffer is the answer of ff_fread().
unfoldable pub read_at : Env → ℕ → State → ℕ → ℕ → Result
read_at e count s fd file =
    let n = length (e.ff_fread s.trace file count) in
    let s' = record s { trace = Event.ff_fread file count ∷ s.trace } in
    some (pos n, if ltb n count then record s' { errno = e.get_errno s'.trace } else s')

unfoldable pub read : Env → ℤ → ℕ → State → Result
unfolding with_file read_at
read e fd count s = with_file e fd s (read_at e count s)

-- FreeRTOS+FAT keeps microseconds.
unfoldable pub timespec_of : ℕ → Timespec
timespec_of us = record { tv_sec = us / 1000000; tv_nsec = us % 1000000 * 1000 }

unfoldable pub stat_of : FfStat → Stat
unfolding timespec_of
stat_of f = record {
  st_dev = f.st_dev;
  st_ino = f.st_ino;
  st_mode = f.st_mode;
  st_size = f.st_size;
  st_atim = timespec_of f.st_atime;
  st_mtim = timespec_of f.st_mtime;
  st_ctim = timespec_of f.st_ctime;
}

-- What _stat() makes of the answer of ff_stat()
unfoldable pub stat_answer : Env → State → Option FfStat → ℤ × Option Stat × State
unfolding stat_of
stat_answer e s (some f) = (pos 0, some (stat_of f), s)
stat_answer e s none = (negsuc 0, none, record s { errno = e.get_errno s.trace })

-- _stat(), with what it writes to the buffer: `none` leaves it as it was.
unfoldable pub stat : Env → ℕ → State → ℤ × Option Stat × State
unfolding stat_answer
stat e name s =
    let s' = record s { trace = Event.ff_stat (e.text_at s.trace name) ∷ s.trace } in
    stat_answer e s' (e.ff_stat s.trace (e.text_at s.trace name))

unfoldable pub fstat_at : Env → State → ℕ → ℕ → Result
unfolding stat
fstat_at e s fd file = let (r, buffer, s') = stat e (s.name fd) s in some (r, s')

unfoldable pub fstat : Env → ℤ → State → Result
unfolding with_file fstat_at
fstat e fd s = with_file e fd s (fstat_at e s)

-- _gettimeofday(): seconds and microseconds
unfoldable pub gettimeofday : ℕ → ℕ × ℕ
gettimeofday us = (us / 1000000, us % 1000000)

-- A call of the program
pub data Call : Type 0 where
  open_call : ℕ → Flags → Call
  close_call : ℤ → Call
  lseek_call : ℤ → ℤ → ℕ → Call
  read_call : ℤ → ℕ → Call
  write_call : ℤ → Text → Call
  fstat_call : ℤ → Call

unfoldable pub call : Env → Call → State → Result
call e (Call.open_call name flags) s = open_file e name flags s
call e (Call.close_call fd) s = close_file e fd s
call e (Call.lseek_call fd offset origin) s = lseek e fd offset origin s
call e (Call.read_call fd count) s = read e fd count s
call e (Call.write_call fd ptr) s = write e fd ptr s
call e (Call.fstat_call fd) s = fstat e fd s

unfoldable pub go_on : (State → Option State) → Result → Option State
go_on k none = none
go_on k (some (r, s)) = k s

-- The calls of a program one after the other; `none` if one reads outside of ff_map.
unfoldable pub calls : Env → List Call → State → Option State
unfolding call go_on
calls e [] s = some s
calls e (c ∷ cs) s = go_on (calls e cs) (call e c s)
