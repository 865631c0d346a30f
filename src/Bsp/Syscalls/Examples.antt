-- ===== src/Bsp/Syscalls/Examples.antt =====
-- Files opened, shared and closed: witnesses of the theorems on the system calls.
use free_rtos_demos_cheri_ri.Prelude.{
  ℕ, true, inl, ◌+◌, ◌≡◌, refl, none, some, List, [], ◌∷◌, pos, negsuc, length, ◌==◌, if◌then◌else◌,
  arith, update,
}
use free_rtos_demos_cheri_ri.Bsp.Syscalls.{
  Env, State, Event, Flags, open_file, mode_of, close_file, close_at, with_file,
}
use free_rtos_demos_cheri_ri.Bsp.Syscalls.Access.{Call, calls, call, go_on, read}
use free_rtos_demos_cheri_ri.Bsp.Syscalls.Table.{IsTable, held}
use free_rtos_demos_cheri_ri.Bsp.Syscalls.Calls.{AllInRange, InRange, IsIndex, calls-IsTable}
use free_rtos_demos_cheri_ri.Bsp.Syscalls.Reuse.{open_file-shares}
use free_rtos_demos_cheri_ri.Bsp.Syscalls.Full.{calls-exhausted}

-- A file system on which all calls succeed; the name at address a has the one letter a.
abbrev disk : Env
disk = record {
  console_write = λ t s. pos (length s);
  ff_fopen = λ t name mode. length t + 100;
  ff_fclose = λ t file. pos 0;
  ff_fwrite = λ t file s. length s;
  ff_fseek = λ t file offset origin. pos 0;
  ff_fread = λ t file count. [];
  ff_stat = λ t name. none;
  get_errno = λ t. 5;
  text_at = λ t address. address ∷ [];
  ebadf = 9;
}

-- The state at the start of the program
abbrev started : State
started = record { free_fd = 3; ff_file = λ i. 0; name = λ i. 0; errno = 0; trace = [] }

-- An open file 100 with descriptor 3 and the name at address 65
abbrev one_open : State
one_open = record {
  free_fd = 4;
  ff_file = λ i. if i == 3 then 100 else 0;
  name = λ i. if i == 3 then 65 else 0;
  errno = 0;
  trace = Event.ff_fopen (65 ∷ []) b'r' 100 ∷ [];
}

abbrev some_calls : List Call
some_calls =
    Call.open_call 65 Flags.o_rdwr
    ∷ (Call.write_call (pos 3) (1 ∷ 2 ∷ [])
        ∷ (Call.close_call (pos 3) ∷ (Call.read_call (pos 3) 7 ∷ [])))

started-IsTable : IsTable started
unfolding IsTable held
started-IsTable =
    (omega arith, omega arith, λ i h. refl, λ i h. refl, λ i. (λ z. z, λ z. z), λ h n. ground arith)

calls-IsTable_example : (s' : State) × (calls disk some_calls started ≡ some s') × IsTable s'
unfolding AllInRange InRange IsIndex
calls-IsTable_example =
    calls-IsTable disk some_calls started
      (omega arith, (omega arith, (omega arith, (omega arith, tt)))) started-IsTable

-- After an open() of the file at address 65 and a write()
abbrev written : State
written = record {
  free_fd = 4;
  ff_file = update (λ i. 0) 3 100;
  name = update (λ i. 0) 3 65;
  errno = 0;
  trace = Event.ff_fwrite 100 (1 ∷ []) ∷ (Event.ff_fopen (65 ∷ []) b'w' 100 ∷ []);
}

-- The file is opened for reading, and a second user opens it for writing.
open_file-shares_example :
    (s1 s2 : State) × (open_file disk 65 Flags.o_rdonly started ≡ some (pos 3, s1))
    × (open_file disk 65 Flags.o_wronly s1 ≡ some (pos 3, s1))
    × (close_file disk (pos 3) s1 ≡ some (pos 0, s2))
    × (read disk (pos 3) 7 s2 ≡ some (negsuc 0, record s2 { errno = 9 }))
unfolding mode_of
open_file-shares_example =
    open_file-shares disk 65 65 b'r' b'w' 7 Flags.o_rdonly Flags.o_wronly started (λ t p. refl)
      (omega arith) refl (omega arith) refl refl (λ i lt. inl refl) (omega arith) (λ t. refl)

-- The state after a close() that succeeds
abbrev closed_state : ℕ → State → State
closed_state fd s = record s {
  ff_file = update s.ff_file fd 0;
  name = update s.name fd 0;
  trace = Event.ff_fclose (s.ff_file fd) true ∷ s.trace;
}

-- The table is full, and its last file is closed.
abbrev full_table : State
full_table = record one_open { free_fd = 1024 }

calls-exhausted_example :
    open_file disk 66 Flags.o_rdonly (closed_state 3 full_table)
    ≡ some (negsuc 0, closed_state 3 full_table)
unfolding calls call go_on close_file close_at with_file update
calls-exhausted_example =
    calls-exhausted disk (Call.close_call (pos 3) ∷ []) 66 Flags.o_rdonly full_table
      (closed_state 3 full_table) refl refl
