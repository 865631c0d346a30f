-- ===== src/Bsp/Syscalls/Calls.antt =====
-- Every system call keeps what holds of the table of open files, and reads inside of it.
use free_rtos_demos_cheri_ri.Prelude.{
  ℕ, ◌<◌, ◌≡◌, ◌≢◌, refl, false, ◌||◌, Option, none, some, List, [], ◌∷◌, Text, ℤ, pos, negsuc,
  is_zero, length, ◌==◌, ltb, leb, arith, Bool-cases, Option-cases, inl, inr,
}
use free_rtos_demos_cheri_ri.Bsp.Syscalls.{
  Env, State, Result, Flags, table_size, stdout_fileno, fails_with, with_file, write, write_to,
  open_file, open_flags, open_mode, open_new, find_name, mode_of, close_file, close_at, open_found,
}
use free_rtos_demos_cheri_ri.Bsp.Syscalls.Access.{
  Call, lseek, lseek_at, read, read_at, fstat, fstat_at, stat, stat_answer, call, go_on, calls,
}
use free_rtos_demos_cheri_ri.Bsp.Syscalls.Table.{
  IsTable, entered-IsTable, unopened-IsTable, cleared-IsTable,
}

unfoldable pub IsIndex : ℤ → Type 0
IsIndex (pos fd) = fd < table_size
IsIndex (negsuc n) = ⊥

-- A descriptor is in the table, and the name of a file is not NULL.
unfoldable pub InRange : Call → Type 0
unfolding IsIndex
InRange (Call.open_call name flags) = name ≢ 0
InRange (Call.close_call fd) = IsIndex fd
InRange (Call.lseek_call fd offset origin) = IsIndex fd
InRange (Call.read_call fd count) = IsIndex fd
InRange (Call.write_call fd ptr) = IsIndex fd
InRange (Call.fstat_call fd) = IsIndex fd

unfoldable pub AllInRange : List Call → Type 0
unfolding InRange
AllInRange [] = Unit {0}
AllInRange (c ∷ cs) = InRange c × AllInRange cs

-- A call that reads inside of the table and keeps what holds of it
Keeps : Result → Type 0
Keeps none = ⊥
Keeps (some (r, s)) = IsTable s

open_new-Keeps :
    (e : Env) (name mode : ℕ) (s : State)
    → name ≢ 0
    → s.free_fd < table_size
    → IsTable s
    → Keeps (open_new e name mode s)
unfolding open_new Keeps
open_new-Keeps e name mode s named free t =
    let file : ℕ = e.ff_fopen s.trace (e.text_at s.trace name) mode in
    elim (Bool-cases (file == 0)) [
      | inl z ↦ rw z (unopened-IsTable s mode (e.text_at s.trace name) file (ground arith) t)
      | inr f ↦
          rw f
            (entered-IsTable s file name mode (e.text_at s.trace name) named (ground arith) free t)
    ]

close_at-Keeps :
    (e : Env) (s : State) (fd : ℕ)
    → s.ff_file fd ≢ 0
    → IsTable s
    → Keeps (close_at e s fd (s.ff_file fd))
unfolding close_at fails_with Keeps
close_at-Keeps e s fd is_file t = elim (Bool-cases (is_zero (e.ff_fclose s.trace (s.ff_file fd)))) [
  | inl y ↦ rw y (cleared-IsTable s fd is_file t)
  | inr n ↦ rw n (unfold IsTable in t)
]

with_file-Keeps :
    (e : Env) (fd : ℤ) (s : State) (on_file : ℕ → ℕ → Result)
    → IsIndex fd
    → IsTable s
    → ((n : ℕ) → s.ff_file n ≢ 0 → Keeps (on_file n (s.ff_file n)))
    → Keeps (with_file e fd s on_file)
unfolding with_file fails_with Keeps IsIndex IsTable
with_file-Keeps e (negsuc n) s on_file index t h = absurd index
with_file-Keeps e (pos fd) s on_file index t h =
    elim (Bool-cases (leb table_size fd || s.ff_file fd == 0)) [
      | inl y ↦ rw y t
      | inr n ↦ rw n (h fd (ground arith))
    ]

open_mode-Keeps :
    (e : Env) (name mode : ℕ) (s : State)
    → name ≢ 0
    → s.free_fd < table_size
    → IsTable s
    → Keeps (open_mode e name mode s)
unfolding open_mode open_found Keeps
open_mode-Keeps e name mode s named free t = elim (Option-cases (find_name e name s 0 s.free_fd)) [
  | inl new ↦ rw new (open_new-Keeps e name mode s named free t)
  | inr (i, old) ↦ rw old t
]

open_flags-Keeps :
    (e : Env) (name : ℕ) (flags : Flags) (s : State)
    → name ≢ 0
    → s.free_fd < table_size
    → IsTable s
    → Keeps (open_flags e name (mode_of flags) s)
unfolding open_flags mode_of Keeps
open_flags-Keeps e name Flags.o_rdonly s named free t = open_mode-Keeps e name b'r' s named free t
open_flags-Keeps e name Flags.o_wronly s named free t = open_mode-Keeps e name b'w' s named free t
open_flags-Keeps e name Flags.o_rdwr s named free t = open_mode-Keeps e name b'w' s named free t
open_flags-Keeps e name Flags.other s named free t = t

below_size : (s : State) → (s.free_fd == table_size) ≡ false → IsTable s → s.free_fd < table_size
unfolding IsTable
below_size s n (low, high, above, std, both, count) = ground arith

open_file-Keeps :
    (e : Env) (name : ℕ) (flags : Flags) (s : State)
    → name ≢ 0
    → IsTable s
    → Keeps (open_file e name flags s)
unfolding open_file Keeps
open_file-Keeps e name flags s named t = elim (Bool-cases (s.free_fd == table_size)) [
  | inl full ↦ rw full t
  | inr free ↦ rw free (open_flags-Keeps e name flags s named (below_size s free t) t)
]

write_to-Keeps :
    (e : Env) (file : ℕ) (ptr : Text) (s : State) → IsTable s → Keeps (write_to e file ptr s)
unfolding write_to fails_with Keeps IsTable
write_to-Keeps e file ptr s t =
    elim (Bool-cases (ltb (e.ff_fwrite s.trace file ptr) (length ptr))) [
      | inl y ↦ rw y t
      | inr n ↦ rw n t
    ]

write-Keeps :
    (e : Env) (fd : ℤ) (ptr : Text) (s : State) → IsIndex fd → IsTable s → Keeps (write e fd ptr s)
unfolding write fails_with Keeps IsIndex
write-Keeps e (negsuc n) ptr s index t = absurd index
write-Keeps e (pos fd) ptr s index t =
    let small : leb table_size fd ≡ false = ground arith in
    elim (Bool-cases (fd == stdout_fileno)) [
      | inl y ↦ rw y (unfold IsTable in t)
      | inr n ↦ elim (Bool-cases (s.ff_file fd == 0)) [
        | inl y ↦ rw (n, small, y) (unfold IsTable in t)
        | inr f ↦ rw (n, small, f) (write_to-Keeps e (s.ff_file fd) ptr s t)
      ]
    ]

lseek_at-Keeps :
    (e : Env) (offset : ℤ) (origin : ℕ) (s : State) (fd file : ℕ)
    → IsTable s
    → Keeps (lseek_at e offset origin s fd file)
unfolding lseek_at fails_with Keeps IsTable
lseek_at-Keeps e offset origin s fd file t =
    elim (Bool-cases (is_zero (e.ff_fseek s.trace file offset origin))) [
      | inl y ↦ rw y t
      | inr n ↦ rw n t
    ]

read_at-Keeps :
    (e : Env) (count : ℕ) (s : State) (fd file : ℕ) → IsTable s → Keeps (read_at e count s fd file)
unfolding read_at Keeps IsTable
read_at-Keeps e count s fd file t =
    elim (Bool-cases (ltb (length (e.ff_fread s.trace file count)) count)) [
      | inl y ↦ rw y t
      | inr n ↦ rw n t
    ]

fstat_at-Keeps : (e : Env) (s : State) (fd file : ℕ) → IsTable s → Keeps (fstat_at e s fd file)
unfolding fstat_at stat stat_answer Keeps IsTable
fstat_at-Keeps e s fd file t =
    elim (Option-cases (e.ff_stat s.trace (e.text_at s.trace (s.name fd)))) [
      | inl y ↦ rw y t
      | inr (f, n) ↦ rw n t
    ]

call-Keeps : (e : Env) (c : Call) (s : State) → InRange c → IsTable s → Keeps (call e c s)
unfolding call InRange close_file lseek read fstat
call-Keeps e (Call.open_call name flags) s r t = open_file-Keeps e name flags s r t
call-Keeps e (Call.close_call fd) s r t =
    with_file-Keeps e fd s (close_at e s) r t (λ n f. close_at-Keeps e s n f t)
call-Keeps e (Call.lseek_call fd offset origin) s r t =
    with_file-Keeps e fd s (lseek_at e offset origin s) r t
      (λ n f. lseek_at-Keeps e offset origin s n (s.ff_file n) t)
call-Keeps e (Call.read_call fd count) s r t =
    with_file-Keeps e fd s (read_at e count s) r t
      (λ n f. read_at-Keeps e count s n (s.ff_file n) t)
call-Keeps e (Call.write_call fd ptr) s r t = write-Keeps e fd ptr s r t
call-Keeps e (Call.fstat_call fd) s r t =
    with_file-Keeps e fd s (fstat_at e s) r t (λ n f. fstat_at-Keeps e s n (s.ff_file n) t)

after_call :
    (k : State → Option State) (r : Result)
    → Keeps r
    → ((s : State) → IsTable s → (s' : State) × (k s ≡ some s') × IsTable s')
    → (s' : State) × (go_on k r ≡ some s') × IsTable s'
unfolding Keeps go_on
after_call k none h next = absurd h
after_call k (some (r, s)) h next = next s h

-- A sequence of system calls whose descriptors are from 0 to 1023 and whose names are not NULL comes
-- to an end, with no access outside of the table. It keeps: the next free descriptor is from 3 to
-- 1024; no descriptor from it on, and none below 3, stands for a file; a descriptor has a name
-- exactly if it has a file; and each file was opened as often as it was closed with success plus the
-- number of descriptors that stand for it.
pub calls-IsTable :
    (e : Env) (cs : List Call) (s : State)
    → AllInRange cs
    → IsTable s
    → (s' : State) × (calls e cs s ≡ some s') × IsTable s'
unfolding calls AllInRange
calls-IsTable e [] s r t = (s, refl, t)
calls-IsTable e (c ∷ cs) s r t =
    after_call (calls e cs) (call e c s) (call-Keeps e c s r.0 t)
      (λ s' t'. calls-IsTable e cs s' r.1 t')
