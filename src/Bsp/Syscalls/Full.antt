-- ===== src/Bsp/Syscalls/Full.antt =====
-- The table of open files of bsp/syscalls.c when its last descriptor was given out.
use free_rtos_demos_cheri_ri.Prelude.{
  ℕ, ◌≡◌, refl, Bool, true, false, ◌||◌, Option, none, some, List, [], ◌∷◌, Text, ℤ, pos, negsuc,
  is_zero, length, ◌==◌, ltb, leb, if◌then◌else◌, arith, Bool-cases, Option-cases, inl, inr,
}
use mathlib.Core.Path.{subst}
use free_rtos_demos_cheri_ri.Bsp.Syscalls.{
  Env, State, Result, Flags, table_size, stdout_fileno, fails_with, with_file, write, write_to,
  open_file, close_file, close_at,
}
use free_rtos_demos_cheri_ri.Bsp.Syscalls.Access.{
  Call, lseek, lseek_at, read, read_at, fstat, fstat_at, stat, stat_answer, call, go_on, calls,
}

-- Whether a call that returns leaves the table full
StaysFull : Result → Type 0
StaysFull none = Unit {0}
StaysFull (some (r, s)) = s.free_fd ≡ table_size

with_file-StaysFull :
    (e : Env) (fd : ℤ) (s : State) (on_file : ℕ → ℕ → Result)
    → s.free_fd ≡ table_size
    → ((n file : ℕ) → StaysFull (on_file n file))
    → StaysFull (with_file e fd s on_file)
unfolding with_file fails_with StaysFull
with_file-StaysFull e (negsuc n) s on_file full h = tt
with_file-StaysFull e (pos fd) s on_file full h =
    elim (Bool-cases (leb table_size fd || s.ff_file fd == 0)) [
      | inl y ↦ rw y full
      | inr n ↦ rw n (h fd (s.ff_file fd))
    ]

either-StaysFull :
    (b : Bool) (p q : Result) → StaysFull p → StaysFull q → StaysFull (if b then p else q)
either-StaysFull true p q h k = h
either-StaysFull false p q h k = k

write-StaysFull :
    (e : Env) (fd : ℤ) (ptr : Text) (s : State)
    → s.free_fd ≡ table_size
    → StaysFull (write e fd ptr s)
unfolding write write_to fails_with StaysFull
write-StaysFull e (negsuc n) ptr s full = tt
write-StaysFull e (pos fd) ptr s full = either-StaysFull (fd == stdout_fileno) _ _ full (
    either-StaysFull (leb table_size fd) none _ tt (
      either-StaysFull (s.ff_file fd == 0) _ _ full (
        either-StaysFull (ltb (e.ff_fwrite s.trace (s.ff_file fd) ptr) (length ptr)) _ _ full
          full)))

read_at-StaysFull :
    (e : Env) (count : ℕ) (s : State) (fd file : ℕ)
    → s.free_fd ≡ table_size
    → StaysFull (read_at e count s fd file)
unfolding read_at StaysFull
read_at-StaysFull e count s fd file full =
    elim (Bool-cases (ltb (length (e.ff_fread s.trace file count)) count)) [
      | inl y ↦ rw y full
      | inr n ↦ rw n full
    ]

fstat_at-StaysFull :
    (e : Env) (s : State) (fd file : ℕ) → s.free_fd ≡ table_size → StaysFull (fstat_at e s fd file)
unfolding fstat_at stat stat_answer StaysFull
fstat_at-StaysFull e s fd file full =
    elim (Option-cases (e.ff_stat s.trace (e.text_at s.trace (s.name fd)))) [
      | inl y ↦ rw y full
      | inr (f, n) ↦ rw n full
    ]

call-StaysFull : (e : Env) (c : Call) (s : State) → s.free_fd ≡ table_size → StaysFull (call e c s)
unfolding call open_file close_file close_at lseek lseek_at read read_at fstat fstat_at fails_with
    StaysFull
call-StaysFull e (Call.open_call name flags) s full =
    let t : (s.free_fd == table_size) ≡ true = ground arith in rw t full
call-StaysFull e (Call.close_call fd) s full =
    with_file-StaysFull e fd s (close_at e s) full
      (λ n file. either-StaysFull (is_zero (e.ff_fclose s.trace file)) _ _ full full)
call-StaysFull e (Call.lseek_call fd offset origin) s full =
    with_file-StaysFull e fd s (lseek_at e offset origin s) full
      (λ n file. either-StaysFull (is_zero (e.ff_fseek s.trace file offset origin)) _ _ full full)
call-StaysFull e (Call.read_call fd count) s full =
    with_file-StaysFull e fd s (read_at e count s) full
      (λ n file. read_at-StaysFull e count s n file full)
call-StaysFull e (Call.write_call fd ptr) s full = write-StaysFull e fd ptr s full
call-StaysFull e (Call.fstat_call fd) s full =
    with_file-StaysFull e fd s (fstat_at e s) full (λ n file. fstat_at-StaysFull e s n file full)

-- The state that a run ends in, if it ends, has a full table.
EndsFull : Option State → Type 0
EndsFull none = Unit {0}
EndsFull (some s) = s.free_fd ≡ table_size

after_call :
    (k : State → Option State) (r : Result)
    → StaysFull r
    → ((s : State) → s.free_fd ≡ table_size → EndsFull (k s))
    → EndsFull (go_on k r)
unfolding StaysFull EndsFull go_on
after_call k none h next = tt
after_call k (some (r, s)) h next = next s h

calls-EndsFull :
    (e : Env) (cs : List Call) (s : State) → s.free_fd ≡ table_size → EndsFull (calls e cs s)
unfolding calls EndsFull
calls-EndsFull e [] s full = full
calls-EndsFull e (c ∷ cs) s full =
    after_call (calls e cs) (call e c s) (call-StaysFull e c s full) (calls-EndsFull e cs)

-- Once the last descriptor was given out, every later open() fails, whatever was closed meanwhile:
-- the descriptor of a closed file is not given out again.
pub calls-exhausted :
    (e : Env) (cs : List Call) (name : ℕ) (flags : Flags) (s s' : State)
    → s.free_fd ≡ table_size
    → calls e cs s ≡ some s'
    → open_file e name flags s' ≡ some (negsuc 0, s')
unfolding open_file EndsFull
calls-exhausted e cs name flags s s' full r =
    let full' : s'.free_fd ≡ table_size = subst EndsFull r (calls-EndsFull e cs s full) in
    let t : (s'.free_fd == table_size) ≡ true = ground arith in rw t refl
