-- ===== src/Bsp/Syscalls/Kept.antt =====
-- A descriptor of bsp/syscalls.c keeps its file along every sequence of calls that does not close it.
use free_rtos_demos_cheri_ri.Prelude.{
  ℕ, ◌<◌, ◌≡◌, ◌≢◌, Bool, true, false, ◌||◌, ◌&&◌, not, Option, none, some, List, [], ◌∷◌, Text, ℤ,
  pos, negsuc, is_zero, length, update_other, ◌==◌, ltb, leb, if◌then◌else◌, arith, Bool-cases,
  Option-cases, inl, inr,
}
use mathlib.Core.Path.{subst}
use free_rtos_demos_cheri_ri.Bsp.Syscalls.{
  Env, State, Result, table_size, stdout_fileno, fails_with, with_file, write, write_to, open_file,
  open_flags, open_mode, open_found, open_new, find_name, mode_of, close_file, close_at,
}
use free_rtos_demos_cheri_ri.Bsp.Syscalls.Access.{
  Call, lseek, lseek_at, read, read_at, fstat, fstat_at, stat, stat_answer, call, go_on, calls,
}

abbrev closes : ℕ → Call → Bool
closes fd (Call.close_call (pos n)) = n == fd
closes fd _ = false

-- No call closes the descriptor.
abbrev pub never_closed : ℕ → List Call → Bool
never_closed fd [] = true
never_closed fd (c ∷ cs) = not (closes fd c) && never_closed fd cs

-- A descriptor that was given out stands for a file.
abbrev pub IsAt : ℕ → ℕ → State → Type 0
IsAt fd file s = (s.ff_file fd ≡ file) × (fd < s.free_fd)

-- Whether a call that returns leaves it so
Stays : ℕ → ℕ → Result → Type 0
Stays fd file none = Unit {0}
Stays fd file (some (r, s)) = IsAt fd file s

either-Stays :
    (fd file : ℕ) (b : Bool) (p q : Result)
    → Stays fd file p
    → Stays fd file q
    → Stays fd file (if b then p else q)
either-Stays fd file true p q h k = h
either-Stays fd file false p q h k = k

module _ (e : Env) (fd file : ℕ) (s : State) (at : IsAt fd file s) where
  with_file-Stays :
      (n : ℤ) (on_file : ℕ → ℕ → Result)
      → ((k f : ℕ) → Stays fd file (on_file k f))
      → Stays fd file (with_file e n s on_file)
  unfolding with_file fails_with Stays
  with_file-Stays (negsuc k) on_file h = tt
  with_file-Stays (pos k) on_file h =
      either-Stays fd file (leb table_size k || s.ff_file k == 0) _ _ at (h k (s.ff_file k))

  close_at-Stays : (n f : ℕ) → (n == fd) ≡ false → Stays fd file (close_at e s n f)
  unfolding close_at fails_with Stays
  close_at-Stays n f other =
      let ne : fd ≢ n = ground arith in
      either-Stays fd file (is_zero (e.ff_fclose s.trace f)) _ _
        (rw (update_other s.ff_file n 0 fd ne) at.0, at.1) at

  close_file-Stays :
      (n : ℤ) → closes fd (Call.close_call n) ≡ false → Stays fd file (close_file e n s)
  unfolding close_file with_file fails_with Stays
  close_file-Stays (negsuc k) other = tt
  close_file-Stays (pos k) other =
      either-Stays fd file (leb table_size k || s.ff_file k == 0) _ _ at
        (close_at-Stays k (s.ff_file k) other)

  write-Stays : (n : ℤ) (ptr : Text) → Stays fd file (write e n ptr s)
  unfolding write write_to fails_with Stays
  write-Stays (negsuc k) ptr = tt
  write-Stays (pos k) ptr = either-Stays fd file (k == stdout_fileno) _ _ at (
      either-Stays fd file (leb table_size k) none _ tt (
        either-Stays fd file (s.ff_file k == 0) _ _ at (
          either-Stays fd file (ltb (e.ff_fwrite s.trace (s.ff_file k) ptr) (length ptr)) _ _ at
            at)))

  read_at-Stays : (count n f : ℕ) → Stays fd file (read_at e count s n f)
  unfolding read_at Stays
  read_at-Stays count n f = elim (Bool-cases (ltb (length (e.ff_fread s.trace f count)) count)) [
    | inl y ↦ rw y at
    | inr m ↦ rw m at
  ]

  fstat_at-Stays : (n f : ℕ) → Stays fd file (fstat_at e s n f)
  unfolding fstat_at stat stat_answer Stays
  fstat_at-Stays n f = elim (Option-cases (e.ff_stat s.trace (e.text_at s.trace (s.name n)))) [
    | inl y ↦ rw y at
    | inr (x, m) ↦ rw m at
  ]

  open_new-Stays : (name mode : ℕ) → Stays fd file (open_new e name mode s)
  unfolding open_new Stays
  open_new-Stays name mode =
      let lt : fd < s.free_fd = at.1 in
      either-Stays fd file (e.ff_fopen s.trace (e.text_at s.trace name) mode == 0) _ _ at
        (rw (update_other s.ff_file s.free_fd _ fd (omega (arith, lt))) at.0, omega (arith, lt))

  open_flags-Stays : (name : ℕ) (mode : Option ℕ) → Stays fd file (open_flags e name mode s)
  unfolding open_flags open_mode open_found Stays
  open_flags-Stays name none = at
  open_flags-Stays name (some mode) = elim (Option-cases (find_name e name s 0 s.free_fd)) [
    | inl y ↦ rw y (open_new-Stays name mode)
    | inr (x, m) ↦ rw m at
  ]

  call-Stays : (c : Call) → closes fd c ≡ false → Stays fd file (call e c s)
  unfolding call open_file lseek lseek_at read fstat fails_with Stays
  call-Stays (Call.open_call name flags) other =
      either-Stays fd file (s.free_fd == table_size) _ _ at (open_flags-Stays name (mode_of flags))
  call-Stays (Call.close_call n) other = close_file-Stays n other
  call-Stays (Call.lseek_call n offset origin) other =
      with_file-Stays n (lseek_at e offset origin s)
        (λ k f. either-Stays fd file (is_zero (e.ff_fseek s.trace f offset origin)) _ _ at at)
  call-Stays (Call.read_call n count) other =
      with_file-Stays n (read_at e count s) (read_at-Stays count)
  call-Stays (Call.write_call n ptr) other = write-Stays n ptr
  call-Stays (Call.fstat_call n) other = with_file-Stays n (fstat_at e s) fstat_at-Stays

EndsAt : ℕ → ℕ → Option State → Type 0
EndsAt fd file none = Unit {0}
EndsAt fd file (some s) = IsAt fd file s

after_call :
    (fd file : ℕ) (k : State → Option State) (r : Result)
    → Stays fd file r
    → ((s : State) → IsAt fd file s → EndsAt fd file (k s))
    → EndsAt fd file (go_on k r)
unfolding Stays EndsAt go_on
after_call fd file k none h next = tt
after_call fd file k (some (r, s)) h next = next s h

calls-EndsAt :
    (e : Env) (fd file : ℕ) (cs : List Call) (s : State)
    → never_closed fd cs ≡ true
    → IsAt fd file s
    → EndsAt fd file (calls e cs s)
unfolding calls EndsAt
calls-EndsAt e fd file [] s never at = at
calls-EndsAt e fd file (c ∷ cs) s never at =
    let other : closes fd c ≡ false = ground arith in
    let more : never_closed fd cs ≡ true = ground arith in
    after_call fd file (calls e cs) (call e c s) (call-Stays e fd file s at c other)
      (λ s' at'. calls-EndsAt e fd file cs s' more at')

pub calls-IsAt :
    (e : Env) (fd file : ℕ) (cs : List Call) (s s' : State)
    → never_closed fd cs ≡ true
    → IsAt fd file s
    → calls e cs s ≡ some s'
    → IsAt fd file s'
unfolding EndsAt
calls-IsAt e fd file cs s s' never at r =
    subst (EndsAt fd file) r (calls-EndsAt e fd file cs s never at)
