-- ===== src/Bsp/Syscalls/Going.antt =====
-- A call of bsp/syscalls.c on a descriptor with a file is one call of FreeRTOS+FAT on that file.
use free_rtos_demos_cheri_ri.Prelude.{
  ℕ, ◌≤◌, ◌<◌, ◌≡◌, ◌≢◌, inl, inr, refl, false, none, some, ◌∷◌, Text, ℤ, pos, is_zero, length,
  ◌==◌, ltb, leb, arith, Bool-cases,
}
use free_rtos_demos_cheri_ri.Bsp.Syscalls.{
  Env, State, Event, Trace, Result, table_size, stdout_fileno, fails_with, with_file, write,
  write_to, close_file, close_at,
}
use free_rtos_demos_cheri_ri.Bsp.Syscalls.Access.{lseek, lseek_at, read, read_at}
use free_rtos_demos_cheri_ri.Bsp.Syscalls.Kept.{}

-- A call returns, and has made one more call, on a file.
abbrev pub Does : Result → Event → Trace → Type 0
Does none ev t = ⊥
Does (some (r, s)) ev t = s.trace ≡ ev ∷ t

module _ (e : Env) (fd file : ℕ) (s : State) (low : 3 ≤ fd) (in_table : fd < table_size)
    (at : s.ff_file fd ≡ file) (is_file : file ≢ 0) where
  small : leb table_size fd ≡ false
  small = ground arith

  is_open : (file == 0) ≡ false
  is_open = ground arith

  pub read-goes : (count : ℕ) → Does (read e (pos fd) count s) (Event.ff_fread file count) s.trace
  unfolding read read_at with_file
  read-goes count =
      rw (small, at, is_open)
        (elim (Bool-cases (ltb (length (e.ff_fread s.trace file count)) count)) [
          | inl y ↦ rw y refl
          | inr n ↦ rw n refl
        ])

  pub write-goes : (ptr : Text) → Does (write e (pos fd) ptr s) (Event.ff_fwrite file ptr) s.trace
  unfolding write write_to fails_with
  write-goes ptr =
      let std : (fd == stdout_fileno) ≡ false = ground arith in
      rw (std, small, at, is_open)
        (elim (Bool-cases (ltb (e.ff_fwrite s.trace file ptr) (length ptr))) [
          | inl y ↦ rw y refl
          | inr n ↦ rw n refl
        ])

  pub lseek-goes :
      (offset : ℤ) (origin : ℕ)
      → Does (lseek e (pos fd) offset origin s) (Event.ff_fseek file offset origin) s.trace
  unfolding lseek lseek_at fails_with with_file
  lseek-goes offset origin =
      rw (small, at, is_open)
        (elim (Bool-cases (is_zero (e.ff_fseek s.trace file offset origin))) [
          | inl y ↦ rw y refl
          | inr n ↦ rw n refl
        ])

  pub close-goes :
      Does
        (close_file e (pos fd) s)
        (Event.ff_fclose file (is_zero (e.ff_fclose s.trace file)))
        s.trace
  unfolding close_file close_at fails_with with_file
  close-goes =
      rw (small, at, is_open)
        (elim (Bool-cases (is_zero (e.ff_fclose s.trace file))) [
          | inl y ↦ rw y refl
          | inr n ↦ rw n refl
        ])
