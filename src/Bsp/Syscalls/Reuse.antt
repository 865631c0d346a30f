-- ===== src/Bsp/Syscalls/Reuse.antt =====
-- What a descriptor of bsp/syscalls.c stands for after an open, a second open and a close.
use free_rtos_demos_cheri_ri.Prelude.{
  ℕ, suc, ◌+◌, ◌<◌, ◌≡◌, ◌≢◌, inl, inr, refl, sym, ap, ◌∙◌, true, false, none, some, ◌∷◌, pos,
  negsuc, is_zero, update, update_self, update_other, ◌==◌, leb, arith,
}
use mathlib.Core.Path.{subst}
use free_rtos_demos_cheri_ri.Bsp.Syscalls.{
  Env, State, Event, Trace, Flags, table_size, fails_with, with_file, open_file, open_flags,
  open_mode, open_found, open_new, is_named, find_name, mode_of, close_file, close_at,
}
use free_rtos_demos_cheri_ri.Bsp.Syscalls.Access.{read}
use free_rtos_demos_cheri_ri.Bsp.Syscalls.Names.{
  IsUnknown, same_text_self, is_named-other, find_name-none, find_name-last,
}

-- The answer of ff_fopen() in an open(), and the state after it if that is a file
abbrev pub new_file : Env → ℕ → ℕ → State → ℕ
new_file e a mode s = e.ff_fopen s.trace (e.text_at s.trace a) mode

abbrev opened_state : Env → ℕ → ℕ → State → State
opened_state e a mode s = record s {
  free_fd = s.free_fd + 1;
  ff_file = update s.ff_file s.free_fd (new_file e a mode s);
  name = update s.name s.free_fd a;
  trace = Event.ff_fopen (e.text_at s.trace a) mode (new_file e a mode s) ∷ s.trace;
}

module _ (e : Env) (a mode : ℕ) (flags : Flags) (s : State) (free : s.free_fd < table_size)
    (supported : mode_of flags ≡ some mode) (unknown : IsUnknown e a s)
    (is_file : new_file e a mode s ≢ 0) where
  open_file-opens : open_file e a flags s ≡ some (pos s.free_fd, opened_state e a mode s)
  unfolding open_file open_flags open_mode open_found open_new
  open_file-opens =
      let full : (s.free_fd == table_size) ≡ false = ground arith in
      let z : (new_file e a mode s == 0) ≡ false = ground arith in
      let new : find_name e a s 0 s.free_fd ≡ none =
        find_name-none e a s 0 s.free_fd
          (λ j lt. is_named-other e a s j (unknown j (omega (arith, lt)))) in
      rw full (rw supported (rw new (rw z refl)))

module _ (e : Env) (a b mode : ℕ) (s : State)
    (fixed : (t : Trace) (p : ℕ) → e.text_at t p ≡ e.text_at s.trace p) (named : a ≢ 0)
    (same : e.text_at s.trace b ≡ e.text_at s.trace a) (unknown : IsUnknown e a s) where
  abbrev later : State
  later = opened_state e a mode s

  others : (j : ℕ) → j < s.free_fd → is_named e b later j ≡ false
  others j lt =
      let other : later.name j ≡ s.name j = update_other s.name s.free_fd a j (omega (arith, lt)) in
      is_named-other e b later j (elim (unknown j lt) [
        | inl z ↦ inl (other ∙ z)
        | inr ne ↦ inr (λ eq. ne (
            sym (fixed later.trace (s.name j))
            ∙ ap (e.text_at later.trace) (sym other)
            ∙ eq
            ∙ fixed later.trace b
            ∙ same))
      ])

  last : is_named e b later s.free_fd ≡ true
  unfolding is_named
  last =
      let z : (a == 0) ≡ false = ground arith in
      rw
        (
          update_self s.name s.free_fd a,
          z,
          fixed later.trace b,
          fixed later.trace a,
          same,
          same_text_self (e.text_at s.trace a),
        )
        refl

  -- The search for the name of the file that was opened last
  find_name-opened : find_name e b later 0 (s.free_fd + 1) ≡ some s.free_fd
  find_name-opened =
      let add : suc s.free_fd ≡ s.free_fd + 1 = omega arith in
      subst (λ n. find_name e b later 0 n ≡ some s.free_fd) add
        (find_name-last e b later s.free_fd 0 s.free_fd (omega arith) others last)

-- The second open() of a name
open_again :
    (e : Env) (b mode fd : ℕ) (flags : Flags) (s : State)
    → s.free_fd < table_size
    → mode_of flags ≡ some mode
    → find_name e b s 0 s.free_fd ≡ some fd
    → open_file e b flags s ≡ some (pos fd, s)
unfolding open_file open_flags open_mode open_found
open_again e b mode fd flags s free supported old =
    let full : (s.free_fd == table_size) ≡ false = ground arith in
    rw full (rw supported (rw old refl))

-- After a close() that succeeds a read() fails with EBADF.
close-then_read :
    (e : Env) (fd count : ℕ) (s : State)
    → fd < table_size
    → s.ff_file fd ≢ 0
    → is_zero (e.ff_fclose s.trace (s.ff_file fd)) ≡ true
    → (s' : State) × (close_file e (pos fd) s ≡ some (pos 0, s'))
      × (read e (pos fd) count s' ≡ some (negsuc 0, record s' { errno = e.ebadf }))
unfolding close_file close_at read with_file fails_with
close-then_read e fd count s index is_file closes =
    let in_table : leb table_size fd ≡ false = ground arith in
    let z : (s.ff_file fd == 0) ≡ false = ground arith in
    let s' : State = record s {
      ff_file = update s.ff_file fd 0;
      name = update s.name fd 0;
      trace = Event.ff_fclose (s.ff_file fd) true ∷ s.trace;
    } in
    (s', rw in_table (rw z (rw closes refl)), rw in_table (rw (update_self s.ff_file fd 0) refl))

-- Two users open the same name, the second in any mode and by a name at another address, where the
-- strings at the addresses stay as they are: both get the same descriptor, the second with no further
-- call. When the first closes it and ff_fclose() succeeds, a read() of the second fails with EBADF.
pub open_file-shares :
    (e : Env) (a b mode mode' count : ℕ) (flags flags' : Flags) (s : State)
    → ((t : Trace) (p : ℕ) → e.text_at t p ≡ e.text_at s.trace p)
    → a ≢ 0
    → e.text_at s.trace b ≡ e.text_at s.trace a
    → s.free_fd + 1 < table_size
    → mode_of flags ≡ some mode
    → mode_of flags' ≡ some mode'
    → IsUnknown e a s
    → new_file e a mode s ≢ 0
    → ((t : Trace) → is_zero (e.ff_fclose t (new_file e a mode s)) ≡ true)
    → (s1 s2 : State) × (open_file e a flags s ≡ some (pos s.free_fd, s1))
      × (open_file e b flags' s1 ≡ some (pos s.free_fd, s1))
      × (close_file e (pos s.free_fd) s1 ≡ some (pos 0, s2))
      × (read e (pos s.free_fd) count s2 ≡ some (negsuc 0, record s2 { errno = e.ebadf }))
open_file-shares e a b mode mode' count flags flags' s fixed named same free supported supported'
      unknown is_file closes =
    let s1 : State = opened_state e a mode s in
    let self : s1.ff_file s.free_fd ≡ new_file e a mode s =
      update_self s.ff_file s.free_fd (new_file e a mode s) in
    let (s2, closed, fails) =
      close-then_read e s.free_fd count s1 (omega (arith, free)) (rw self is_file)
        (rw self (closes s1.trace)) in
    (
      s1,
      s2,
      open_file-opens e a mode flags s (omega (arith, free)) supported unknown is_file,
      open_again e b mode' s.free_fd flags' s1 free supported'
          (find_name-opened e a b mode s fixed named same unknown),
      closed,
      fails,
    )
