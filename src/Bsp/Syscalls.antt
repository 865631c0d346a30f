-- ===== src/Bsp/Syscalls.antt =====
-- The system calls of bsp/syscalls.c on files, for a build with FreeRTOS+FAT (ipconfigUSE_FAT_LIBDL):
-- the table ff_map of open files, whose index is the file descriptor. FreeRTOS+FAT, the console and
-- the memory of the callers are the parameter `Env`.
pub mod Access
pub mod Table
pub mod Calls
pub mod Names
pub mod Going
pub mod Kept
pub mod Reuse
pub mod Full
pub mod Examples
use free_rtos_demos_cheri_ri.Prelude.{
  ℕ, zero, suc, ◌+◌, ◌*◌, ◌/◌, ◌%◌, Bool, ◌&&◌, ◌||◌, not, Option, none, some, List, [], ◌∷◌, Text,
  length, same_text, update, ◌==◌, ltb, leb, if◌then◌else◌, ℤ, pos, negsuc, is_zero,
}

-- The flags of an open() call that the switch tells apart.
pub data Flags : Type 0 where
  o_rdonly o_wronly o_rdwr other : Flags

-- FF_Stat_t: the fields that _stat() reads, the times in microseconds
pub record FfStat : Type 0 where
  pub st_dev : ℕ
  pub st_ino : ℕ
  pub st_mode : ℕ
  pub st_size : ℕ
  pub st_atime : ℕ
  pub st_mtime : ℕ
  pub st_ctime : ℕ

-- struct timespec
pub record Timespec : Type 0 where
  pub tv_sec : ℕ
  pub tv_nsec : ℕ

-- struct stat: the fields that _stat() writes
pub record Stat : Type 0 where
  pub st_dev : ℕ
  pub st_ino : ℕ
  pub st_mode : ℕ
  pub st_size : ℕ
  pub st_atim : Timespec
  pub st_mtim : Timespec
  pub st_ctim : Timespec

-- A call of the console or of FreeRTOS+FAT: a file of it is an address.
pub data Event : Type 0 where
  console_write : Text → Event
  ff_fopen : Text → ℕ → ℕ → Event  -- the name, the mode, and the file returned, 0 for NULL
  ff_fclose : ℕ → Bool → Event  -- the file, and whether it succeeded
  ff_fwrite : ℕ → Text → Event
  ff_fseek : ℕ → ℤ → ℕ → Event
  ff_fread : ℕ → ℕ → Event
  ff_stat : Text → Event

abbrev pub Trace : Type 0
Trace = List Event

-- What each call answers, given the calls before it.
pub record Env : Type 0 where
  pub console_write : Trace → Text → ℤ
  pub ff_fopen : Trace → Text → ℕ → ℕ
  pub ff_fclose : Trace → ℕ → ℤ
  pub ff_fwrite : Trace → ℕ → Text → ℕ
  pub ff_fseek : Trace → ℕ → ℤ → ℕ → ℤ
  pub ff_fread : Trace → ℕ → ℕ → Text
  pub ff_stat : Trace → Text → Option FfStat
  pub get_errno : Trace → ℕ  -- stdioGET_ERRNO()
  pub text_at : Trace → ℕ → Text  -- the string at an address, at that time
  pub ebadf : ℕ

-- The variables of the file
pub record State : Type 0 where
  pub free_fd : ℕ
  pub ff_file : ℕ → ℕ  -- ff_map[ fd ].ff_file, 0 for NULL
  pub name : ℕ → ℕ  -- ff_map[ fd ].name, an address of the caller's memory, 0 for NULL
  pub errno : ℕ
  pub trace : Trace

-- configFF_FDS_TABLE_SIZE
abbrev pub table_size : ℕ
table_size = 1024

abbrev pub stdout_fileno : ℕ
stdout_fileno = 1

-- The result of a call with the state after it; `none` is a read outside of ff_map.
abbrev pub Result : Type 0
Result = Option (ℤ × State)

unfoldable pub fails_with : ℕ → State → Result
fails_with errno s = some (negsuc 0, record s { errno = errno })

-- ff_map[ fd ].ff_file for a descriptor that passed `fd >= configFF_FDS_TABLE_SIZE`; `on_file` goes
-- on with the file if it is not NULL.
unfoldable pub with_file : Env → ℤ → State → (ℕ → ℕ → Result) → Result
unfolding fails_with
with_file e (negsuc n) s on_file = none
with_file e (pos fd) s on_file =
    if leb table_size fd || s.ff_file fd == 0
    then fails_with e.ebadf s
    else on_file fd (s.ff_file fd)

-- _write() to a file of the table
unfoldable pub write_to : Env → ℕ → Text → State → Result
unfolding fails_with
write_to e file ptr s =
    let written = e.ff_fwrite s.trace file ptr in
    let s' = record s { trace = Event.ff_fwrite file ptr ∷ s.trace } in
    if ltb written (length ptr)
    then fails_with (e.get_errno s'.trace) s'
    else some (pos written, s')

-- _write() does not compare the descriptor with the size of the table.
unfoldable pub write : Env → ℤ → Text → State → Result
unfolding write_to fails_with
write e (negsuc n) ptr s = none
write e (pos fd) ptr s =
    if fd == stdout_fileno
    then some (e.console_write s.trace ptr, record s { trace = Event.console_write ptr ∷ s.trace })
    else if leb table_size fd
    then none
    else if s.ff_file fd == 0
    then fails_with e.ebadf s
    else write_to e (s.ff_file fd) ptr s

-- ff_strMode, for the flags that are supported
unfoldable pub mode_of : Flags → Option ℕ
mode_of Flags.o_rdonly = some b'r'
mode_of Flags.o_wronly = some b'w'
mode_of Flags.o_rdwr = some b'w'
mode_of Flags.other = none

-- if (ff_map[i].name && strcmp(name, ff_map[i].name) == 0)
unfoldable pub is_named : Env → ℕ → State → ℕ → Bool
is_named e name s i =
    not (s.name i == 0) && same_text (e.text_at s.trace name) (e.text_at s.trace (s.name i))

-- The loop over the descriptors from i on, with the number that are left.
unfoldable pub find_name : Env → ℕ → State → ℕ → ℕ → Option ℕ
unfolding is_named
find_name e name s i zero = none
find_name e name s i (suc left) =
    let rest = find_name e name s (i + 1) left in if is_named e name s i then some i else rest

-- ff_fopen() and the new entry of the table
unfoldable pub open_new : Env → ℕ → ℕ → State → Result
open_new e name mode s =
    let file = e.ff_fopen s.trace (e.text_at s.trace name) mode in
    let trace = Event.ff_fopen (e.text_at s.trace name) mode file ∷ s.trace in
    if file == 0
    then some (negsuc 0, record s { trace = trace })
    else some (
      pos s.free_fd,
      record s {
        free_fd = s.free_fd + 1;
        ff_file = update s.ff_file s.free_fd file;
        name = update s.name s.free_fd name;
        trace = trace;
      },
    )

-- The result of the loop: a descriptor of that name, or none
unfoldable pub open_found : Env → ℕ → ℕ → State → Option ℕ → Result
unfolding open_new
open_found e name mode s (some i) = some (pos i, s)
open_found e name mode s none = open_new e name mode s

-- _open() after the switch
unfoldable pub open_mode : Env → ℕ → ℕ → State → Result
unfolding find_name open_found
open_mode e name mode s = open_found e name mode s (find_name e name s 0 s.free_fd)

unfoldable pub open_flags : Env → ℕ → Option ℕ → State → Result
unfolding open_mode
open_flags e name none s = some (negsuc 0, s)
open_flags e name (some mode) s = open_mode e name mode s

unfoldable pub open_file : Env → ℕ → Flags → State → Result
unfolding open_flags mode_of
open_file e name flags s =
    if s.free_fd == table_size then some (negsuc 0, s) else open_flags e name (mode_of flags) s

-- _close() of an open file
unfoldable pub close_at : Env → State → ℕ → ℕ → Result
unfolding fails_with
close_at e s fd file =
    let closed = is_zero (e.ff_fclose s.trace file) in
    let s' = record s { trace = Event.ff_fclose file closed ∷ s.trace } in
    if closed
    then some (pos 0, record s' { ff_file = update s.ff_file fd 0; name = update s.name fd 0 })
    else fails_with (e.get_errno s'.trace) s'

unfoldable pub close_file : Env → ℤ → State → Result
unfolding with_file close_at
close_file e fd s = with_file e fd s (close_at e s)
