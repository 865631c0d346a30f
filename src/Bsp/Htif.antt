-- ===== src/Bsp/Htif.antt =====
-- The console of bsp/htif.c, over the two words tohost and fromhost that the driver shares with the
-- host. The host is the parameter `Env`: what a read of a word gives, after the accesses before it.
pub mod Console
pub mod Examples
use free_rtos_demos_cheri_ri.Prelude.{
  ℕ, zero, suc, ◌+◌, ◌*◌, ◌/◌, ◌%◌, ◌^◌, Bool, true, false, List, [], ◌∷◌, Option, none, some, Text,
  ◌==◌, if◌then◌else◌, ℤ, pos, negsuc,
}

pub data Event : Type 0 where
  read_tohost write_tohost read_fromhost : ℕ → Event
  clear_fromhost : Event

abbrev pub Trace : Type 0
Trace = List Event

pub record Env : Type 0 where
  pub tohost : Trace → ℕ
  pub fromhost : Trace → ℕ

-- htif_console_buf, and the accesses of the shared words
pub record State : Type 0 where
  pub console_buf : ℤ
  pub trace : Trace

-- TOHOST_CMD, for a payload of less than 48 bits, where the parts do not overlap
unfoldable pub tohost_cmd : ℕ → ℕ → ℕ → ℕ
tohost_cmd dev cmd payload = dev * 2 ^ 56 + cmd * 2 ^ 48 + payload

-- FROMHOST_DEV, FROMHOST_CMD, FROMHOST_DATA
unfoldable pub fromhost_dev : ℕ → ℕ
fromhost_dev value = value / 2 ^ 56

unfoldable pub fromhost_cmd : ℕ → ℕ
fromhost_cmd value = value * 2 ^ 8 % 2 ^ 64 / 2 ^ 56

unfoldable pub fromhost_data : ℕ → ℕ
fromhost_data value = value * 2 ^ 16 % 2 ^ 64 / 2 ^ 16

-- The switch of __check_fromhost(); `none` is an assertion that fails.
unfoldable pub on_command : ℕ → ℕ → State → Option State
unfolding fromhost_data
on_command zero fh s = some record s { console_buf = pos (suc (fromhost_data fh % 2 ^ 8)) }
on_command (suc zero) fh s = some s
on_command (suc (suc n)) fh s = none

unfoldable pub on_fromhost : ℕ → State → Option State
unfolding on_command fromhost_cmd fromhost_dev
on_fromhost fh s =
    if fh == 0
    then some s
    else if fromhost_dev fh == 1
    then on_command (fromhost_cmd fh) fh record s { trace = Event.clear_fromhost ∷ s.trace }
    else none

-- __check_fromhost()
unfoldable pub check_fromhost : Env → State → Option State
unfolding on_fromhost
check_fromhost e s =
    let fh = e.fromhost s.trace in
    on_fromhost fh record s { trace = Event.read_fromhost fh ∷ s.trace }

unfoldable pub and_then : (State → Option State) → Option State → Option State
and_then next none = none
and_then next (some s) = next s

-- __set_tohost(); `none` if the fuel runs out
unfoldable pub set_tohost : ℕ → Env → ℕ → State → Option State
unfolding and_then check_fromhost
set_tohost zero e value s = none
set_tohost (suc fuel) e value s =
    let v = e.tohost s.trace in
    let s' = record s { trace = Event.read_tohost v ∷ s.trace } in
    let again = and_then (set_tohost fuel e value) (check_fromhost e s') in
    if v == 0 then some record s' { trace = Event.write_tohost value ∷ s'.trace } else again

-- A call's result, none if an assertion fails or the fuel runs out
abbrev pub Result : Type 0
Result = Option (ℤ × State)

unfoldable pub with_result : ℤ → Option State → Result
with_result r none = none
with_result r (some s) = some (r, s)

-- ch - 1
unfoldable pub less_one : ℤ → ℤ
less_one (pos zero) = negsuc 0
less_one (pos (suc n)) = pos n
less_one (negsuc n) = negsuc (suc n)

-- htif_console_getchar() from the test of `ch` on
unfoldable pub answer : ℕ → Env → ℤ → State → Result
unfolding with_result less_one set_tohost tohost_cmd
answer fuel e (negsuc n) s = some (less_one (negsuc n), s)
answer fuel e (pos n) s =
    with_result (less_one (pos n))
      (set_tohost fuel e (tohost_cmd 1 0 0) record s { console_buf = negsuc 0 })

unfoldable pub on_checked : ℕ → Env → Option State → Result
unfolding answer
on_checked fuel e none = none
on_checked fuel e (some s) = answer fuel e s.console_buf s

unfoldable pub console_getchar : ℕ → Env → State → Result
unfolding on_checked check_fromhost
console_getchar fuel e s = on_checked fuel e (check_fromhost e s)

unfoldable pub console_putchar : ℕ → Env → ℕ → State → Option State
unfolding set_tohost tohost_cmd
console_putchar fuel e c s = set_tohost fuel e (tohost_cmd 1 1 c) s

-- htif_console_write_polled(), which returns the length that it is given
unfoldable pub write_polled : ℕ → Env → Text → State → Option State
unfolding console_putchar and_then
write_polled fuel e [] s = some s
write_polled fuel e (c ∷ buf) s = and_then (write_polled fuel e buf) (console_putchar fuel e c s)
