-- ===== src/Bsp/Htif/Examples.antt =====
-- A console whose user types the letter a again and again: a witness of the theorem.
use free_rtos_demos_cheri_ri.Prelude.{
  ◌+◌, ◌^◌, ◌≤◌, ◌≡◌, refl, List, [], ◌∷◌, some, Text, ◌==◌, leb, if◌then◌else◌, pos, arith,
  Bool-cases, inl, inr,
}
use free_rtos_demos_cheri_ri.Bsp.Htif.{Trace, Env, State, fromhost_dev, fromhost_cmd}
use free_rtos_demos_cheri_ri.Bsp.Htif.Console.{
  Call, requests, answers, since_write, IsAnswer, IsKept, calls, calls-IsKept,
}

-- The host takes a command at the third access, and answers a request at once.
abbrev keyboard : Env
keyboard = record {
  tohost = λ t. if leb 2 (since_write t) then 0 else 1;
  fromhost = λ t. if requests t == answers t + 1 then 2 ^ 56 + 97 else 0;
}

keyboard-IsAnswer : (t : Trace) → IsAnswer t (keyboard.fromhost t)
unfolding fromhost_dev fromhost_cmd
keyboard-IsAnswer t = elim (Bool-cases (requests t == answers t + 1)) [
  | inl y ↦ rw y (inr (omega arith, refl, inr (refl, ground arith)))
  | inr n ↦ rw n (inl refl)
]

keyboard-takes : (t : Trace) → 2 ≤ since_write t → keyboard.tohost t ≡ 0
keyboard-takes t le = ground arith

abbrev start : State
start = record { console_buf = pos 0; trace = [] }

abbrev program : List Call
program = Call.get_char ∷ (Call.get_char ∷ (Call.put_char 120 ∷ (Call.get_char ∷ [])))

calls-IsKept_example :
    (out : Text) × (s : State) × (calls 3 keyboard program [] start ≡ some (out, s)) × IsKept out s
calls-IsKept_example =
    calls-IsKept keyboard 2 program [] start keyboard-IsAnswer keyboard-takes (refl, refl)
