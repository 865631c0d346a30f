-- ===== src/Bsp/Htif/Console.antt =====
-- The characters that the host sends to the console of bsp/htif.c.
use free_rtos_demos_cheri_ri.Prelude.{
  ℕ, zero, suc, ◌+◌, ◌%◌, ◌^◌, ◌<◌, ◌≤◌, ◌≡◌, ◌≢◌, ◌⊎◌, refl, sym, ap, ◌∙◌, Bool, true, false, List,
  [], ◌∷◌, ◌++◌, Option, none, some, Text, ◌==◌, if◌then◌else◌, ℤ, pos, negsuc, arith, Bool-cases,
  inl, inr,
}
use mathlib.Core.List.{append-nil}
use free_rtos_demos_cheri_ri.Bsp.Htif.{
  Event, Trace, Env, State, tohost_cmd, fromhost_dev, fromhost_cmd, fromhost_data, on_command,
  on_fromhost, check_fromhost, set_tohost, with_result, less_one, answer, on_checked,
  console_getchar, console_putchar,
}

abbrev one_if : Bool → ℕ
one_if true = 1
one_if false = 0

-- A word from the host that holds a character, and that character
abbrev is_char : ℕ → Bool
is_char v = if v == 0 then false else fromhost_cmd v == 0

abbrev char : ℕ → ℕ
char v = fromhost_data v % 2 ^ 8

-- The characters that were read from the host, in their order, and their number
abbrev pub delivered : Trace → Text
delivered [] = []
delivered (Event.read_fromhost v ∷ t) = delivered t ++ (if is_char v then char v ∷ [] else [])
delivered (_ ∷ t) = delivered t

abbrev pub answers : Trace → ℕ
answers [] = 0
answers (Event.read_fromhost v ∷ t) = one_if (is_char v) + answers t
answers (_ ∷ t) = answers t

-- The number of requests for a character
abbrev pub requests : Trace → ℕ
requests [] = 0
requests (Event.write_tohost v ∷ t) = one_if (v == tohost_cmd 1 0 0) + requests t
requests (_ ∷ t) = requests t

-- The accesses since the last command to the host
abbrev pub since_write : Trace → ℕ
since_write [] = 0
since_write (Event.write_tohost v ∷ t) = 0
since_write (_ ∷ t) = suc (since_write t)

-- What the host may answer: nothing, that it has written a character, or a character that was asked for
abbrev pub IsAnswer : Trace → ℕ → Type 0
IsAnswer t v =
    (v ≡ 0)
    ⊎ ((v ≢ 0)
        × (fromhost_dev v ≡ 1)
        × ((fromhost_cmd v ≡ 1) ⊎ ((fromhost_cmd v ≡ 0) × (requests t ≡ answers t + 1))))

-- The character in htif_console_buf
abbrev pub held : ℤ → Text
held (pos (suc c)) = c ∷ []
held _ = []

-- The character that a result of htif_console_getchar() is
abbrev pub char_of : ℤ → Text
char_of (pos c) = c ∷ []
char_of (negsuc n) = []

-- A character is outstanding exactly if htif_console_buf is -1.
abbrev pub IsFair : ℤ → Trace → Type 0
IsFair (pos n) t = requests t ≡ answers t
IsFair (negsuc zero) t = requests t ≡ answers t + 1
IsFair (negsuc (suc n)) t = ⊥

-- The characters from the host are those of `out` and the one in htif_console_buf.
abbrev pub IsKept : Text → State → Type 0
IsKept out s = IsFair s.console_buf s.trace × (delivered s.trace ≡ out ++ held s.console_buf)

-- The state before a new request
abbrev IsIdle : Text → State → Type 0
IsIdle out s =
    (s.console_buf ≡ negsuc 0) × (requests s.trace ≡ answers s.trace) × (delivered s.trace ≡ out)

abbrev IsSame : Trace → Trace → Type 0
IsSame t t' =
    (requests t' ≡ requests t)
    × (answers t' ≡ answers t)
    × (delivered t' ≡ delivered t)
    × (since_write t < since_write t')

IsFair-same :
    (b : ℤ) (t t' : Trace)
    → requests t' ≡ requests t
    → answers t' ≡ answers t
    → IsFair b t
    → IsFair b t'
IsFair-same (pos n) t t' r a p = omega (arith, r, a, p)
IsFair-same (negsuc zero) t t' r a p = omega (arith, r, a, p)
IsFair-same (negsuc (suc n)) t t' r a p = p

-- A check that finds no character changes nothing but the trace.
check-cases :
    (e : Env) (b : ℤ) (t : Trace)
    → IsAnswer t (e.fromhost t)
    → ((t' : Trace) × (check_fromhost e record { console_buf = b; trace = t }
          ≡ some record { console_buf = b; trace = t' })
        × IsSame t t')
      ⊎ ((requests t ≡ answers t + 1)
          × (is_char (e.fromhost t) ≡ true)
          × (check_fromhost e record { console_buf = b; trace = t }
              ≡ some record {
                console_buf = pos (suc (char (e.fromhost t)));
                trace = Event.clear_fromhost ∷ (Event.read_fromhost (e.fromhost t) ∷ t);
              }))
unfolding check_fromhost on_fromhost on_command
check-cases e b t (inl z) = inl (
  Event.read_fromhost (e.fromhost t) ∷ t,
  rw z refl,
  (refl, rw z (omega arith), rw z (append-nil (delivered t)), omega arith),
)
check-cases e b t (inr (nz, dev, inl ack)) =
    let n : (e.fromhost t == 0) ≡ false = ground arith in
    inl (
      Event.clear_fromhost ∷ (Event.read_fromhost (e.fromhost t) ∷ t),
      rw n (rw dev (rw ack refl)),
      (refl, rw n (rw ack (omega arith)), rw n (rw ack (append-nil (delivered t))), omega arith),
    )
check-cases e b t (inr (nz, dev, inr (cmd, asked))) =
    let n : (e.fromhost t == 0) ≡ false = ground arith in
    inr (asked, rw n (rw cmd refl), rw n (rw dev (rw cmd refl)))

-- What __check_fromhost() keeps
abbrev Checks : Env → (State → Type 0) → State → Type 0
Checks e P s =
    (s' : State) × (check_fromhost e s ≡ some s')
    × P s'
    × (since_write s.trace < since_write s'.trace)

-- The loop of __set_tohost() ends once the host has had the time of k accesses.
set_tohost-sets :
    {P : State → Type 0} (e : Env) (k : ℕ)
    → ((t : Trace) → k ≤ since_write t → e.tohost t ≡ 0)
    → ((s : State) → P s → Checks e P s)
    → ((s : State) (v : ℕ) → P s → P record s { trace = Event.read_tohost v ∷ s.trace })
    → (fuel value : ℕ) (s : State) → k ≤ fuel + since_write s.trace
    → P s
    → (s' : State) × (set_tohost (suc fuel) e value s
        ≡ some record s' { trace = Event.write_tohost value ∷ s'.trace })
      × P s'
unfolding set_tohost
set_tohost-sets e k takes check read zero value s le p = (
  record s { trace = Event.read_tohost 0 ∷ s.trace },
  rw (takes s.trace (omega (arith, le))) refl,
  read s 0 p,
)
set_tohost-sets e k takes check read (suc fuel) value s le p =
    let v : ℕ = e.tohost s.trace in
    let s1 : State = record s { trace = Event.read_tohost v ∷ s.trace } in
    let (s2, ends, q, lt) = check s1 (read s v p) in
    let (s3, sets, r) =
      set_tohost-sets e k takes check read fuel value s2 (omega (arith, le, lt)) q in
    elim (Bool-cases (v == 0)) [
      | inl y ↦ (s1, rw y refl, read s v p)
      | inr n ↦ (s3, rw n (rw ends sets), r)
    ]

IsFair-asked : (b : ℤ) (t : Trace) → IsFair b t → requests t ≡ answers t + 1 → b ≡ negsuc 0
IsFair-asked (pos n) t fair asked = let no : ⊥ = omega (arith, fair, asked) in elim no [ ]
IsFair-asked (negsuc zero) t fair asked = refl
IsFair-asked (negsuc (suc n)) t fair asked = elim fair [ ]

module _ (e : Env) (host : (t : Trace) → IsAnswer t (e.fromhost t)) (out : Text) where
  check-IsKept : (s : State) → IsKept out s → Checks e (IsKept out) s
  check-IsKept s (fair, d) = elim (check-cases e s.console_buf s.trace (host s.trace)) [
    | inl (t', ends, (r, a, dd, lt)) ↦
        (record s { trace = t' }, ends, (IsFair-same s.console_buf s.trace t' r a fair, dd ∙ d), lt)
    | inr (asked, c, ends) ↦
        let b = IsFair-asked s.console_buf s.trace fair asked in
        (
          _,
          ends,
          (
            rw c (omega (arith, asked)),
            rw c (
                ap (λ l. l ++ (char (e.fromhost s.trace) ∷ []))
                  (d ∙ ap (λ x. out ++ held x) b ∙ append-nil out)),
          ),
          omega arith,
        )
  ]

  check-IsIdle : (s : State) → IsIdle out s → Checks e (IsIdle out) s
  check-IsIdle s (b, q, d) = elim (check-cases e s.console_buf s.trace (host s.trace)) [
    | inl (t', ends, (r, a, dd, lt)) ↦
        (record s { trace = t' }, ends, (b, omega (arith, r, a, q), dd ∙ d), lt)
    | inr (asked, c, ends) ↦ let no : ⊥ = omega (arith, asked, q) in elim no [ ]
  ]

  asked-IsKept :
      (s : State)
      → IsIdle out s
      → IsKept out record s { trace = Event.write_tohost (tohost_cmd 1 0 0) ∷ s.trace }
  unfolding tohost_cmd
  asked-IsKept s (b, q, d) =
      (rw b (omega (arith, q)), d ∙ sym (ap (λ x. out ++ held x) b ∙ append-nil out))

  put-IsKept :
      (c : ℕ) (s : State)
      → IsKept out s
      → IsKept out record s { trace = Event.write_tohost (tohost_cmd 1 1 c) ∷ s.trace }
  unfolding tohost_cmd
  put-IsKept c s (fair, d) =
      let other : (tohost_cmd 1 1 c == tohost_cmd 1 0 0) ≡ false = ground arith in
      (IsFair-same s.console_buf s.trace _ (rw other (omega arith)) refl fair, d)

  read-IsKept :
      (s : State) (v : ℕ)
      → IsKept out s
      → IsKept out record s { trace = Event.read_tohost v ∷ s.trace }
  read-IsKept s v (fair, d) = (IsFair-same s.console_buf s.trace _ refl refl fair, d)

module _ (e : Env) (host : (t : Trace) → IsAnswer t (e.fromhost t)) (fuel : ℕ)
    (takes : (t : Trace) → fuel ≤ since_write t → e.tohost t ≡ 0) where
  -- A new request, when no character is outstanding
  ask-IsKept :
      (out : Text) (r : ℤ) (s : State)
      → IsIdle out s
      → (s' : State) × (with_result r (set_tohost (suc fuel) e (tohost_cmd 1 0 0) s) ≡ some (r, s'))
        × IsKept out s'
  unfolding with_result
  ask-IsKept out r s idle =
      let (s', sets, q) =
        set_tohost-sets e fuel takes (check-IsIdle e host out) (λ s v q. q) fuel (tohost_cmd 1 0 0)
          s (omega arith) idle in
      (_, rw sets refl, asked-IsKept e host out s' q)

  answer-IsKept :
      (out : Text) (b : ℤ) (t : Trace)
      → IsKept out record { console_buf = b; trace = t }
      → (r : ℤ) × (s' : State) × (answer (suc fuel) e b record { console_buf = b; trace = t }
          ≡ some (r, s'))
        × IsKept (out ++ char_of r) s'
  unfolding answer less_one
  answer-IsKept out (pos zero) t (fair, d) =
      let (s', asks, q) =
        ask-IsKept (out ++ []) (negsuc 0) record { console_buf = negsuc 0; trace = t }
          (refl, fair, d) in
      (negsuc 0, s', asks, q)
  answer-IsKept out (pos (suc c)) t (fair, d) =
      let (s', asks, q) =
        ask-IsKept (out ++ (c ∷ [])) (pos c) record { console_buf = negsuc 0; trace = t }
          (refl, fair, d) in
      (pos c, s', asks, q)
  answer-IsKept out (negsuc n) t (fair, d) = (
    negsuc (suc n),
    record { console_buf = negsuc n; trace = t },
    refl,
    (fair, d ∙ sym (append-nil (out ++ []))),
  )

  console_getchar-IsKept :
      (out : Text) (s : State)
      → IsKept out s
      → (r : ℤ) × (s' : State) × (console_getchar (suc fuel) e s ≡ some (r, s'))
        × IsKept (out ++ char_of r) s'
  unfolding console_getchar on_checked
  console_getchar-IsKept out s p =
      let (s1, ends, q, lt) = check-IsKept e host out s p in
      let (r, s2, answers, kept) = answer-IsKept out s1.console_buf s1.trace q in
      (r, s2, rw ends answers, kept)

  console_putchar-IsKept :
      (out : Text) (c : ℕ) (s : State)
      → IsKept out s
      → (s' : State) × (console_putchar (suc fuel) e c s ≡ some s') × IsKept out s'
  unfolding console_putchar
  console_putchar-IsKept out c s p =
      let (s', sets, q) =
        set_tohost-sets e fuel takes (check-IsKept e host out) (read-IsKept e host out) fuel
          (tohost_cmd 1 1 c) s (omega arith) p in
      (_, sets, put-IsKept e host out c s' q)

-- What a program does with the console
pub data Call : Type 0 where
  get_char : Call
  put_char : ℕ → Call

abbrev got_char : Text → Option (ℤ × State) → Option (Text × State)
got_char out none = none
got_char out (some (r, s)) = some (out ++ char_of r, s)

abbrev put_done : Text → Option State → Option (Text × State)
put_done out none = none
put_done out (some s) = some (out, s)

-- The calls of a program, and the characters that it gets
abbrev call : ℕ → Env → Call → Text → State → Option (Text × State)
call fuel e Call.get_char out s = got_char out (console_getchar fuel e s)
call fuel e (Call.put_char c) out s = put_done out (console_putchar fuel e c s)

abbrev then_calls :
    (Text → State → Option (Text × State)) → Option (Text × State) → Option (Text × State)
then_calls next none = none
then_calls next (some (out, s)) = next out s

abbrev pub calls : ℕ → Env → List Call → Text → State → Option (Text × State)
calls fuel e [] out s = some (out, s)
calls fuel e (c ∷ cs) out s = then_calls (calls fuel e cs) (call fuel e c out s)

call-IsKept :
    (e : Env) (fuel : ℕ) (c : Call) (out : Text) (s : State)
    → ((t : Trace) → IsAnswer t (e.fromhost t))
    → ((t : Trace) → fuel ≤ since_write t → e.tohost t ≡ 0)
    → IsKept out s
    → (out' : Text) × (s' : State) × (call (suc fuel) e c out s ≡ some (out', s')) × IsKept out' s'
call-IsKept e fuel Call.get_char out s host takes p =
    let (r, s', gets, q) = console_getchar-IsKept e host fuel takes out s p in
    (out ++ char_of r, s', ap (got_char out) gets, q)
call-IsKept e fuel (Call.put_char c) out s host takes p =
    let (s', puts, q) = console_putchar-IsKept e host fuel takes out c s p in
    (out, s', ap (put_done out) puts, q)

-- If the host takes a command within the time of `fuel` accesses, and sends a character only when one
-- was asked for, every sequence of calls of htif_console_getchar() and htif_console_putchar() comes to
-- an end, and the characters that the program has got are, in their order, those that the host has
-- sent, but for the last if that is still in htif_console_buf.
pub calls-IsKept :
    (e : Env) (fuel : ℕ) (cs : List Call) (out : Text) (s : State)
    → ((t : Trace) → IsAnswer t (e.fromhost t))
    → ((t : Trace) → fuel ≤ since_write t → e.tohost t ≡ 0)
    → IsKept out s
    → (out' : Text) × (s' : State) × (calls (suc fuel) e cs out s ≡ some (out', s'))
      × IsKept out' s'
calls-IsKept e fuel [] out s host takes p = (out, s, refl, p)
calls-IsKept e fuel (c ∷ cs) out s host takes p =
    let (out1, s1, does, q) = call-IsKept e fuel c out s host takes p in
    let (out2, s2, ends, r) = calls-IsKept e fuel cs out1 s1 host takes q in
    (out2, s2, ap (then_calls (calls (suc fuel) e cs)) does ∙ ends, r)
