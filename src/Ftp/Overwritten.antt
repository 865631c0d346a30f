-- ===== src/Ftp/Overwritten.antt =====
-- The acknowledgement that prvTransferCheck() prints into the buffer where the parameter of a command
-- stands, in protocols/FTP/FreeRTOS_FTP_server.c.
use free_rtos_demos_cheri_ri.Prelude.{
  ℕ, true, some, snprintf, zero, suc, ◌+◌, ◌≤◌, ◌<◌, ◌≡◌, ◌≢◌, refl, ap, ◌∙◌, Text, [], ◌∷◌, ◌++◌,
  ltb, if◌then◌else◌, arith, length, drop, Bool-cases, inl, inr,
}
use free_rtos_demos_cheri_ri.Ftp.World.{Client, Env, State, Trace, Socket, ◌>>◌}
use free_rtos_demos_cheri_ri.Ftp.Path.{buffer_size}
use free_rtos_demos_cheri_ri.Ftp.Transfer.Connection.{print_over, format_ack}
use free_rtos_demos_cheri_ri.Ftp.Process.Dispatch.{until_nul, rest_text}

unfoldable pub HasNoNul : Text → Type 0
HasNoNul [] = Unit {0}
HasNoNul (c ∷ s) = (c ≢ 0) × HasNoNul s

until_nul-printed : (s rest : Text) → HasNoNul s → until_nul (s ++ 0 ∷ rest) ≡ s
unfolding until_nul HasNoNul
until_nul-printed [] rest h = refl
until_nul-printed (c ∷ s) rest h = ground (arith, until_nul-printed s rest h.1)

drop-nil : (k : ℕ) → drop {A = ℕ} k [] ≡ []
drop-nil zero = refl
drop-nil (suc k) = refl

drop-after :
    (k : ℕ) (text buffer : Text)
    → length text < k
    → drop k (text ++ 0 ∷ drop (suc (length text)) buffer) ≡ drop k buffer
drop-after zero text buffer h = elim h [ ]
drop-after (suc k) [] [] h = drop-nil k
drop-after (suc k) [] (x ∷ b) h = refl
drop-after (suc k) (c ∷ s) [] h = drop-after k s [] (omega arith) ∙ drop-nil k
drop-after (suc k) (c ∷ s) (x ∷ b) h = drop-after k s b (omega arith)

-- Behind the printed text and its NUL the buffer is as it was.
drop-behind :
    (k : ℕ) (text buffer : Text)
    → length text < k
    → drop k (text ++ 0 ∷ drop (length text + 1) buffer) ≡ drop k buffer
drop-behind k text buffer h =
    let e : length text + 1 ≡ suc (length text) = omega arith in rw e (drop-after k text buffer h)

drop-inside :
    (k : ℕ) (text rest : Text) → k ≤ length text → drop k (text ++ rest) ≡ drop k text ++ rest
drop-inside zero text rest h = refl
drop-inside (suc k) [] rest h = absurd (omega arith)
drop-inside (suc k) (c ∷ s) rest h = drop-inside k s rest (omega arith)

drop-HasNoNul : (k : ℕ) (s : Text) → HasNoNul s → HasNoNul (drop k s)
unfolding HasNoNul
drop-HasNoNul zero s h = h
drop-HasNoNul (suc k) [] h = h
drop-HasNoNul (suc k) (c ∷ s) h = drop-HasNoNul k s h.1

-- When a text without NUL is printed into the buffer, the parameter of the command stays if it starts
-- behind the text and its NUL; otherwise it is what the text has from there on.
pub rest_text-printed :
    (c : Client) (text : Text)
    → HasNoNul text
    → rest_text record c { command_buffer = print_over text c.command_buffer }
      ≡ (if ltb (length text) c.rest_command then rest_text c else drop c.rest_command text)
unfolding rest_text print_over
rest_text-printed c text h = elim (Bool-cases (ltb (length text) c.rest_command)) [
  | inl behind ↦
      rw behind (ap until_nul (drop-behind c.rest_command text c.command_buffer (ground arith)))
  | inr inside ↦ rw inside (
      ap until_nul (drop-inside c.rest_command text _ (ground arith))
      ∙ until_nul-printed (drop c.rest_command text) _ (drop-HasNoNul c.rest_command text h))
]

-- The acknowledgement of a data connection as it is printed
abbrev pub acknowledgement : Env → Trace → Client → Socket → Text
acknowledgement e t c socket =
    snprintf buffer_size (format_ack 0 c.connection_ack c.client_ip (e.remote_port t socket))

-- A client with a data connection
abbrev pub attached : Client → Trace → ℕ → State
attached c t k = record {
  client = record c { transfer_socket = some k; client_connected = true };
  trace = t;
}

-- The name behind a command, once the acknowledgement is printed
abbrev pub name_left : Env → Trace → Client → ℕ → Text
name_left e t c k =
    if ltb (length (acknowledgement e t c (some k))) c.rest_command
    then rest_text c
    else drop c.rest_command (acknowledgement e t c (some k))
