-- ===== src/Http/World.antt =====
-- What protocols/HTTP keeps: the fields of `struct xHTTP_CLIENT` and of `struct xTCP_SERVER` that
-- an HTTP client uses (protocols/include/FreeRTOS_server_private.h), the static pointer of
-- protocols/HTTP/peekpoke.c, and the memory that a request may read and write. The server's own
-- variables are taken to lie outside of that memory. The network and the C implementation are
-- the parameter `Env`.
use free_rtos_demos_cheri_ri.Prelude.{
  ℕ, zero, suc, ◌+◌, ℤ, Bool, Text, List, [], ◌∷◌, ◌++◌, Option, none, some, drop,
}

pub data Received : Type 0 where
  failed : ℕ → Received  -- the error -(n + 1)
  bytes : Text → Received

pub data Event : Type 0 where
  recv : Event
  -- FreeRTOS_send( socket, buffer, length ), where the buffer holds the given bytes
  send : Text → ℕ → Event

abbrev pub Trace : Type 0
Trace = List Event

pub record Env : Type 0 where
  pub recv : Trace → Received
  pub send : Trace → Text → ℕ → ℤ
  pub pointer_text : ℕ → Text  -- %p
  pub stack_address : Trace → ℕ  -- &stackBuffer
  pub size_bits : ℕ  -- the width of size_t
  pub command_buffer_size : ℕ  -- ipconfigTCP_COMMAND_BUFFER_SIZE
  pub file_buffer_size : ℕ  -- ipconfigTCP_FILE_BUFFER_SIZE
  pub after_commands : Trace → Text  -- the memory behind pcCommandBuffer
  pub after_empty : Trace → Text  -- the memory behind pcEmptyString

pub record State : Type 0 where
  -- the server
  pub command_buffer : Text  -- all bytes of the array
  pub contents_type : Text
  pub extra_contents : Text
  -- the client
  pub url_data : ℕ  -- the offset in the command buffer
  pub rest_data : Option ℕ  -- the offset in the command buffer; `none` is pcEmptyString
  pub current_filename : Text  -- all bytes of the array of ffconfigMAX_FILENAME, the output buffer
  pub reply_sent : Bool
  -- peekpoke.c
  pub number_text : Option Text  -- what the static pointer buf points to; `none` is NULL
  pub memory : ℕ → ℕ
  pub trace : Trace

-- The string that starts here: the bytes in front of the first NUL.
unfoldable pub c_string : Text → Text
c_string [] = []
c_string (zero ∷ s) = []
c_string (suc c ∷ s) = suc c ∷ c_string s

-- The bytes at pcUrlData.
unfoldable pub url_bytes : Env → State → Text
url_bytes e s = drop s.url_data (s.command_buffer ++ e.after_commands s.trace)

rest_bytes_from : Env → State → Option ℕ → Text
rest_bytes_from e s none = 0 ∷ e.after_empty s.trace
rest_bytes_from e s (some r) = drop r (s.command_buffer ++ e.after_commands s.trace)

-- The bytes at pcRestData.
unfoldable pub rest_bytes : Env → State → Text
unfolding rest_bytes_from
rest_bytes e s = rest_bytes_from e s s.rest_data

-- The bytes of memory from an address on.
unfoldable pub read_memory : (ℕ → ℕ) → ℕ → ℕ → Text
read_memory memory address zero = []
read_memory memory address (suc n) = memory address ∷ read_memory memory (address + 1) n
