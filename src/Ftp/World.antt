-- ===== src/Ftp/World.antt =====
-- The client record `struct xFTP_CLIENT` of protocols/include/FreeRTOS_server_private.h, the calls
-- that the FTP server makes to FreeRTOS+TCP, FreeRTOS+FAT and the kernel as events of a trace, and
-- those libraries as a parameter: `Env` says what each call answers after the calls made so far.
use free_rtos_demos_cheri_ri.Prelude.{ℕ, ℤ, Bool, Option, List, ◌∷◌, Text, true, false}

-- A socket or a file handle; `none` is FREERTOS_NO_SOCKET, or NULL.
abbrev pub Socket : Type 0
Socket = Option ℕ

abbrev pub Handle : Type 0
Handle = Option ℕ

-- What FreeRTOS_socket() and FreeRTOS_accept() return.
pub data SocketResult : Type 0 where
  no_socket invalid_socket : SocketResult
  socket : ℕ → SocketResult

pub data OpenMode : Type 0 where
  rb wb ab : OpenMode

-- What stdioGET_ERRNO() returns; `success` is 0.
pub data Errno : Type 0 where
  success enoent ealready eisdir erofs enotdir eexist enotempty enospc eio enxio enmfile : Errno
  other : ℕ → Errno

-- The masks of FreeRTOS_FD_SET and FreeRTOS_FD_CLR that the server uses.
pub data Mask : Type 0 where
  select_write select_all select_read_except select_write_except : Mask
  select_read_write_except : Mask

pub data SocketOption : Type 0 where
  rcv_timeout snd_timeout reuse_listen_socket close_after_send : SocketOption

-- The calls that change something outside of the client.
pub data Event : Type 0 where
  -- the network
  new_socket : SocketResult → Event
  bind listen connect accept : Socket → Event
  set_option : Socket → SocketOption → Event
  fd_set fd_clr : Socket → Mask → Event
  close_socket shutdown : Socket → Event
  select : Event
  -- FreeRTOS_send( socket, buffer, length ), where the buffer holds the given string
  send : Socket → Text → ℕ → Event
  recv : Socket → Event
  -- the second, consuming call of the zero-copy method
  recv_done : Socket → ℕ → Event
  -- the file system; ff_fopen with what it returned
  fopen : Text → OpenMode → Handle → Event
  fclose : Handle → Event
  fseek : Handle → ℕ → Event
  fread : Handle → ℕ → Event
  fwrite : Handle → Text → Event
  remove mkdir rmdir : Text → Event
  rename : Text → Text → Event
  finddir findfirst stat : Text → Event
  findnext : Event

-- The newest event first.
abbrev pub Trace : Type 0
Trace = List Event

-- FF_DirEnt_t, as far as it is read
pub record DirEntry : Type 0 where
  pub is_dir : Bool
  pub read_only : Bool
  pub month : ℕ
  pub day : ℕ
  pub hour : ℕ
  pub minute : ℕ
  pub file_size : ℕ
  pub file_name : Text

-- FF_Stat_t, with the time broken down by FreeRTOS_gmtime_r()
pub record Stat : Type 0 where
  pub rc : ℤ
  pub size : ℕ
  pub year : ℕ
  pub month : ℕ
  pub day : ℕ
  pub hour : ℕ
  pub minute : ℕ
  pub second : ℕ

-- One pass of zero-copy reads: what the successive calls of FreeRTOS_recv() deliver, and the first
-- result that is not positive.
pub record Burst : Type 0 where
  pub chunks : List Text
  pub last : ℤ

pub data Received : Type 0 where
  failed : ℕ → Received  -- the error -(n + 1)
  bytes : Text → Received  -- 0 is the empty text

pub record Env : Type 0 where
  pub new_socket : Trace → SocketResult
  pub accept : Trace → Socket → SocketResult
  pub listen : Trace → Socket → ℤ
  pub connect : Trace → Socket → ℤ
  pub rx_size : Trace → Socket → ℤ
  pub is_connected : Trace → Socket → ℤ
  pub tx_space : Trace → Socket → ℕ
  pub local_ip : Trace → Socket → ℕ
  pub local_port : Trace → Socket → ℕ
  pub remote_ip : Trace → Socket → ℕ
  pub remote_port : Trace → Socket → ℕ
  pub send : Trace → Socket → Text → ℕ → ℤ
  pub shutdown : Trace → Socket → ℤ
  pub select : Trace → ℤ
  pub recv : Trace → Socket → Received
  pub rx_burst : Trace → Socket → Burst
  pub fopen : Trace → Text → OpenMode → Handle
  pub open_size : Trace → ℕ → ℕ
  pub fseek : Trace → ℕ → ℕ → ℤ
  pub fread : Trace → Handle → ℕ → Text
  pub fwrite : Trace → Handle → Text → ℤ
  pub remove : Trace → Text → ℤ
  pub mkdir : Trace → Text → ℤ
  pub rmdir : Trace → Text → ℤ
  pub rename : Trace → Text → Text → ℤ
  pub finddir : Trace → Text → Bool
  pub fs_count : Trace → ℕ
  pub findfirst : Trace → Text → ℤ
  pub findnext : Trace → ℤ
  pub found : Trace → DirEntry
  pub disk_total : Trace → ℕ
  pub disk_free : Trace → ℕ
  pub stat : Trace → Text → Stat
  pub errno : Trace → Errno
  pub strerror : Errno → Text
  pub tick_count : Trace → ℕ
  pub malloc : Trace → Bool  -- whether pvPortMallocLarge() succeeds

pub record Client : Type 0 where
  pub root_dir : Text
  pub socket : Socket
  pub restart_offset : ℕ  -- uint32_t
  pub recv_bytes : ℕ  -- uint32_t
  pub bytes_left : ℕ
  pub client_ip : ℕ
  pub start_time : ℕ
  pub client_port : ℕ
  pub transfer_socket : Socket
  pub trans_type : ℕ
  pub dir_count : ℕ
  pub find_data : Option DirEntry
  pub read_handle : Handle
  pub write_handle : Handle
  pub current_dir : Text
  pub file_name : Text
  pub connection_ack : Text
  pub client_ack : Text
  -- pcCommandBuffer of the server, from the line that was received on, and pcRestCommand of
  -- xFTPClientWork() as an offset in it
  pub command_buffer : Text
  pub rest_command : ℕ
  -- bits
  pub hello_sent : Bool
  pub logged_in : Bool
  pub status_user : Bool
  pub in_rename : Bool
  pub read_only : Bool
  -- bits1
  pub is_listen : Bool
  pub dir_has_entry : Bool
  pub client_connected : Bool
  pub empty_file : Bool
  pub had_error : Bool

pub record State : Type 0 where
  pub client : Client
  pub trace : Trace

-- A function of the server reads the libraries and changes the client and the trace.
abbrev pub M : Type 0 → Type 0
M A = Env → State → A × State

infixl 5 ◌>>=◌ ◌>>◌
unfoldable pub ◌>>=◌ : {A B : Type 0} → M A → (A → M B) → M B
◌>>=◌ m f e s = let r = m e s in f r.0 e r.1

unfoldable pub ◌>>◌ : {A B : Type 0} → M A → M B → M B
◌>>◌ m k e s = k e (m e s).1

unfoldable pub pure : {A : Type 0} → A → M A
pure a e s = (a, s)

-- `if` between two calls.
infix 1 branch◌then◌else◌
unfoldable pub branch◌then◌else◌ : {A : Type 0} → Bool → M A → M A → M A
branch true then m else n = m
branch false then m else n = n

-- Read a field of the client, or a value that the libraries answer now.
unfoldable pub gets : {A : Type 0} → (Client → A) → M A
gets f e s = (f s.client, s)

unfoldable pub asks : {A : Type 0} → (Env → Trace → A) → M A
asks f e s = (f e s.trace, s)

unfoldable pub modify : (Client → Client) → M (Unit {0})
modify f e s = (tt, record s { client = f s.client })

unfoldable pub when : Bool → M (Unit {0}) → M (Unit {0})
unfolding pure branch◌then◌else◌
when b m = branch b then m else pure tt

unfoldable pub emit : Event → M (Unit {0})
emit ev e s = (tt, record s { trace = ev ∷ s.trace })

-- The combinators, for a proof that computes with all of them.
unfoldable pub monad : Unit {0}
unfolding ◌>>=◌ ◌>>◌ pure gets asks modify emit when branch◌then◌else◌
monad = tt
