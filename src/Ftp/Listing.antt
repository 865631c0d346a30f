-- ===== src/Ftp/Listing.antt =====
-- prvListSendPrep(), prvListSendWork(), pcMonthAbbrev() and prvGetFileInfoStat() in
-- protocols/FTP/FreeRTOS_FTP_server.c.
use free_rtos_demos_cheri_ri.Prelude.{
  ℕ, zero, suc, ◌+◌, ◌-◌, ◌*◌, ◌/◌, ◌%◌, ◌^◌, min, ℤ, pos, is_neg, Bool, true, false, not, ◌&&◌,
  ◌||◌, Text, codes, [], ◌∷◌, ◌++◌, ◌==◌, ltb, leb, if◌then◌else◌, Option, none, some, length, take,
  drop, snprintf, dec, dec_padded,
}
use free_rtos_demos_cheri_ri.Ftp.Commands.{crlf, repl_451}
use free_rtos_demos_cheri_ri.Ftp.World.{
  DirEntry, Errno, enmfile, Event, close_after_send, M, ◌>>=◌, ◌>>◌, branch◌then◌else◌, pure, gets,
  asks, modify, emit, when,
}
use free_rtos_demos_cheri_ri.Ftp.Path.{max_filename, buffer_size, make_absolute}
use free_rtos_demos_cheri_ri.Ftp.Transfer.{ack_size, send_reply, send_formatted, dec_i32}
use free_rtos_demos_cheri_ri.Ftp.Transfer.Connection.{transfer_start}
use free_rtos_demos_cheri_ri.Ftp.Files.{accepted_format}

-- MAX_DIR_LIST_ENTRY_SIZE
abbrev pub max_entry_size : ℕ
max_entry_size = 256

unfoldable pub month_abbrev : ℕ → Text
unfolding codes
month_abbrev month =
    let m = if ltb month 1 || ltb 12 month then 12 else month in
    take 3 (drop (3 * (m - 1)) (codes "JanFebMarAprMayJunJulAugSepOctNovDec"))

-- Blanks up to a width, as in %12s
unfoldable pub pad_left : ℕ → Text → Text
pad_left zero s = s
pad_left (suc k) s = 32 ∷ pad_left k s

mode_text : DirEntry → Text
mode_text entry =
    let w = if entry.read_only then b'-' else b'w' in
    (if entry.is_dir then b'd' else b'-')
    ∷ b'r'
    ∷ w
    ∷ b'-'
    ∷ b'r'
    ∷ w
    ∷ b'-'
    ∷ b'r'
    ∷ b'-'
    ∷ b'-'
    ∷ []

date_text : DirEntry → Text
unfolding codes dec_padded month_abbrev
date_text entry =
    if ltb 0 entry.month && ltb 0 entry.day
    then month_abbrev entry.month
      ++ 32 ∷ dec_padded 2 entry.day
      ++ 32 ∷ dec_padded 2 entry.hour
      ++ b':' ∷ dec_padded 2 entry.minute
    else codes "Jan 01 1970"

-- The line of a directory entry, "%s %3ld %-4s %-4s %8d %12s %s\r\n".
unfoldable pub entry_line : DirEntry → Text
unfolding codes crlf mode_text date_text pad_left dec_i32 snprintf
entry_line entry =
    let size = dec_i32 (entry.file_size % 2 ^ 32) in
    let date = snprintf 16 (date_text entry) in
    mode_text entry
    ++ codes "   1 freertos plusfat "
    ++ pad_left (8 - length size) size
    ++ 32 ∷ pad_left (12 - length date) date
    ++ 32 ∷ entry.file_name
    ++ crlf

unfoldable pub opening_list : Text
unfolding codes crlf
opening_list = codes "150 Opening ASCII mode data connection to for /bin/ls " ++ crlf

unfoldable pub is_end_of_dir : Errno → Bool
is_end_of_dir enmfile = true
is_end_of_dir _ = false

unfoldable pub announce_list : M (Unit {0})
unfolding opening_list accepted_format
announce_list = do
  listening ← gets (λ c. c.is_listen)
  branch listening
      then modify (λ c. record c { connection_ack = snprintf ack_size accepted_format })
      else (do
        send_formatted opening_list
        modify (λ c. record c { connection_ack = [] })
        transfer_start
        pure tt)

unfoldable pub total_zero : Text
unfolding codes crlf
total_zero = codes "total 0" ++ crlf

unfoldable pub list_send_prep : M ℕ
unfolding is_end_of_dir total_zero
list_send_prep = do
  announce_list
  modify (λ c. record c { dir_count = 0 })
  path ← gets (λ c. make_absolute c max_filename c.current_dir)
  rc ← asks (λ e t. e.findfirst t path)
  emit (Event.findfirst path)
  entry ← asks (λ e t. e.found t)
  modify (λ c. record c { dir_has_entry = not (is_neg rc); find_data = some entry })
  at_end ← asks (λ e t. is_end_of_dir (e.errno t))
  transfer ← gets (λ c. c.transfer_socket)
  control ← gets (λ c. c.socket)
  when (is_neg rc) (
      branch at_end
      then (do
        send_reply transfer total_zero 0
        modify (λ c. record c { dir_count = c.dir_count + 1 }))
      else (do send_reply control repl_451 0; pure tt))
  modify (λ c. record c { client_ack = [] })
  gets (λ c. c.dir_count)

unfoldable pub entry_text : Option DirEntry → Text
entry_text none = []
entry_text (some entry) = entry_line entry

-- The inner loop of prvListSendWork(): entries while there is one and a line is sure to fit. The
-- lines written so far go before those of the rest. Fuel: the space falls with each line.
unfoldable pub list_entries : ℕ → ℕ → M Text
unfolding entry_text
list_entries zero space = pure []
list_entries (suc fuel) space = do
  more ← gets (λ c. c.dir_has_entry)
  entry ← gets (λ c. c.find_data)
  let line = entry_text entry
  let go_on = (do
    modify (λ c. record c { dir_count = c.dir_count + 1 })
    rc ← asks (λ e t. e.findnext t)
    emit Event.findnext
    next ← asks (λ e t. e.found t)
    modify (λ c. record c { dir_has_entry = not (is_neg rc); find_data = some next })
    rest ← list_entries fuel (space - length line)
    pure (snprintf space line ++ rest))
  branch leb max_entry_size space && more then go_on else pure []

matches_ack : ℕ → ℕ → ℕ → Text
unfolding codes dec crlf
matches_ack count total free =
    codes "226-Options: -l"
    ++ crlf
    ++ codes "226-"
    ++ dec count
    ++ codes " matches total"
    ++ crlf
    ++ codes "226 Total "
    ++ dec (total / 1024)
    ++ codes " KB ("
    ++ dec ((100 * free + total / 2) / total % 2 ^ 32)
    ++ codes " % free)"
    ++ crlf

-- One round of the outer loop, after the lines have been put into the command buffer: true to go on.
unfoldable pub finish_round : Text → M Bool
unfolding matches_ack
finish_round lines = do
  more ← gets (λ c. c.dir_has_entry)
  count ← gets (λ c. c.dir_count)
  total ← asks (λ e t. e.disk_total t)
  free ← asks (λ e t. e.disk_free t)
  transfer ← gets (λ c. c.transfer_socket)
  control ← gets (λ c. c.socket)
  when (not more) (do
    modify (λ c. record c { client_ack = snprintf ack_size (matches_ack count total free) })
    emit (Event.set_option transfer close_after_send))
  send_reply transfer lines (length lines)
  ack ← gets (λ c. c.client_ack)
  when (not more) (do send_reply control ack 0; pure tt)
  pure more

unfoldable pub list_round : M Bool
list_round = do
  transfer ← gets (λ c. c.transfer_socket)
  space ← asks (λ e t. min buffer_size (e.tx_space t transfer))
  lines ← list_entries buffer_size space
  branch length lines == 0 then pure false else finish_round lines

-- The body of the outer loop; `rest` is its next round.
unfoldable pub list_step : M ℤ → M ℤ
list_step rest = do
  connected ← gets (λ c. c.client_connected)
  branch connected
      then (do more ← list_round; branch more then rest else pure (pos 0))
      else pure (pos 0)

-- The outer loop, on fuel: a run of it sends at most `fuel` blocks, and the next call goes on.
unfoldable pub list_loop : ℕ → M ℤ
unfolding list_step
list_loop zero = pure (pos 0)
list_loop (suc fuel) = let rest = list_loop fuel in list_step rest

-- A FAT directory has at most 65536 entries, and each block that is sent holds at least one.
abbrev pub max_dir_entries : ℕ
max_dir_entries = 65536

unfoldable pub list_send_work : M ℤ
list_send_work = list_loop max_dir_entries
