-- ===== src/Ftp/Dirs.antt =====
-- prvChangeDir(), prvRenameFrom(), prvRenameTo(), prvSiteCmd(), prvDeleteFile(), prvSizeDateFile() and
-- prvMakeRemoveDir() in protocols/FTP/FreeRTOS_FTP_server.c, with ffconfigTIME_SUPPORT on.
use free_rtos_demos_cheri_ri.Prelude.{
  ℕ, ℤ, is_neg, is_zero, Bool, true, false, not, ◌&&◌, ◌||◌, Text, codes, [], ◌∷◌, ◌++◌, ◌==◌,
  if◌then◌else◌, none, some, is_some, same_text, snprintf, dec, dec_padded,
}
use free_rtos_demos_cheri_ri.Ftp.Commands.{crlf, repl_450, repl_451, repl_553}
use free_rtos_demos_cheri_ri.Ftp.World.{
  Handle, Errno, success, enoent, ealready, eisdir, erofs, enotdir, eexist, enotempty, enospc, eio,
  enxio, rb, Event, Stat, Env, M, ◌>>=◌, ◌>>◌, branch◌then◌else◌, pure, gets, asks, modify, emit,
  when,
}
use free_rtos_demos_cheri_ri.Ftp.Path.{
  max_filename, buffer_size, make_absolute, change_target, ends_with_slash, before_last_slash,
}
use free_rtos_demos_cheri_ri.Ftp.Transfer.{send_reply, send_formatted}
use free_rtos_demos_cheri_ri.Ftp.Files.{open_file}

-- A reply that stands in the command buffer, or one of the constant texts, with the length 0.
unfoldable pub reply_text : Text → M (Unit {0})
reply_text text = do socket ← gets (λ c. c.socket); send_reply socket text 0; pure tt

is_root : Text → Bool
unfolding same_text
is_root path = same_text path (b'/' ∷ [])

unfoldable pub no_such_dir : Text → Text
unfolding codes crlf
no_such_dir path = codes "550 " ++ path ++ codes ": No such file or directory" ++ crlf

unfoldable pub changed_to : Text → Text
unfolding codes crlf
changed_to path = codes "250 Changed to " ++ path ++ crlf

unfoldable pub change_dir : Text → M Bool
unfolding is_root
change_dir name = do
  target ← gets (λ c. change_target c.current_dir name)
  path ← gets (λ c. make_absolute c max_filename target)
  look ← asks (λ e t. not (is_root target) || (e.fs_count t == 0))
  there ← asks (λ e t. e.finddir t path)
  when look (emit (Event.finddir path))
  branch look && not there then (do send_formatted (no_such_dir path); pure false) else (do
    modify (λ c. record c { current_dir = path })
    send_formatted (changed_to path)
    pure true)

quoted : Text → Text → Text
unfolding codes crlf
quoted head path = head ++ 39 ∷ path ++ 39 ∷ []

rename_file : Text → Text
unfolding codes crlf quoted
rename_file path = quoted (codes "350 Rename ") path ++ codes " ..." ++ crlf

rename_directory : Text → Text
unfolding codes crlf quoted
rename_directory path = quoted (codes "350 Rename directory ") path ++ codes " ..." ++ crlf

is_eisdir : Errno → Bool
is_eisdir eisdir = true
is_eisdir _ = false

-- What prvRenameFrom() does with the handle of the source: closed again at once.
unfoldable pub rename_source : Handle → M (Unit {0})
unfolding rename_file rename_directory is_eisdir
rename_source (some h) = do
  emit (Event.fclose (some h))
  path ← gets (λ c. c.file_name)
  modify (λ c. record c { in_rename = true })
  reply_text (snprintf buffer_size (rename_file path))
rename_source none = do
  directory ← asks (λ e t. is_eisdir (e.errno t))
  path ← gets (λ c. c.file_name)
  branch directory
      then (do
        modify (λ c. record c { in_rename = true })
        reply_text (snprintf buffer_size (rename_directory path)))
      else reply_text repl_451

unfoldable pub rename_from : Text → M (Unit {0})
rename_from name = do
  modify (λ c. record c { file_name = make_absolute c max_filename name })
  handle ← open_file rb
  rename_source handle

-- The replies of prvRenameTo(); `success` is also the outcome of a rename that succeeds.
rename_reply : Errno → Text → Text → Text
unfolding codes crlf quoted repl_553 repl_451 snprintf
rename_reply success from to =
    snprintf buffer_size (quoted (codes "250 Rename successful to ") to ++ crlf)
rename_reply eexist from to = snprintf buffer_size (quoted (codes "450 Already exists ") to ++ crlf)
rename_reply eio from to = repl_553
rename_reply enxio from to = snprintf buffer_size (quoted (codes "450 No such file ") from ++ crlf)
rename_reply enoent from to = snprintf buffer_size (quoted (codes "450 No such file ") from ++ crlf)
rename_reply _ from to = repl_451

unfoldable pub rename_to : Text → M (Unit {0})
unfolding rename_reply
rename_to name = do
  to ← gets (λ c. make_absolute c max_filename name)
  from ← gets (λ c. c.file_name)
  rc ← asks (λ e t. e.rename t from to)
  emit (Event.rename from to)
  why ← asks (λ e t. if is_neg rc then e.errno t else success)
  reply_text (rename_reply why from to)

-- prvSiteCmd() does nothing, and says so.
unfoldable pub site_cmd : Text → Bool
site_cmd name = false

delete_error : Errno → Text
unfolding codes
delete_error enoent = codes "No such file"
delete_error ealready = codes "File still open"
delete_error eisdir = codes "Is a dir"
delete_error erofs = codes "Read-only"
delete_error enotdir = codes "Invalid path"
delete_error _ = codes "other error"

delete_reply : ℤ → Errno → Text → Text
unfolding codes crlf delete_error
delete_reply rc why path =
    if is_neg rc
    then codes "521-"
      ++ 34 ∷ path
      ++ 34 ∷ 32 ∷ delete_error why
      ++ b';' ∷ crlf
      ++ codes "521 taking no action"
      ++ crlf
    else codes "250 File " ++ 34 ∷ path ++ 34 ∷ codes " removed" ++ crlf

unfoldable pub delete_file : Text → M Bool
unfolding delete_reply
delete_file name = do
  modify (λ c. record c { file_name = make_absolute c max_filename name })
  path ← gets (λ c. c.file_name)
  rc ← asks (λ e t. e.remove t path)
  emit (Event.remove path)
  why ← asks (λ e t. e.errno t)
  send_formatted (delete_reply rc why path)
  pure (not (is_neg rc))

-- strrchr( path, '/' ) is there, and is not the last character.
has_file_part : Text → Bool
unfolding before_last_slash ends_with_slash
has_file_part path = is_some (before_last_slash path) && not (ends_with_slash path)

date_reply : Stat → Text
unfolding codes crlf dec_padded
date_reply st =
    codes "213 "
    ++ dec_padded 4 st.year
    ++ dec_padded 2 st.month
    ++ dec_padded 2 st.day
    ++ dec_padded 2 st.hour
    ++ dec_padded 2 st.minute
    ++ dec_padded 2 st.second
    ++ crlf

unfoldable pub size_reply : ℕ → Text
unfolding codes crlf dec
size_reply n = codes "213 " ++ dec n ++ crlf

unfoldable pub size_date_file : Text → Bool → M Bool
unfolding has_file_part date_reply size_reply
size_date_file name send_date = do
  modify (λ c. record c { file_name = make_absolute c max_filename name })
  path ← gets (λ c. c.file_name)
  st ← asks (λ e t. e.stat t path)
  when (has_file_part path) (emit (Event.stat path))
  branch has_file_part path && is_zero st.rc
      then (do send_formatted (if send_date then date_reply st else size_reply st.size); pure true)
      else (do reply_text repl_450; pure false)

dir_error : Env → Errno → Text
unfolding codes
dir_error e eexist = codes "Directory already exists"
dir_error e enotdir = codes "Invalid path"
dir_error e enotempty = codes "Dir not empty"
dir_error e erofs = codes "Read-only"
dir_error e why = e.strerror why

dir_code : Errno → ℕ
dir_code enospc = 552
dir_code _ = 521

dir_reply : Env → Bool → ℤ → Errno → Text → Text
unfolding codes crlf dec dir_error dir_code
dir_reply e do_remove rc why path =
    if is_neg rc
    then dec (dir_code why)
      ++ b'-' ∷ 34 ∷ path
      ++ 34 ∷ 32 ∷ dir_error e why
      ++ b';' ∷ crlf
      ++ dec (dir_code why)
      ++ codes " taking no action"
      ++ crlf
    else codes "257 "
      ++ 34 ∷ path
      ++ 34 ∷ codes " directory "
      ++ (if do_remove then codes "removed" else codes "created")
      ++ crlf

unfoldable pub make_remove_dir : Text → Bool → M Bool
unfolding dir_reply
make_remove_dir name do_remove = do
  modify (λ c. record c { file_name = make_absolute c max_filename name })
  path ← gets (λ c. c.file_name)
  rc ← asks (λ e t. if do_remove then e.rmdir t path else e.mkdir t path)
  branch do_remove then emit (Event.rmdir path) else emit (Event.mkdir path)
  reply ← asks (λ e t. dir_reply e do_remove rc (e.errno t) path)
  send_formatted reply
  pure (not (is_neg rc))
