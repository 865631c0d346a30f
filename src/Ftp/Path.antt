-- ===== src/Ftp/Path.antt =====
-- xMakeAbsolute(), xMakeRelative() and the path arithmetic of prvChangeDir() in
-- protocols/FTP/FreeRTOS_FTP_server.c. The scratch buffers pcNewDir and pcFileBuffer are values here.
use free_rtos_demos_cheri_ri.Prelude.{
  ℕ, Bool, false, ◌&&◌, Text, [], ◌∷◌, ◌++◌, ◌==◌, if◌then◌else◌, length, drop, has_prefix_nocase,
  snprintf, Option, none, some,
}
use free_rtos_demos_cheri_ri.Ftp.World.{Client}

-- ffconfigMAX_FILENAME, the size of pcCurrentDir, pcFileName and pcNewDir
abbrev pub max_filename : ℕ
max_filename = 255

-- sizeof( pcCommandBuffer ) and sizeof( pcFileBuffer )
abbrev pub buffer_size : ℕ
buffer_size = 2048

-- pc[ strlen( pc ) - 1 ] == '/'. On an empty string the source reads the byte before the buffer.
unfoldable pub ends_with_slash : Text → Bool
ends_with_slash [] = false
ends_with_slash (c ∷ []) = c == b'/'
ends_with_slash (c ∷ d ∷ s) = ends_with_slash (d ∷ s)

-- The format "%s%s%s" of a directory, a slash unless it ends in one, and a name.
unfoldable pub join_dir : Text → Text → Text
unfolding ends_with_slash
join_dir dir name = dir ++ (if ends_with_slash dir then name else b'/' ∷ name)

-- pc[ 0 ] == '/'
unfoldable pub starts_with_slash : Text → Bool
starts_with_slash [] = false
starts_with_slash (c ∷ s) = c == b'/'

unfoldable pub skip_slash : Text → Text
skip_slash [] = []
skip_slash (c ∷ s) = if c == b'/' then s else c ∷ s

-- The text that xMakeAbsolute() formats, before it is cut to the buffer.
unfoldable pub absolute_path : Text → Text → Text → Text
unfolding join_dir starts_with_slash skip_slash snprintf has_prefix_nocase
absolute_path root dir name =
    let path = if starts_with_slash name then name else snprintf max_filename (join_dir dir name) in
    if has_prefix_nocase root path then path else root ++ b'/' ∷ skip_slash path

-- What it leaves in a buffer of `size` bytes; its return value is not used by any caller.
unfoldable pub make_absolute : Client → ℕ → Text → Text
unfolding absolute_path snprintf
make_absolute c size name = snprintf size (absolute_path c.root_dir c.current_dir name)

unfoldable pub make_relative : Client → ℕ → Text → Text
unfolding snprintf has_prefix_nocase
make_relative c size name =
    snprintf size
      (if has_prefix_nocase c.root_dir name then drop (length c.root_dir) name else name)

-- The parent of a path, by its last slash: what prvChangeDir() does for "..". `none`: no slash.
unfoldable pub before_last_slash : Text → Option Text
before_last_slash [] = none
before_last_slash (c ∷ s) = elim (before_last_slash s) [
  | some p ↦ some (c ∷ p)
  | none ↦ if c == b'/' then some [] else none
]

parent_of : Text → Option Text → Text
parent_of path none = path
parent_of path (some []) = b'/' ∷ []
parent_of path (some (c ∷ p)) = c ∷ p

unfoldable pub parent_dir : Text → Text
unfolding before_last_slash parent_of
parent_dir path = parent_of path (before_last_slash path)

pub data DotDir : Type 0 where
  no_dot dot dot_dot : DotDir

-- xIsDotDir
unfoldable pub dot_dir : Text → DotDir
dot_dir (c ∷ []) = if c == b'.' then dot else no_dot
dot_dir (c ∷ d ∷ []) = if (c == b'.') && (d == b'.') then dot_dot else no_dot
dot_dir _ = no_dot

-- What prvChangeDir() puts into pcFileBuffer.
unfoldable pub change_target : Text → Text → Text
unfolding parent_dir dot_dir join_dir starts_with_slash snprintf
change_target cur name = elim (dot_dir name) [
  | dot ↦ cur
  | dot_dot ↦ parent_dir cur
  | no_dot ↦ snprintf buffer_size (if starts_with_slash name then name else join_dir cur name)
]
