-- ===== src/Ftp/Commands.antt =====
-- protocols/FTP/FreeRTOS_FTP_commands.c and protocols/include/FreeRTOS_FTP_commands.h: the commands
-- in the order of the table `xFTPCommands`, with its columns as functions, and the reply texts that
-- the server sends.
use free_rtos_demos_cheri_ri.Prelude.{Bool, true, false, Text, codes, List, [], ◌∷◌, ◌++◌}

pub data Command : Type 0 where
  user pass acct cwd cdup smnt quit rein port pasv type_ stru mode : Command
  retr stor stou appe allo rest rnfr rnto abor size mdtm dele rmd mkd pwd : Command
  list nlst site syst feat stat help noop empt clos unknown : Command

-- pcCommandName; xCommandLength is its length
unfoldable pub command_name : Command → Text
unfolding codes
command_name user = codes "USER"
command_name pass = codes "PASS"
command_name acct = codes "ACCT"
command_name cwd = codes "CWD"
command_name cdup = codes "CDUP"
command_name smnt = codes "SMNT"
command_name quit = codes "QUIT"
command_name rein = codes "REIN"
command_name port = codes "PORT"
command_name pasv = codes "PASV"
command_name type_ = codes "TYPE"
command_name stru = codes "STRU"
command_name mode = codes "MODE"
command_name retr = codes "RETR"
command_name stor = codes "STOR"
command_name stou = codes "STOU"
command_name appe = codes "APPE"
command_name allo = codes "ALLO"
command_name rest = codes "REST"
command_name rnfr = codes "RNFR"
command_name rnto = codes "RNTO"
command_name abor = codes "ABOR"
command_name size = codes "SIZE"
command_name mdtm = codes "MDTM"
command_name dele = codes "DELE"
command_name rmd = codes "RMD"
command_name mkd = codes "MKD"
command_name pwd = codes "PWD"
command_name list = codes "LIST"
command_name nlst = codes "NLST"
command_name site = codes "SITE"
command_name syst = codes "SYST"
command_name feat = codes "FEAT"
command_name stat = codes "STAT"
command_name help = codes "HELP"
command_name noop = codes "NOOP"
command_name empt = codes "EMPT"
command_name clos = codes "CLOS"
command_name unknown = codes "UNKN"

-- checkLogin
unfoldable pub check_login : Command → Bool
check_login user = false
check_login pass = false
check_login syst = false
check_login feat = false
check_login help = false
check_login noop = false
check_login empt = false
check_login unknown = false
check_login _ = true

-- checkNullArg
unfoldable pub check_null_arg : Command → Bool
check_null_arg cwd = true
check_null_arg retr = true
check_null_arg stor = true
check_null_arg rnfr = true
check_null_arg rnto = true
check_null_arg size = true
check_null_arg mdtm = true
check_null_arg dele = true
check_null_arg rmd = true
check_null_arg mkd = true
check_null_arg _ = false

-- The table without its last entry, in the order in which it is searched.
unfoldable pub all_commands : List Command
all_commands =
    user ∷ pass ∷ acct ∷ cwd ∷ cdup ∷ smnt ∷ quit ∷ rein ∷ port ∷ pasv ∷ type_ ∷ stru ∷ mode ∷ retr
    ∷ stor ∷ stou ∷ appe ∷ allo ∷ rest ∷ rnfr ∷ rnto ∷ abor ∷ size ∷ mdtm ∷ dele ∷ rmd ∷ mkd ∷ pwd
    ∷ list ∷ nlst ∷ site ∷ syst ∷ feat ∷ stat ∷ help ∷ noop ∷ empt ∷ clos ∷ []

-- The REPL_ texts.
unfoldable pub crlf : Text
crlf = 13 ∷ 10 ∷ []

unfoldable pub repl_200 : Text
unfolding codes crlf
repl_200 = codes "200 NOOP command successful." ++ crlf

unfoldable pub repl_200_progress : Text
unfolding codes crlf
repl_200_progress = codes "200 NOOP: data transfer in progress." ++ crlf

unfoldable pub repl_202 : Text
unfolding codes crlf
repl_202 = codes "202 Command not implemented, superfluous at this site." ++ crlf

unfoldable pub repl_221 : Text
unfolding codes crlf
repl_221 = codes "221 Service closing control connection." ++ crlf

unfoldable pub repl_226 : Text
unfolding codes crlf
repl_226 = codes "226 Closing data connection." ++ crlf

unfoldable pub repl_331_anon : Text
unfolding codes crlf
repl_331_anon = codes "331 Anonymous login okay" ++ crlf

unfoldable pub repl_425 : Text
unfolding codes crlf
repl_425 = codes "425 Can't open data connection." ++ crlf

unfoldable pub repl_450 : Text
unfolding codes crlf
repl_450 = codes "450 Requested file action not taken." ++ crlf

unfoldable pub repl_451 : Text
unfolding codes crlf
repl_451 = codes "451 Requested action aborted. Local error in processing." ++ crlf

unfoldable pub repl_500 : Text
unfolding codes crlf
repl_500 = codes "500 Syntax error, command unrecognized." ++ crlf

unfoldable pub repl_501 : Text
unfolding codes crlf
repl_501 = codes "501 Syntax error in parameters or arguments." ++ crlf

unfoldable pub repl_502 : Text
unfolding codes crlf
repl_502 = codes "502 Command not implemented." ++ crlf

unfoldable pub repl_503 : Text
unfolding codes crlf
repl_503 = codes "503 Bad sequence of commands." ++ crlf

unfoldable pub repl_530 : Text
unfolding codes crlf
repl_530 = codes "530 Not logged in." ++ crlf

unfoldable pub repl_552 : Text
unfolding codes crlf
repl_552 = codes "552 Requested file action aborted." ++ crlf

unfoldable pub repl_553 : Text
unfolding codes crlf
repl_553 = codes "553 Requested action not taken." ++ crlf

unfoldable pub repl_553_read_only : Text
unfolding codes crlf
repl_553_read_only = codes "553 Read-only file-system." ++ crlf
