-- ===== src/Http/Commands.antt =====
-- protocols/HTTP/FreeRTOS_HTTP_commands.c: the table of methods and the names of the status codes.
use free_rtos_demos_cheri_ri.Prelude.{ℕ, Text, List, [], ◌∷◌, ◌==◌, if◌then◌else◌, codes}

-- The enumeration in protocols/include/FreeRTOS_HTTP_commands.h
pub data Command : Type 0 where
  get head post put delete trace options connect patch unknown : Command

-- pcCommandName; xCommandLength is its length.
unfoldable pub command_name : Command → Text
unfolding codes
command_name get = codes "GET"
command_name head = codes "HEAD"
command_name post = codes "POST"
command_name put = codes "PUT"
command_name delete = codes "DELETE"
command_name trace = codes "TRACE"
command_name options = codes "OPTIONS"
command_name connect = codes "CONNECT"
command_name patch = codes "PATCH"
command_name unknown = codes "UNKN"

-- xWebCommands without its last entry, which the search never reaches.
unfoldable pub all_commands : List Command
all_commands = get ∷ head ∷ post ∷ put ∷ delete ∷ trace ∷ options ∷ connect ∷ patch ∷ []

abbrev pub reply_ok : ℕ
reply_ok = 200

abbrev pub not_found : ℕ
not_found = 404

-- webCodename()
unfoldable pub code_name : ℕ → Text
unfolding codes
code_name code =
    if code == reply_ok
    then codes "OK"
    else if code == 204
    then codes "No content"
    else if code == 400
    then codes "Bad request"
    else if code == 401
    then codes "Authorization Required"
    else if code == not_found
    then codes "Not Found"
    else if code == 410
    then codes "Done"
    else if code == 412
    then codes "Precondition Failed"
    else if code == 500
    then codes "Internal Server Error"
    else codes "Unknown"
