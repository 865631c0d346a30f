-- ===== src/Ftp/Lines.antt =====
-- The line of a command: the end of line taken off, and the name looked up in the table.
use free_rtos_demos_cheri_ri.Prelude.{
  ℕ, ◌≡◌, refl, ◌≢◌, ◌⊎◌, inl, inr, Bool, true, false, not, ◌&&◌, ◌||◌, Bool-cases, Text, List, [],
  ◌∷◌, ◌++◌, ◌==◌, ap, has_prefix,
}
use free_rtos_demos_cheri_ri.Ftp.Commands.{Command, unknown, command_name, all_commands}
use free_rtos_demos_cheri_ri.Ftp.Work.{find_command, trim_eol, trim_onto}

-- A command line that begins with the name of a command is that command, and no earlier entry of
-- the table is taken for it: this holds for each of the 38 commands and whatever follows the name.
find_command-name :
    (cmd : Command) (rest : Text)
    → cmd ≢ unknown
    → find_command all_commands (command_name cmd ++ rest) ≡ cmd
unfolding find_command command_name all_commands has_prefix
find_command-name unknown rest h = absurd (h refl)
find_command-name _ rest h = refl

abbrev pub none_begins : List Command → Text → Bool
none_begins [] line = true
none_begins (cmd ∷ more) line = not (has_prefix (command_name cmd) line) && none_begins more line

pub find_command-begins :
    (l : List Command) (line : Text)
    → (has_prefix (command_name (find_command l line)) line ≡ true)
      ⊎ ((find_command l line ≡ unknown) × (none_begins l line ≡ true))
unfolding find_command
find_command-begins [] line = inr (refl, refl)
find_command-begins (cmd ∷ more) line = elim (Bool-cases (has_prefix (command_name cmd) line)) [
  | inl y ↦ inl (rw y y)
  | inr n ↦ rw n (find_command-begins more line)
]

abbrev pub is_eol : ℕ → Bool
is_eol c = (c == 13) || (c == 10)

abbrev pub all_eol : Text → Bool
all_eol [] = true
all_eol (c ∷ s) = is_eol c && all_eol s

abbrev pub ends_in_eol : Text → Bool
ends_in_eol [] = false
ends_in_eol (c ∷ []) = is_eol c
ends_in_eol (c ∷ d ∷ s) = ends_in_eol (d ∷ s)

-- `t` is `s` without an end of line.
abbrev pub IsTrimmed : Text → Text → Type 0
IsTrimmed s t = ((tail : Text) × (s ≡ t ++ tail) × (all_eol tail ≡ true)) × (ends_in_eol t ≡ false)

IsTrimmed-trim_onto : (c : ℕ) (s t : Text) → IsTrimmed s t → IsTrimmed (c ∷ s) (trim_onto c t)
unfolding trim_onto
IsTrimmed-trim_onto c s [] ((tail, e, a), n) = elim (Bool-cases (is_eol c)) [
  | inl y ↦ rw y ((c ∷ tail, ap (λ x. c ∷ x) e, rw y a), refl)
  | inr m ↦ rw m ((tail, ap (λ x. c ∷ x) e, a), m)
]
IsTrimmed-trim_onto c s (d ∷ t) ((tail, e, a), n) = ((tail, ap (λ x. c ∷ x) e, a), n)

-- The loop over the end of a command line takes off carriage returns and line feeds, all of them,
-- and nothing else: the line is what is left followed by such characters only, and what is left
-- does not end in one.
trim_eol-IsTrimmed : (s : Text) → IsTrimmed s (trim_eol s)
unfolding trim_eol
trim_eol-IsTrimmed [] = (([], refl, refl), refl)
trim_eol-IsTrimmed (c ∷ s) = IsTrimmed-trim_onto c s (trim_eol s) (trim_eol-IsTrimmed s)
