-- ===== src/Server/Slash.antt =====
-- prvRemoveSlash(): the root directory of a service.
use free_rtos_demos_cheri_ri.Prelude.{
  ℕ, ◌≡◌, refl, ap, Bool, true, false, Bool-cases, inl, inr, ◌&&◌, Text, [], ◌∷◌, ◌++◌, ◌==◌,
}
use free_rtos_demos_cheri_ri.Ftp.Path.{ends_with_slash}
use free_rtos_demos_cheri_ri.Server.{remove_onto, remove_slash}

abbrev pub all_slashes : Text → Bool
all_slashes [] = true
all_slashes (c ∷ s) = (c == b'/') && all_slashes s

-- `t` is `s` without the slashes at its end.
abbrev pub IsStripped : Text → Text → Type 0
IsStripped s t =
    ((tail : Text) × (s ≡ t ++ tail) × (all_slashes tail ≡ true)) × (ends_with_slash t ≡ false)

IsStripped-remove_onto :
    (c : ℕ) (s t : Text) → IsStripped s t → IsStripped (c ∷ s) (remove_onto c t)
unfolding remove_onto ends_with_slash
IsStripped-remove_onto c s [] ((tail, e, a), n) = elim (Bool-cases (c == b'/')) [
  | inl y ↦ rw y ((c ∷ tail, ap (λ x. c ∷ x) e, rw y a), refl)
  | inr m ↦ rw m ((tail, ap (λ x. c ∷ x) e, a), m)
]
IsStripped-remove_onto c s (d ∷ t) ((tail, e, a), n) = ((tail, ap (λ x. c ∷ x) e, a), n)

-- prvRemoveSlash() takes off the slashes at the end of a path, all of them, and nothing else: the path
-- is what is left followed by slashes only, and what is left does not end in one.
pub remove_slash-IsStripped : (s : Text) → IsStripped s (remove_slash s)
unfolding remove_slash ends_with_slash
remove_slash-IsStripped [] = (([], refl, refl), refl)
remove_slash-IsStripped (c ∷ s) =
    IsStripped-remove_onto c s (remove_slash s) (remove_slash-IsStripped s)
