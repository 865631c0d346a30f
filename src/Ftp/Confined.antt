-- ===== src/Ftp/Confined.antt =====
-- The paths of xMakeAbsolute() stay under the root directory of the client, as far as the text of a
-- path tells. A ".." inside a path is left to the file system.
use free_rtos_demos_cheri_ri.Prelude.{
  ℕ, zero, suc, ◌-◌, ◌≤◌, ◌<◌, ◌≡◌, refl, true, Bool-cases, inl, inr, Text, [], ◌∷◌, ◌++◌, arith,
  if◌then◌else◌, has_prefix_nocase, to_lower, length, take, length-snprintf,
}
use free_rtos_demos_cheri_ri.Ftp.World.{Client}
use free_rtos_demos_cheri_ri.Ftp.Path.{absolute_path, make_absolute}

has_prefix_nocase-append : (a b : Text) → has_prefix_nocase a (a ++ b) ≡ true
unfolding has_prefix_nocase to_lower
has_prefix_nocase-append [] b = refl
has_prefix_nocase-append (c ∷ a) b = let k = has_prefix_nocase-append a b in ground arith

has_prefix_nocase-take :
    (n : ℕ) (a b : Text)
    → length a ≤ n
    → has_prefix_nocase a b ≡ true
    → has_prefix_nocase a (take n b) ≡ true
unfolding has_prefix_nocase
has_prefix_nocase-take n [] b h k = refl
has_prefix_nocase-take zero (c ∷ a) b h k = absurd (omega (arith, h))
has_prefix_nocase-take (suc n) (c ∷ a) [] h k = k
has_prefix_nocase-take (suc n) (c ∷ a) (d ∷ b) h k =
    let m = has_prefix_nocase-take n a b in ground arith

under_root :
    (root path tail : Text)
    → has_prefix_nocase root (if has_prefix_nocase root path then path else root ++ tail) ≡ true
under_root root path tail = elim (Bool-cases (has_prefix_nocase root path)) [
  | inl y ↦ rw y y
  | inr n ↦ rw n (has_prefix_nocase-append root tail)
]

-- xMakeAbsolute() confines the client: for every name that the client sends, the path that is
-- passed on begins with the root directory, up to the case of letters, and fits the buffer. The
-- condition is that the root directory itself fits.
pub make_absolute-under_root :
    (c : Client) (size : ℕ) (name : Text)
    → length c.root_dir < size
    → (has_prefix_nocase c.root_dir (make_absolute c size name) ≡ true)
      × (length (make_absolute c size name) < size)
unfolding make_absolute absolute_path
make_absolute-under_root c size name h = (
  has_prefix_nocase-take (size - 1) c.root_dir (absolute_path c.root_dir c.current_dir name)
      (omega (arith, h)) (under_root c.root_dir _ _),
  length-snprintf size (absolute_path c.root_dir c.current_dir name) (omega (arith, h)),
)
