-- ===== src/Bsp/Syscalls/Names.antt =====
-- The search of bsp/syscalls.c for a descriptor that has a name.
use free_rtos_demos_cheri_ri.Prelude.{
  ℕ, zero, suc, ◌+◌, ◌<◌, ◌≡◌, ◌≢◌, ◌⊎◌, inl, inr, refl, sym, true, false, none, some, [], ◌∷◌,
  Text, same_text, arith, Bool-cases,
}
use free_rtos_demos_cheri_ri.Bsp.Syscalls.{Env, State, is_named, find_name}
use free_rtos_demos_cheri_ri.Bsp.Syscalls.Kept.{}

pub same_text_self : (a : Text) → same_text a a ≡ true
unfolding same_text
same_text_self [] = refl
same_text_self (x ∷ a) = ground (arith, same_text_self a)

same_text_sound : (a b : Text) → same_text a b ≡ true → a ≡ b
unfolding same_text
same_text_sound [] [] h = refl
same_text_sound [] (y ∷ b) h = absurd (ground arith)
same_text_sound (x ∷ a) [] h = absurd (ground arith)
same_text_sound (x ∷ a) (y ∷ b) h =
    let p : x ≡ y = ground arith in
    let q : a ≡ b = same_text_sound a b (ground arith) in rw (p, q) refl

-- No descriptor that was given out has the name at an address.
abbrev pub IsUnknown : Env → ℕ → State → Type 0
IsUnknown e a s =
    (i : ℕ) → i < s.free_fd → (s.name i ≡ 0) ⊎ (e.text_at s.trace (s.name i) ≢ e.text_at s.trace a)

pub is_named-other :
    (e : Env) (a : ℕ) (s : State) (i : ℕ)
    → (s.name i ≡ 0) ⊎ (e.text_at s.trace (s.name i) ≢ e.text_at s.trace a)
    → is_named e a s i ≡ false
unfolding is_named
is_named-other e a s i (inl z) = ground arith
is_named-other e a s i (inr ne) =
    elim (Bool-cases (same_text (e.text_at s.trace a) (e.text_at s.trace (s.name i)))) [
      | inl y ↦ absurd (ne (sym (same_text_sound _ _ y)))
      | inr n ↦ ground arith
    ]

pub find_name-none :
    (e : Env) (a : ℕ) (s : State) (i left : ℕ)
    → ((j : ℕ) → j < i + left → is_named e a s j ≡ false)
    → find_name e a s i left ≡ none
unfolding find_name
find_name-none e a s i zero h = refl
find_name-none e a s i (suc left) h =
    rw (h i (omega arith)) (find_name-none e a s (i + 1) left (λ j lt. h j (omega (arith, lt))))

-- The search ends at the last of the descriptors, if only that one has the name.
pub find_name-last :
    (e : Env) (a : ℕ) (s : State) (n i left : ℕ)
    → i + left ≡ n
    → ((j : ℕ) → j < n → is_named e a s j ≡ false)
    → is_named e a s n ≡ true
    → find_name e a s i (suc left) ≡ some n
unfolding find_name
find_name-last e a s n i zero at h last = let p : i ≡ n = omega (arith, at) in rw (p, last) refl
find_name-last e a s n i (suc left) at h last =
    rw (h i (omega (arith, at))) (find_name-last e a s n (i + 1) left (omega (arith, at)) h last)
