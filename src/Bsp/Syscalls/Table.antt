-- ===== src/Bsp/Syscalls/Table.antt =====
-- What holds of the table of open files of bsp/syscalls.c, and that an entry made and an entry taken
-- out keep it.
use free_rtos_demos_cheri_ri.Prelude.{
  ℕ, zero, suc, ◌+◌, ◌≤◌, ◌<◌, ◌≡◌, ◌≢◌, ◌↔◌, refl, Bool, true, false, [], ◌∷◌, Text, update,
  update_self, update_other, ◌==◌, ltb, arith, Bool-cases, inl, inr, ==_iff, ltb→lt,
}
use free_rtos_demos_cheri_ri.Bsp.Syscalls.{State, Event, Trace, table_size}

abbrev one_if : Bool → ℕ
one_if true = 1
one_if false = 0

-- How often a file was opened, and how often it was closed with success
abbrev pub opened : ℕ → Trace → ℕ
opened h [] = 0
opened h (Event.ff_fopen name mode file ∷ t) = one_if (file == h) + opened h t
opened h (_ ∷ t) = opened h t

abbrev pub closed : ℕ → Trace → ℕ
closed h [] = 0
closed h (Event.ff_fclose file true ∷ t) = one_if (file == h) + closed h t
closed h (_ ∷ t) = closed h t

-- The descriptors below `n` that stand for a file
unfoldable pub held : ℕ → (ℕ → ℕ) → ℕ → ℕ
held h file zero = 0
held h file (suc n) = one_if (file n == h) + held h file n

unfoldable pub IsTable : State → Type 0
IsTable s =
    (3 ≤ s.free_fd)
    × (s.free_fd ≤ table_size)
    × ((i : ℕ) → s.free_fd ≤ i → s.ff_file i ≡ 0)
    × ((i : ℕ) → i < 3 → s.ff_file i ≡ 0)
    × ((i : ℕ) → (s.ff_file i ≡ 0) ↔ (s.name i ≡ 0))
    × ((h : ℕ) → h ≢ 0 → opened h s.trace ≡ closed h s.trace + held h s.ff_file s.free_fd)

held-update_above :
    (h : ℕ) (file : ℕ → ℕ) (k v n : ℕ) → n ≤ k → held h (update file k v) n ≡ held h file n
unfolding held
held-update_above h file k v zero le = refl
held-update_above h file k v (suc n) le =
    rw (update_other file k v n (omega arith), held-update_above h file k v n (omega arith))

held-update :
    (h : ℕ) (file : ℕ → ℕ) (k v n : ℕ)
    → k < n
    → held h (update file k v) n + one_if (file k == h) ≡ held h file n + one_if (v == h)
unfolding held
held-update h file k v zero lt = elim lt [ ]
held-update h file k v (suc n) lt = elim (Bool-cases (k == n)) [
  | inl e ↦
      let eq : k ≡ n = (==_iff k n).0 e in
      rw (← eq)
        (rw (update_self file k v) (omega (arith, held-update_above h file k v k (omega arith))))
  | inr d ↦
      let ne : n ≢ k = ground arith in
      rw (update_other file k v n ne) (omega (arith, held-update h file k v n (ground arith)))
]

held-enter :
    (h : ℕ) (file : ℕ → ℕ) (n v : ℕ)
    → held h (update file n v) (n + 1) ≡ one_if (v == h) + held h file n
unfolding held
held-enter h file n v =
    let add : n + 1 ≡ suc n = omega arith in
    rw add (rw (update_self file n v) (omega (arith, held-update_above h file n v n (omega arith))))

both_update :
    (file name : ℕ → ℕ) (k f nm : ℕ)
    → ((i : ℕ) → (file i ≡ 0) ↔ (name i ≡ 0))
    → (f ≡ 0) ↔ (nm ≡ 0)
    → (i : ℕ) → (update file k f i ≡ 0) ↔ (update name k nm i ≡ 0)
unfolding update
both_update file name k f nm both new i = elim (Bool-cases (i == k)) [
  | inl e ↦ rw e new
  | inr d ↦ rw d (both i)
]

update_zero : (m : ℕ → ℕ) (k i : ℕ) → m i ≡ 0 → update m k 0 i ≡ 0
unfolding update
update_zero m k i h = ground arith

-- An entry made at the first free descriptor
pub entered-IsTable :
    (s : State) (file name mode : ℕ) (text : Text)
    → name ≢ 0
    → file ≢ 0
    → s.free_fd < table_size
    → IsTable s
    → IsTable record s {
      free_fd = s.free_fd + 1;
      ff_file = update s.ff_file s.free_fd file;
      name = update s.name s.free_fd name;
      trace = Event.ff_fopen text mode file ∷ s.trace;
    }
unfolding IsTable
entered-IsTable s file name mode text named is_file free (low, high, above, std, both, count) = (
  omega arith,
  omega arith,
  λ i le. rw (update_other s.ff_file s.free_fd file i (omega arith)) (above i (omega arith)),
  λ i lt. rw (update_other s.ff_file s.free_fd file i (omega arith)) (std i lt),
  both_update s.ff_file s.name s.free_fd file name both
      (λ z. absurd (is_file z), λ z. absurd (named z)),
  λ h ne. omega (arith, count h ne, held-enter h s.ff_file s.free_fd file),
)

-- An ff_fopen() that fails opens nothing.
pub unopened-IsTable :
    (s : State) (mode : ℕ) (text : Text) (file : ℕ)
    → file ≡ 0
    → IsTable s
    → IsTable record s { trace = Event.ff_fopen text mode file ∷ s.trace }
unfolding IsTable
unopened-IsTable s mode text file z (low, high, above, std, both, count) =
    (low, high, above, std, both, λ h ne. ground (arith, count h ne))

-- A descriptor of a file is below the first free one.
below_free : (s : State) (fd : ℕ) → s.ff_file fd ≢ 0 → IsTable s → fd < s.free_fd
unfolding IsTable
below_free s fd is_file (low, high, above, std, both, count) =
    elim (Bool-cases (ltb fd s.free_fd)) [
      | inl l ↦ ltb→lt fd s.free_fd l
      | inr n ↦ absurd (is_file (above fd (ground arith)))
    ]

-- An entry taken out when its file is closed
pub cleared-IsTable :
    (s : State) (fd : ℕ)
    → s.ff_file fd ≢ 0
    → IsTable s
    → IsTable record s {
      ff_file = update s.ff_file fd 0;
      name = update s.name fd 0;
      trace = Event.ff_fclose (s.ff_file fd) true ∷ s.trace;
    }
unfolding IsTable
cleared-IsTable s fd is_file (low, high, above, std, both, count) =
    let b = below_free s fd is_file (low, high, above, std, both, count) in
    (
      low,
      high,
      λ i le. update_zero s.ff_file fd i (above i le),
      λ i lt. update_zero s.ff_file fd i (std i lt),
      both_update s.ff_file s.name fd 0 0 both (λ z. z, λ z. z),
      λ h ne. ground (arith, count h ne, held-update h s.ff_file fd 0 s.free_fd b),
    )
