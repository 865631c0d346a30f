-- ===== src/Bsp/Uart/Queued.antt =====
-- What the driver of the serial port, bsp/uart16550.c, writes to the device.
use free_rtos_demos_cheri_ri.Prelude.{
  ℕ, zero, suc, ◌<◌, ◌≡◌, refl, sym, ap, ◌∙◌, false, [], ◌∷◌, ◌++◌, some, Text, ◌==◌, if◌then◌else◌,
  arith, Bool-cases, inl, inr,
}
use mathlib.Core.List.{append_assoc, append-nil}
use free_rtos_demos_cheri_ri.Bsp.Uart.{
  Event, Trace, Env, reg_linestat, is_full, putchar, and_then, put_text_char, txbuffer,
}

-- The characters that were written to the queue, in their order
abbrev pub queued : Trace → Text
queued [] = []
queued (Event.write zero ch ∷ t) = queued t ++ (ch ∷ [])
queued (Event.write (suc r) v ∷ t) = queued t
queued (Event.read r ∷ t) = queued t

-- Each line feed is followed by a carriage return.
unfoldable pub with_returns : Text → Text
with_returns [] = []
with_returns (ch ∷ s) = (if ch == b'\n' then ch ∷ (b'\r' ∷ []) else ch ∷ []) ++ with_returns s

-- So many reads of the line status
abbrev pub polls : ℕ → Trace → Trace
polls zero t = t
polls (suc n) t = polls n (Event.read reg_linestat ∷ t)

putchar-queued :
    (fuel k : ℕ) (e : Env) (ch : ℕ) (t : Trace)
    → k < fuel
    → is_full e (polls k t) ≡ false
    → (t' : Trace) × (putchar fuel e ch t ≡ some t') × (queued t' ≡ queued t ++ (ch ∷ []))
unfolding putchar
putchar-queued zero k e ch t lt h = elim lt [ ]
putchar-queued (suc fuel) zero e ch t lt h =
    (Event.write 0 ch ∷ (Event.read reg_linestat ∷ t), rw h refl, refl)
putchar-queued (suc fuel) (suc k) e ch t lt h =
    let (t', ends, q) = putchar-queued fuel k e ch (Event.read reg_linestat ∷ t) (omega arith) h in
    elim (Bool-cases (is_full e t)) [
      | inl y ↦ (t', rw y ends, q)
      | inr n ↦ (Event.write 0 ch ∷ (Event.read reg_linestat ∷ t), rw n refl, refl)
    ]

module _ (fuel : ℕ) (e : Env)
    (ready : (t : Trace) → (k : ℕ) × (k < fuel) × (is_full e (polls k t) ≡ false)) where
  put_char :
      (ch : ℕ) (t : Trace)
      → (t' : Trace) × (putchar fuel e ch t ≡ some t') × (queued t' ≡ queued t ++ (ch ∷ []))
  put_char ch t = let (k, lt, h) = ready t in putchar-queued fuel k e ch t lt h

  put_text_char-queued :
      (ch : ℕ) (t : Trace)
      → (t' : Trace) × (put_text_char fuel e ch t ≡ some t')
        × (queued t' ≡ queued t ++ (if ch == b'\n' then ch ∷ (b'\r' ∷ []) else ch ∷ []))
  unfolding put_text_char and_then
  put_text_char-queued ch t =
      let (t1, ends, q) = put_char ch t in
      let (t2, ends2, q2) = put_char b'\r' t1 in
      elim (Bool-cases (ch == b'\n')) [
        | inl y ↦ (
          t2,
          rw y (rw ends ends2),
          rw y
              (q2 ∙ ap (λ l. l ++ (b'\r' ∷ [])) q ∙ append_assoc (queued t) (ch ∷ []) (b'\r' ∷ [])),
        )
        | inr n ↦ (t1, rw n ends, rw n q)
      ]

  txbuffer-all :
      (s : Text) (t : Trace)
      → (t' : Trace) × (txbuffer fuel e s t ≡ some t') × (queued t' ≡ queued t ++ with_returns s)
  unfolding txbuffer with_returns
  txbuffer-all [] t = (t, refl, sym (append-nil (queued t)))
  txbuffer-all (ch ∷ s) t =
      let (t1, ends, q) = put_text_char-queued ch t in
      let (t2, ends2, q2) = txbuffer-all s t1 in
      (
        t2,
        ap (and_then (txbuffer fuel e s)) ends ∙ ends2,
        q2 ∙ ap (λ l. l ++ with_returns s) q ∙ append_assoc (queued t) _ (with_returns s),
      )

-- If the transmitter is ready at one of any `fuel` reads of its status in a row, uart16550_txbuffer()
-- comes to an end, and has written the characters of the buffer to the queue, in their order, with a
-- carriage return behind each line feed.
pub txbuffer-queued :
    (fuel : ℕ) (e : Env) (s : Text) (t : Trace)
    → ((t : Trace) → (k : ℕ) × (k < fuel) × (is_full e (polls k t) ≡ false))
    → (t' : Trace) × (txbuffer fuel e s t ≡ some t') × (queued t' ≡ queued t ++ with_returns s)
txbuffer-queued fuel e s t ready = txbuffer-all fuel e ready s t
