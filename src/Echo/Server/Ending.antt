-- ===== src/Echo/Server/Ending.antt =====
-- The loop over FreeRTOS_send() in demo/SimpleTCPEchoServer.c comes to an end.
use free_rtos_demos_cheri_ri.Prelude.{
  ℕ, zero, suc, ◌+◌, ◌-◌, ◌≤◌, ◌<◌, ◌≡◌, refl, Bool, true, false, [], ◌∷◌, some, Text, length, take,
  ℤ, pos, negsuc, arith, ◌⊎◌, inl, inr, length-take,
}
use free_rtos_demos_cheri_ri.Echo.Server.{
  Env, State, Event, Trace, Sent, send_call, after_send, send_loop,
}

-- How many bytes FreeRTOS_send() took over
abbrev pub accepted : Trace → ℕ
accepted [] = 0
accepted (Event.send d (pos k) ∷ t) = accepted t + k
accepted (_ ∷ t) = accepted t

-- A result of FreeRTOS_send(): an error, or some of the bytes
abbrev pub IsProgress : ℤ → ℕ → Type 0
IsProgress (pos k) n = (0 < k) × (k ≤ n)
IsProgress (negsuc k) n = Unit {0}

abbrev Ends : ℕ → State → Sent → Type 0
Ends n s r =
    (o : Bool × State) × (r ≡ some o) × ((o.0 ≡ true) ⊎ (accepted o.1.trace ≡ accepted s.trace + n))

-- What follows a call, by its result
after_send-Ends :
    (again : ℕ → State → Sent) (d : Text) (n : ℕ) (r : ℤ) (s : State)
    → IsProgress r n
    → ((k : ℕ)
        → 0 < k
        → k ≤ n
        → Ends
            (n - k)
            record s { trace = Event.send d (pos k) ∷ s.trace }
            (again (n - k) record s { trace = Event.send d (pos k) ∷ s.trace }))
    → Ends n s (after_send again n (r, record s { trace = Event.send d r ∷ s.trace }))
unfolding after_send
after_send-Ends again d n (negsuc k) s p next =
    ((true, record s { trace = Event.send d (negsuc k) ∷ s.trace }), refl, inl refl)
after_send-Ends again d n (pos k) s (some_taken, le) next =
    let (o, ends, result) = next k some_taken le in
    (o, ends, elim result [ inl b ↦ inl b | inr a ↦ inr (omega (arith, a)) ])

-- If each call of FreeRTOS_send() fails or takes over one byte or more of what it is given, the loop
-- ends within as many rounds as there are bytes to send, by an error or with all of them taken over.
pub send_loop-ends :
    (fuel : ℕ) (e : Env) (n : ℕ) (s : State)
    → n ≤ fuel
    → n ≤ length s.rx_buffer
    → ((t : Trace) (d : Text) → 0 < length d → IsProgress (e.send t d) (length d))
    → (o : Bool × State) × (send_loop fuel e n s ≡ some o)
      × ((o.0 ≡ true) ⊎ (accepted o.1.trace ≡ accepted s.trace + n))
unfolding send_loop send_call
send_loop-ends zero e zero s le fits progress = ((false, s), refl, inr (omega arith))
send_loop-ends zero e (suc n) s le fits progress = absurd (omega arith)
send_loop-ends (suc fuel) e zero s le fits progress = ((false, s), refl, inr (omega arith))
send_loop-ends (suc fuel) e (suc n) s le fits progress =
    let d : Text = take (suc n) s.rx_buffer in
    let m : length d ≡ suc n = omega (arith, length-take (suc n) s.rx_buffer) in
    after_send-Ends (send_loop fuel e) d (suc n) (e.send s.trace d) s
      (rw m at (progress s.trace d (omega arith)))
      (λ k some_taken k_le.
        send_loop-ends fuel e (suc n - k) record s { trace = Event.send d (pos k) ∷ s.trace }
          (omega arith) (omega arith) progress)
