-- ===== src/Plic/Table.antt =====
-- The handler table: PLIC_register_interrupt_handler() and PLIC_unregister_interrupt_handler().
use free_rtos_demos_cheri_ri.Prelude.{
  update, ℕ, ◌≤◌, ◌≡◌, refl, ◌==◌, Bool, true, false, not, ◌&&◌, Bool-cases, inl, inr, none, some,
  is_some, if◌then◌else◌, arith,
}
use free_rtos_demos_cheri_ri.Plic.{
  Plic, write_register, enable_addr, add_handler, remove_handler, is_source, enable_interrupt,
  disable_interrupt, register_interrupt_handler, unregister_interrupt_handler,
}
use free_rtos_demos_cheri_ri.Plic.Enable.{
  enabled, enable_interrupt-enabled, disable_interrupt-enabled,
}

-- Every source with a handler is enabled.
abbrev pub IsArmed : Plic → Type 0
IsArmed p = (source : ℕ) → (if is_some (p.handler source) then 1 else 0) ≤ enabled p source

add_handler-handler :
    (p : Plic) (source_id h ref source : ℕ)
    → (add_handler p source_id h ref).handler source
      ≡ (if source == source_id then some h else p.handler source)
unfolding add_handler enable_interrupt write_register update
add_handler-handler p source_id h ref source = refl

remove_handler-handler :
    (p : Plic) (source_id source : ℕ)
    → (remove_handler p source_id).handler source
      ≡ (if source == source_id then none else p.handler source)
unfolding remove_handler disable_interrupt write_register update
remove_handler-handler p source_id source = refl

add_handler-enabled :
    (p : Plic) (source_id h ref source : ℕ)
    → enabled (add_handler p source_id h ref) source
      ≡ (if source == source_id then 1 else enabled p source)
unfolding add_handler enable_addr
add_handler-enabled p source_id h ref source =
    let q = record p {
      handler = update p.handler source_id (some h);
      callback_ref = update p.callback_ref source_id ref;
    } in
    enable_interrupt-enabled q source_id source

remove_handler-enabled :
    (p : Plic) (source_id source : ℕ)
    → enabled (remove_handler p source_id) source
      ≡ (if source == source_id then 0 else enabled p source)
unfolding remove_handler enable_addr
remove_handler-enabled p source_id source = disable_interrupt-enabled p source_id source

add_handler-IsArmed :
    (p : Plic) (source_id h ref : ℕ) → IsArmed p → IsArmed (add_handler p source_id h ref)
add_handler-IsArmed p source_id h ref a source =
    let e = add_handler-enabled p source_id h ref source in
    let t = add_handler-handler p source_id h ref source in
    let b = a source in
    elim (Bool-cases (source == source_id)) [ inl y ↦ ground arith | inr n ↦ ground arith ]

remove_handler-IsArmed :
    (p : Plic) (source_id : ℕ) → IsArmed p → IsArmed (remove_handler p source_id)
remove_handler-IsArmed p source_id a source =
    let e = remove_handler-enabled p source_id source in
    let t = remove_handler-handler p source_id source in
    let b = a source in
    elim (Bool-cases (source == source_id)) [ inl y ↦ ground arith | inr n ↦ ground arith ]

-- What holds of both branches holds of the conditional.
either : (b : Bool) (p q : Plic) → IsArmed p → IsArmed q → IsArmed (if b then p else q)
either true p q x y = x
either false p q x y = y

register-plic :
    (p : Plic) (source_id h ref : ℕ)
    → (register_interrupt_handler p source_id h ref).1 ≡ (
        if is_source source_id && not (is_some (p.handler source_id))
        then add_handler p source_id h ref
        else p)
unfolding register_interrupt_handler
register-plic p source_id h ref =
    elim (Bool-cases (is_source source_id && not (is_some (p.handler source_id)))) [
      | inl y ↦ rw y refl
      | inr n ↦ rw n refl
    ]

-- If every source that has a handler is enabled, this is so still after a call that registers a
-- handler for any source, granted or refused, and after a call that removes the handler of any source.
pub handlers-IsArmed :
    (p : Plic) (source_id h ref : ℕ)
    → IsArmed p
    → IsArmed (register_interrupt_handler p source_id h ref).1
      × IsArmed (unregister_interrupt_handler p source_id)
unfolding unregister_interrupt_handler
handlers-IsArmed p source_id h ref a = (
  rw (register-plic p source_id h ref) (
      either (is_source source_id && not (is_some (p.handler source_id)))
        (add_handler p source_id h ref) p (add_handler-IsArmed p source_id h ref a) a),
  either (is_source source_id) (remove_handler p source_id) p (remove_handler-IsArmed p source_id a)
      a,
)

-- A call to register is granted for a source from 1 to 15 that has no handler.
abbrev pub is_granted : Plic → ℕ → Bool
is_granted p source_id = is_source source_id && not (is_some (p.handler source_id))

pub register-result :
    (p : Plic) (source_id h ref source : ℕ)
    → ((register_interrupt_handler p source_id h ref).0
        ≡ (if is_granted p source_id then source_id else 0))
      × ((register_interrupt_handler p source_id h ref).1.handler source
          ≡ (if is_granted p source_id && (source == source_id) then some h else p.handler source))
      × (enabled (register_interrupt_handler p source_id h ref).1 source
          ≡ (if is_granted p source_id && (source == source_id) then 1 else enabled p source))
unfolding register_interrupt_handler
register-result p source_id h ref source =
    let t = add_handler-handler p source_id h ref source in
    let e = add_handler-enabled p source_id h ref source in
    elim (Bool-cases (is_granted p source_id)) [
      | inl y ↦ rw y (refl, t, e)
      | inr n ↦ rw n (refl, refl, refl)
    ]
