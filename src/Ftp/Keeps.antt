-- ===== src/Ftp/Keeps.antt =====
-- Invariants and triples of the functions of the server, one rule for each way to build one.
use free_rtos_demos_cheri_ri.Prelude.{Bool, true, false, ◌∷◌}
use free_rtos_demos_cheri_ri.Ftp.World.{
  Event, Trace, Env, Client, State, M, ◌>>=◌, ◌>>◌, branch◌then◌else◌, pure, gets, asks, modify,
  emit, when,
}

-- `m` keeps `P`.
pub record Keeps {A : Type 0} (P : State → Type 0) (m : M A) : Type 0 where
  pub at : (e : Env) (s : State) → P s → P (m e s).1

module _ {A : Type 0} {P : State → Type 0} where
  pub Keeps-pure : (a : A) → Keeps P (pure a)
  unfolding pure
  Keeps-pure a = record { at = λ e s h. h }

  pub Keeps-gets : (f : Client → A) → Keeps P (gets f)
  unfolding gets
  Keeps-gets f = record { at = λ e s h. h }

  pub Keeps-asks : (f : Env → Trace → A) → Keeps P (asks f)
  unfolding asks
  Keeps-asks f = record { at = λ e s h. h }

  pub Keeps-branch :
      (b : Bool) (m n : M A) → Keeps P m → Keeps P n → Keeps P (branch b then m else n)
  unfolding branch◌then◌else◌
  Keeps-branch true m n km kn = km
  Keeps-branch false m n km kn = kn

module _ {P : State → Type 0} where
  pub Keeps-modify :
      (f : Client → Client)
      → ((s : State) → P s → P (record s { client = f s.client }))
      → Keeps P (modify f)
  unfolding modify
  Keeps-modify f k = record { at = λ e s h. k s h }

  pub Keeps-emit :
      (ev : Event) → ((s : State) → P s → P (record s { trace = ev ∷ s.trace })) → Keeps P (emit ev)
  unfolding emit
  Keeps-emit ev k = record { at = λ e s h. k s h }

  pub Keeps-when : (b : Bool) (m : M (Unit {0})) → Keeps P m → Keeps P (when b m)
  unfolding when
  Keeps-when true m km = km
  Keeps-when false m km = Keeps-pure tt

module _ {A B : Type 0} {P : State → Type 0} where
  pub Keeps-bind :
      (m : M A) (f : A → M B) → Keeps P m → ((a : A) → Keeps P (f a)) → Keeps P (m >>= f)
  unfolding ◌>>=◌
  Keeps-bind m f km kf = record { at = λ e s h. (kf (m e s).0).at e (m e s).1 (km.at e s h) }

  pub Keeps-then : (m : M A) (k : M B) → Keeps P m → Keeps P k → Keeps P (m >> k)
  unfolding ◌>>◌
  Keeps-then m k km kk = record { at = λ e s h. kk.at e (m e s).1 (km.at e s h) }

-- From a state of `P`, `m` gives a result and a state of `Q`.
pub record Ensures {A : Type 0} (P : State → Type 0) (m : M A) (Q : A → State → Type 0)
    : Type 0 where
  pub after : (e : Env) (s : State) → P s → Q (m e s).0 (m e s).1

module _ {A : Type 0} {P : State → Type 0} {Q : A → State → Type 0} where
  pub Ensures-pure : (a : A) → ((s : State) → P s → Q a s) → Ensures P (pure a) Q
  unfolding pure
  Ensures-pure a k = record { after = λ e s h. k s h }

  pub Ensures-branch :
      (b : Bool) (m n : M A) → Ensures P m Q → Ensures P n Q → Ensures P (branch b then m else n) Q
  unfolding branch◌then◌else◌
  Ensures-branch true m n km kn = km
  Ensures-branch false m n km kn = kn

module _ {A : Type 0} {P : State → Type 0} (Q : State → Type 0) where
  -- `Q` holds after the change.
  pub Ensures-modify :
      (f : Client → Client) (m : M A) {R : A → State → Type 0}
      → ((s : State) → P s → Q (record s { client = f s.client }))
      → Ensures Q m R
      → Ensures P (modify f >> m) R
  unfolding modify ◌>>◌
  Ensures-modify f m k km = record {
    after = λ e s h. km.after e (record s { client = f s.client }) (k s h);
  }

  pub Ensures-emit :
      (ev : Event) (m : M A) {R : A → State → Type 0}
      → ((s : State) → P s → Q (record s { trace = ev ∷ s.trace }))
      → Ensures Q m R
      → Ensures P (emit ev >> m) R
  unfolding emit ◌>>◌
  Ensures-emit ev m k km = record {
    after = λ e s h. km.after e (record s { trace = ev ∷ s.trace }) (k s h);
  }

module _ {A : Type 0} {P Q : State → Type 0} where
  pub Ensures-weaken : (m : M A) → ((s : State) → P s → Q s) → Keeps Q m → Ensures P m (λ a s. Q s)
  Ensures-weaken m k km = record { after = λ e s h. km.at e s (k s h) }

module _ {A B : Type 0} {P : State → Type 0} {Q : A → State → Type 0} {R : B → State → Type 0} where
  pub Ensures-bind :
      (m : M A) (f : A → M B)
      → Ensures P m Q
      → ((a : A) → Ensures (Q a) (f a) R)
      → Ensures P (m >>= f) R
  unfolding ◌>>=◌
  Ensures-bind m f km kf = record {
    after = λ e s h. (kf (m e s).0).after e (m e s).1 (km.after e s h);
  }

module _ {A B : Type 0} {P : State → Type 0} {R : B → State → Type 0} where
  pub Keeps-Ensures-bind :
      (m : M A) (f : A → M B) → Keeps P m → ((a : A) → Ensures P (f a) R) → Ensures P (m >>= f) R
  unfolding ◌>>=◌
  Keeps-Ensures-bind m f km kf = record {
    after = λ e s h. (kf (m e s).0).after e (m e s).1 (km.at e s h);
  }

  pub Keeps-Ensures-then : (m : M A) (k : M B) → Keeps P m → Ensures P k R → Ensures P (m >> k) R
  unfolding ◌>>◌
  Keeps-Ensures-then m k km kk = record { after = λ e s h. kk.after e (m e s).1 (km.at e s h) }

  pub Ensures-Keeps-then :
      {Q : State → Type 0} (m : M A) (k : M B)
      → Ensures P m (λ a s. Q s)
      → Ensures Q k R
      → Ensures P (m >> k) R
  unfolding ◌>>◌
  Ensures-Keeps-then m k km kk = record { after = λ e s h. kk.after e (m e s).1 (km.after e s h) }

pub Ensures-Keeps :
    {A : Type 0} {P : State → Type 0} (m : M A) → Ensures P m (λ a s. P s) → Keeps P m
Ensures-Keeps m k = record { at = λ e s h. k.after e s h }

pub ruleset bind_rules =
    (Keeps-pure, Keeps-gets, Keeps-asks, Keeps-branch, Keeps-when, Keeps-bind, Keeps-then)

pub ruleset keeps_rules = (bind_rules, Keeps-modify, Keeps-emit)
