-- ===== src/Events/Outcomes.antt =====
-- What an operation may return and what it may throw, by the operation's parts.
use nemoir_web_runtime.Prelude.{◌≡◌, refl, Bool, true, false, if◌then◌else◌}
use nemoir_web_runtime.Errors.{Error, Result, ok, err}
use nemoir_web_runtime.Events.{
  Exec, State, Payload, Entry, pure, throw, lift, continue, ◌>>=◌, emit, record_entry,
}

-- A result is a value that satisfies `P` or an error that satisfies `E`.
abbrev pub Outcome {ℓ} : {A : Type ℓ} → (A → Type 0) → (Error → Type 0) → Result A → Type 0
Outcome P E (ok a) = P a
Outcome P E (err e) = E e

pub record Ends {ℓ} {A : Type ℓ} (P : A → Type 0) (E : Error → Type 0) (m : Exec A) : Type ℓ where
  pub at : (s : State) → Outcome P E (m s).0

module _ {ℓ} {A : Type ℓ} where
  pub Ends-lift :
      (P : A → Type 0) (E : Error → Type 0) (r : Result A) → Outcome P E r → Ends P E (lift r)
  Ends-lift P E r h = record { at = λ s. h }

  pub Ends-pure : (P : A → Type 0) (E : Error → Type 0) (a : A) → P a → Ends P E (pure a)
  Ends-pure P E a h = record { at = λ s. h }

  pub Ends-throw :
      (P : A → Type 0) (E : Error → Type 0) (e : Error) → E e → Ends P E (throw {A = A} e)
  Ends-throw P E e h = record { at = λ s. h }

  pub Ends-if :
      (P : A → Type 0) (E : Error → Type 0) (b : Bool) {m n : Exec A}
      → (b ≡ true → Ends P E m)
      → (b ≡ false → Ends P E n)
      → Ends P E (if b then m else n)
  Ends-if P E true hm hn = hm refl
  Ends-if P E false hm hn = hn refl

-- An operation that returns in every state.
abbrev pub Total {ℓ} : {A : Type ℓ} → (Error → Type 0) → Exec A → Type ℓ
Total E m = Ends (λ _. Unit) E m

pub Ends-emit : (E : Error → Type 0) (p : Payload) → Total E (emit p)
unfolding emit
Ends-emit E p = record { at = λ s. tt }

pub Ends-emit_keeping :
    (P : Unit {0} → Type 0) (E : Error → Type 0) (p : Payload) → P tt → Ends P E (emit p)
unfolding emit
Ends-emit_keeping P E p h = record { at = λ s. h }

pub Ends-record : (E : Error → Type 0) (entry : Entry) → Total E (record_entry entry)
unfolding record_entry
Ends-record E entry = record { at = λ s. tt }

module _ {ℓ κ} {A : Type ℓ} {B : Type κ} where
  continue-Outcome :
      (P : A → Type 0) (Q : B → Type 0) (E : Error → Type 0) (r : Result A) (f : A → Exec B)
      (s : State)
      → Outcome P E r
      → ((a : A) → P a → Ends Q E (f a))
      → Outcome Q E (continue r f s).0
  continue-Outcome P Q E (ok a) f s h hf = (hf a h).at s
  continue-Outcome P Q E (err e) f s h hf = h

  pub Ends-bind :
      (P : A → Type 0) (Q : B → Type 0) (E : Error → Type 0) (m : Exec A) (f : A → Exec B)
      → Ends P E m
      → ((a : A) → P a → Ends Q E (f a))
      → Ends Q E (m >>= f)
  unfolding ◌>>=◌
  Ends-bind P Q E m f hm hf = record {
    at = λ s. continue-Outcome P Q E (m s).0 f (m s).1 (hm.at s) hf;
  }
