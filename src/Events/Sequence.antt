-- ===== src/Events/Sequence.antt =====
-- events.ts: the sequence numbers of the events in a log, and operations that keep a predicate of the state.
use nemoir_web_runtime.Prelude.{
  ℕ, zero, suc, ◌+◌, ◌≡◌, refl, sym, ap, ◌∙◌, Bool, true, false, List, [], ◌∷◌, ◌++◌, append-nil,
  append_assoc, if◌then◌else◌, arith,
}
use nemoir_web_runtime.Errors.{Error, Result, ok, err}
use nemoir_web_runtime.Events.{
  Exec, State, Entry, event, Payload, pure, throw, lift, continue, ◌>>=◌, emit, record_entry,
}

-- The sequence numbers of the events of a log, in order.
abbrev pub number_of : Entry → List ℕ
number_of (event n p) = n ∷ []
number_of _ = []

abbrev pub numbers : List Entry → List ℕ
numbers [] = []
numbers (entry ∷ log) = number_of entry ++ numbers log

-- 1, 2, …, n
abbrev pub count_up : ℕ → List ℕ
count_up zero = []
count_up (suc n) = count_up n ++ suc n ∷ []

-- The events of the log are numbered from 1 to the emitter's sequence number.
abbrev pub IsNumbered : State → Type 0
IsNumbered s = numbers s.log ≡ count_up s.sequence

pub numbers-append : (xs ys : List Entry) → numbers (xs ++ ys) ≡ numbers xs ++ numbers ys
numbers-append [] ys = refl
numbers-append (x ∷ xs) ys =
    ap (λ (ns : List ℕ). number_of x ++ ns) (numbers-append xs ys)
    ∙ sym (append_assoc (number_of x) (numbers xs) (numbers ys))

-- `m` keeps `P`, whether it returns or throws.
pub record Keeps {ℓ} {A : Type ℓ} (P : State → Type 0) (m : Exec A) : Type ℓ where
  pub at : (s : State) → P s → P (m s).1

module _ {ℓ} {A : Type ℓ} {P : State → Type 0} where
  pub Keeps-throw : (e : Error) → Keeps P (throw {A = A} e)
  Keeps-throw e = record { at = λ s h. h }

  pub Keeps-lift : (r : Result A) → Keeps P (lift r)
  Keeps-lift r = record { at = λ s h. h }

  pub Keeps-if : (b : Bool) {m n : Exec A} → Keeps P m → Keeps P n → Keeps P (if b then m else n)
  Keeps-if true hm hn = hm
  Keeps-if false hm hn = hn

  pub Keeps-pure : (a : A) → Keeps P (pure a)
  Keeps-pure a = record { at = λ s h. h }

module _ {ℓ κ} {A : Type ℓ} {B : Type κ} {P : State → Type 0} where
  continue-Keeps :
      (r : Result A) (f : A → Exec B) (s : State)
      → ((a : A) → Keeps P (f a))
      → P s
      → P (continue r f s).1
  continue-Keeps (ok a) f s hf h = (hf a).at s h
  continue-Keeps (err e) f s hf h = h

  pub Keeps-bind :
      (first : Exec A) (next : A → Exec B)
      → Keeps P first
      → ((value : A) → Keeps P (next value))
      → Keeps P (first >>= next)
  unfolding ◌>>=◌
  Keeps-bind first next kept kept_after = record {
    at = λ s h. continue-Keeps (first s).0 next (first s).1 kept_after (kept.at s h);
  }

count_up-next : (n : ℕ) → count_up (n + 1) ≡ count_up n ++ (n + 1) ∷ []
count_up-next n = let e : n + 1 ≡ suc n = omega arith in rw e refl

-- An emitted event has the next number.
pub emit-IsNumbered : (p : Payload) → Keeps IsNumbered (emit p)
unfolding emit
emit-IsNumbered p = record {
  at = λ s h.
      numbers-append s.log (event (s.sequence + 1) p ∷ [])
      ∙ ap (λ (ns : List ℕ). ns ++ (s.sequence + 1) ∷ []) h
      ∙ sym (count_up-next s.sequence);
}

-- The entries of the recorder have no number.
pub record-IsNumbered :
    (entry : Entry) → number_of entry ≡ [] → Keeps IsNumbered (record_entry entry)
unfolding record_entry
record-IsNumbered entry none = record {
  at = λ s h.
      numbers-append s.log (entry ∷ [])
      ∙ ap (λ (ns : List ℕ). numbers s.log ++ ns) (append-nil (number_of entry) ∙ none)
      ∙ append-nil (numbers s.log)
      ∙ h;
}

pub ruleset keeps_rules =
    (Keeps-lift, Keeps-pure, Keeps-throw, Keeps-if, Keeps-bind, emit-IsNumbered)
