-- ===== src/Events/Calls.antt =====
-- What an operation adds to the handler calls of a run, by the operation's parts.
use nemoir_web_runtime.Prelude.{
  ◌≡◌, refl, sym, ap, ◌∙◌, Bool, true, false, List, [], ◌++◌, append-nil, append_assoc,
  if◌then◌else◌,
}
use nemoir_web_runtime.Errors.{Error, Result, ok, err}
use nemoir_web_runtime.Events.{
  Exec, State, Call, Payload, Entry, pure, throw, lift, continue, ◌>>=◌, emit, record_entry,
}

-- `m` calls no handler, whether it returns or throws.
pub record Quiet {ℓ} {A : Type ℓ} (m : Exec A) : Type ℓ where
  pub at : (s : State) → (m s).1.calls ≡ s.calls

-- `m` calls handlers in such a way that its result and the new calls satisfy `P`.
pub record Makes {ℓ} {A : Type ℓ} (m : Exec A) (P : Result A → List Call → Type 0) : Type ℓ where
  pub at : (s : State) → (made : List Call) × ((m s).1.calls ≡ s.calls ++ made) × P (m s).0 made

module _ {ℓ} {A : Type ℓ} where
  pub Quiet-lift : (r : Result A) → Quiet (lift r)
  Quiet-lift r = record { at = λ s. refl }

  pub Quiet-pure : (a : A) → Quiet (pure a)
  Quiet-pure a = record { at = λ s. refl }

  pub Quiet-throw : (e : Error) → Quiet (throw {A = A} e)
  Quiet-throw e = record { at = λ s. refl }

  pub Quiet-if : (b : Bool) {m n : Exec A} → Quiet m → Quiet n → Quiet (if b then m else n)
  Quiet-if true hm hn = hm
  Quiet-if false hm hn = hn

pub Quiet-emit : (p : Payload) → Quiet (emit p)
unfolding emit
Quiet-emit p = record { at = λ s. refl }

pub Quiet-record : (entry : Entry) → Quiet (record_entry entry)
unfolding record_entry
Quiet-record entry = record { at = λ s. refl }

module _ {ℓ κ} {A : Type ℓ} {B : Type κ} where
  Quiet-continue :
      (r : Result A) (f : A → Exec B) (s : State)
      → ((a : A) → Quiet (f a))
      → (continue r f s).1.calls ≡ s.calls
  Quiet-continue (ok a) f s h = (h a).at s
  Quiet-continue (err e) f s h = refl

  pub Quiet-bind :
      (m : Exec A) (f : A → Exec B) → Quiet m → ((a : A) → Quiet (f a)) → Quiet (m >>= f)
  unfolding ◌>>=◌
  Quiet-bind m f hm hf = record { at = λ s. Quiet-continue (m s).0 f (m s).1 hf ∙ hm.at s }

pub ruleset quiet_rules =
    (Quiet-lift, Quiet-pure, Quiet-throw, Quiet-if, Quiet-emit, Quiet-record, Quiet-bind)

module _ {ℓ κ} {A : Type ℓ} {B : Type κ} where
  continue-Makes :
      (P : Result B → List Call → Type 0) (r : Result A) (f : A → Exec B) (s s' : State)
      → s'.calls ≡ s.calls
      → ((e : Error) → P (err e) [])
      → ((a : A) → Makes (f a) P)
      → (made : List Call) × ((continue r f s').1.calls ≡ s.calls ++ made)
        × P (continue r f s').0 made
  continue-Makes P (ok a) f s s' same none hf =
      let (made, calls, post) = (hf a).at s' in
      (made, calls ∙ ap (λ (cs : List Call). cs ++ made) same, post)
  continue-Makes P (err e) f s s' same none hf = ([], same ∙ sym (append-nil s.calls), none e)

  -- A quiet step before an operation: if it throws, no handler is called.
  pub Makes-after_quiet :
      (P : Result B → List Call → Type 0) (m : Exec A) (f : A → Exec B)
      → Quiet m
      → ((e : Error) → P (err e) [])
      → ((a : A) → Makes (f a) P)
      → Makes (m >>= f) P
  unfolding ◌>>=◌
  Makes-after_quiet P m f quiet none hf = record {
    at = λ s. continue-Makes P (m s).0 f s (m s).1 (quiet.at s) none hf;
  }

  bind-continue :
      (P : Result A → List Call → Type 0) (Q : Result B → List Call → Type 0) (r : Result A)
      (f : A → Exec B) (s s' : State) (made : List Call)
      → s'.calls ≡ s.calls ++ made
      → P r made
      → ((e : Error) (cs : List Call) → P (err e) cs → Q (err e) cs)
      → ((a : A) (cs : List Call) → P (ok a) cs → Makes (f a) (λ r' ds. Q r' (cs ++ ds)))
      → (made' : List Call) × ((continue r f s').1.calls ≡ s.calls ++ made')
        × Q (continue r f s').0 made'
  bind-continue P Q (ok a) f s s' made calls p he hf =
      let (more, calls', q) = (hf a made p).at s' in
      (
        made ++ more,
        calls' ∙ ap (λ (cs : List Call). cs ++ more) calls ∙ append_assoc s.calls made more,
        q,
      )
  bind-continue P Q (err e) f s s' made calls p he hf = (made, calls, he e made p)

  -- Two operations in a row.
  pub Makes-bind :
      (P : Result A → List Call → Type 0) (Q : Result B → List Call → Type 0) (m : Exec A)
      (f : A → Exec B)
      → Makes m P
      → ((e : Error) (cs : List Call) → P (err e) cs → Q (err e) cs)
      → ((a : A) (cs : List Call) → P (ok a) cs → Makes (f a) (λ r ds. Q r (cs ++ ds)))
      → Makes (m >>= f) Q
  unfolding ◌>>=◌
  Makes-bind P Q m f hm he hf = record {
    at = λ s.
        let (made, calls, p) = hm.at s in bind-continue P Q (m s).0 f s (m s).1 made calls p he hf;
  }

module _ {ℓ} {A : Type ℓ} where
  -- A quiet operation makes no calls.
  pub Makes-quiet :
      (P : Result A → List Call → Type 0) (m : Exec A)
      → Quiet m
      → ((r : Result A) → P r [])
      → Makes m P
  Makes-quiet P m quiet h = record {
    at = λ s. ([], quiet.at s ∙ sym (append-nil s.calls), h (m s).0);
  }
