-- ===== src/Models/Output/Valid.antt =====
-- A stage's output that the model layer lets through, against the check of runtime.ts.
use nemoir_web_runtime.Prelude.{
  ℕ, ◌≡◌, refl, sym, ap, ◌∙◌, subst, inl, inr, Bool, true, false, not, ◌&&◌, some, List, [], ◌∷◌,
  map, arith, All, Bool-cases, every, some_of,
}
use nemoir_web_runtime.Errors.{Result, ok, ◌>>◌, bind-eq-ok}
use nemoir_web_runtime.Js.Text.{JsString, codes, ◌==◌, contains, eq_iff, eq_refl}
use nemoir_web_runtime.Js.Value.{Value, bool, num, str, arr, items, is_nullish, is_number}
use nemoir_web_runtime.Js.Dict.{keys-insert, Dict, get, insert, keys, lookup-insert}
use nemoir_web_runtime.Manifest.{WriteSpec, StageSpec}
use nemoir_web_runtime.Output.{write_name, validate_output}
use nemoir_web_runtime.Output.WriteType.{
  is_string, WriteType, text, boolean, number, strings, json, write_type, HasType, of_text, of_bool,
  of_number, of_strings, of_json, IsText, is_text,
}
use nemoir_web_runtime.Output.Validation.{
  Satisfies, typed, json_null, left_out, validate_output_iff,
}
use nemoir_web_runtime.Models.Output
use nemoir_web_runtime.Models.Output.{
  is_bool, lone_text, every_item, some_item, check, known_keys, normalize_write_value,
  normalize_present, normalize_fields, normalize_stage_output,
}
use nemoir_web_runtime.Models.Output.Safe.{lone_surrogates_agree, is_model_json_safe_value-eq}

check-ok : (b : Bool) → check b ≡ ok tt → b ≡ true
check-ok true h = refl
check-ok false h = absurd (ground arith)

-- A check that precedes a result holds where the result is reached.
guarded :
    {A : Type 0} (b : Bool) (rest : Result A) {out : A}
    → (check b >> rest) ≡ ok out
    → (b ≡ true) × (rest ≡ ok out)
guarded true rest h = (refl, h)
guarded false rest h = absurd (ground arith)

guarded_twice :
    {A : Type 0} (a b : Bool) (rest : Result A) {out : A}
    → (check a >> check b >> rest) ≡ ok out
    → (a ≡ true) × (b ≡ true) × (rest ≡ ok out)
guarded_twice true true rest h = (refl, refl, h)
guarded_twice true false rest h = absurd (ground arith)
guarded_twice false b rest h = absurd (ground arith)

ok-injective : {A : Type 0} {a b : A} → ok a ≡ ok b → a ≡ b
ok-injective h = cc

model_text : (v : Value) → is_string v ≡ true → not (lone_text v) ≡ true → IsText v
model_text (str s) h k = is_text (ground (arith, lone_surrogates_agree s))
model_text v h k = absurd (ground arith)

model_texts :
    (vs : List Value)
    → every is_string vs ≡ true
    → not (some_of lone_text vs) ≡ true
    → All IsText vs
model_texts [] h k = tt
model_texts (v ∷ vs) h k =
    (model_text v (ground arith) (ground arith), model_texts vs (ground arith) (ground arith))

-- No name occurs twice.
unfoldable pub has_distinct : List JsString → Bool
has_distinct [] = true
has_distinct (name ∷ names) = not (contains names name) && has_distinct names

contains-there :
    (ws : List WriteSpec) (n : JsString) (names : List JsString)
    → All (λ w. contains names w.name ≡ true) ws
    → All (λ w. contains (n ∷ names) w.name ≡ true) ws
unfolding contains
contains-there [] n names h = tt
contains-there (w ∷ ws) n names (k, h) = (ground arith, contains-there ws n names h)

names-known : (ws : List WriteSpec) → All (λ w. contains (map write_name ws) w.name ≡ true) ws
unfolding contains
names-known [] = tt
names-known (w ∷ ws) = (ground (arith, eq_refl w.name), contains-there ws w.name _ (names-known ws))

get-insert_other :
    (j k : JsString) (v : Value) (d : Dict Value)
    → (j == k) ≡ false
    → get k (insert j v d) ≡ get k d
unfolding get
get-insert_other j k v d h = ground (arith, lookup-insert j k v d)

get-insert_self : (k : JsString) (v : Value) (d : Dict Value) → get k (insert k v d) ≡ v
unfolding get
get-insert_self k v d = ground (arith, lookup-insert k k v d, eq_refl k)

known_type :
    (t lit : JsString) (w : WriteType)
    → (t == lit) ≡ true
    → write_type lit ≡ some w
    → write_type t ≡ some w
known_type t lit w h e = rw ((eq_iff t lit).0 h) e

bool_typed : (v : Value) → is_bool v ≡ true → HasType boolean v
bool_typed (bool b) h = of_bool
bool_typed v h = absurd (ground arith)

number_typed : (v : Value) → is_number v ≡ true → HasType number v
number_typed (num n) h = of_number
number_typed v h = absurd (ground arith)

module _ (copied : ℕ → ℕ) where
  strings_typed :
      (v : Value)
      → every_item is_string v ≡ true
      → not (some_item lone_text v) ≡ true
      → HasType strings (Output.copy copied v)
  strings_typed (arr i xs) h k = of_strings (model_texts (items xs) h k)
  strings_typed v h k = absurd (ground arith)

  -- What the check of a value lets through has the declared type.
  write_value-typed :
      (w : WriteSpec) (val : Value) {out : Value}
      → normalize_write_value copied w val ≡ ok out
      → (t : WriteType) × (write_type w.type ≡ some t) × HasType t out
  unfolding normalize_write_value write_type ◌==◌
  write_value-typed w val {out} h = elim (Bool-cases (w.type == codes "string")) [
    | inl e ↦
        let (s, l, h2) = guarded_twice _ _ _ (rw e at h) in
        (
          text,
          known_type w.type _ text e refl,
          subst (HasType text) (ok-injective h2) (of_text (model_text val s l)),
        )
    | inr e ↦ elim (Bool-cases (w.type == codes "bool")) [
      | inl e1 ↦
          let (s, h1) = guarded _ _ (rw (e, e1) at h) in
          (
            boolean,
            known_type w.type _ boolean e1 refl,
            subst (HasType boolean) (ok-injective h1) (bool_typed val s),
          )
      | inr e1 ↦ elim (Bool-cases (w.type == codes "number")) [
        | inl e2 ↦
            let (s, h1) = guarded _ _ (rw (e, e1, e2) at h) in
            (
              number,
              known_type w.type _ number e2 refl,
              subst (HasType number) (ok-injective h1) (number_typed val s),
            )
        | inr e2 ↦ elim (Bool-cases (w.type == codes "string[]")) [
          | inl e3 ↦
              let (s, l, h2) = guarded_twice _ _ _ (rw (e, e1, e2, e3) at h) in
              (
                strings,
                known_type w.type _ strings e3 refl,
                subst (HasType strings) (ok-injective h2) (strings_typed val s l),
              )
          | inr e3 ↦ elim (Bool-cases (w.type == codes "json")) [
            | inl e4 ↦
                let (s, h1) = guarded _ _ (rw (e, e1, e2, e3, e4) at h) in
                (
                  json,
                  known_type w.type _ json e4 refl,
                  subst (HasType json) (ok-injective h1)
                      (of_json (sym (is_model_json_safe_value-eq val) ∙ s)),
                )
            | inr e4 ↦ absurd (ground arith)
          ]
        ]
      ]
    ]
  ]

  copy-nullish : (v : Value) → is_nullish (Output.copy copied v) ≡ is_nullish v
  copy-nullish (arr i xs) = refl
  copy-nullish v = refl

  write_value-nullish :
      (w : WriteSpec) (val : Value) {out : Value}
      → normalize_write_value copied w val ≡ ok out
      → is_nullish out ≡ is_nullish val
  unfolding normalize_write_value
  write_value-nullish w val {out} h = ground (arith, copy-nullish val)

  module _ (raw : Dict Value) where
    -- A round that succeeds stores a value that the declaration allows.
    present-Satisfies :
        (w : WriteSpec) (val : Value) {out : Value}
        → normalize_present copied w val ≡ ok out
        → Satisfies w out
    unfolding normalize_present
    present-Satisfies w val {out} h = elim (Bool-cases (is_nullish val)) [
      | inl n ↦
          let (allowed, same) = guarded _ _ (rw n at h) in
          subst (Satisfies w) (ok-injective same) (elim (Bool-cases w.optional) [
            | inl o ↦ left_out o refl
            | inr o ↦ json_null refl ((eq_iff w.type (codes "json")).0 (ground arith))
          ])
      | inr n ↦
          let kept = rw n at h in
          let (t, known, typ) = write_value-typed w val kept in
          typed (write_value-nullish w val kept ∙ n) known typ
    ]

    -- A field that no write of the list names stays as it is.
    fields-other :
        (ws : List WriteSpec) (k : JsString) (acc : Dict Value) {out : Dict Value}
        → contains (map write_name ws) k ≡ false
        → normalize_fields copied ws raw acc ≡ ok out
        → get k out ≡ get k acc
    unfolding normalize_fields contains
    fields-other [] k acc n h = ap (get k) (sym (ok-injective h))
    fields-other (w ∷ ws) k acc n h =
        let (v, stored, later) = bind-eq-ok (normalize_present copied w _) _ h in
        fields-other ws k _ (ground arith) later ∙ get-insert_other w.name k v acc (ground arith)

    fields-keys :
        (allowed : List JsString) (ws : List WriteSpec) (acc : Dict Value) {out : Dict Value}
        → All (λ w. contains allowed w.name ≡ true) ws
        → All (λ k. contains allowed k ≡ true) (keys acc)
        → normalize_fields copied ws raw acc ≡ ok out
        → All (λ k. contains allowed k ≡ true) (keys out)
    unfolding normalize_fields
    fields-keys allowed [] acc known started h =
        subst (λ d. All (λ k. contains allowed k ≡ true) (keys d)) (ok-injective h) started
    fields-keys allowed (w ∷ ws) acc (k, known) started h =
        let (v, stored, later) = bind-eq-ok (normalize_present copied w _) _ h in
        fields-keys allowed ws _ known
          (keys-insert (λ k. contains allowed k ≡ true) w.name v acc k started) later

    -- The second loop, over writes of distinct names, stores an allowed value under each of them.
    fields-Satisfies :
        (ws : List WriteSpec) (acc : Dict Value) {out : Dict Value}
        → has_distinct (map write_name ws) ≡ true
        → normalize_fields copied ws raw acc ≡ ok out
        → All (λ w. Satisfies w (get w.name out)) ws
    unfolding normalize_fields has_distinct
    fields-Satisfies [] acc d h = tt
    fields-Satisfies (w ∷ ws) acc d h =
        let (v, stored, later) = bind-eq-ok (normalize_present copied w _) _ h in
        let kept = fields-other ws w.name _ (ground arith) later ∙ get-insert_self w.name v acc in
        (
          subst (Satisfies w) (sym kept) (present-Satisfies w _ stored),
          fields-Satisfies ws _ (ground arith) later,
        )

  -- Where the writes of a stage have distinct names, an output that the model layer accepts passes the
  -- check that the runtime runs on the output of every stage.
  pub normalize_stage_output-validate_output :
      (stage : StageSpec) (raw : Dict Value) {out : Dict Value}
      → has_distinct (map write_name stage.writes) ≡ true
      → normalize_stage_output copied stage raw ≡ ok out
      → validate_output stage out ≡ ok tt
  unfolding normalize_stage_output keys
  normalize_stage_output-validate_output stage raw d h =
      let (u, known, stored) = bind-eq-ok (known_keys _ (keys raw)) _ h in
      (validate_output_iff stage _).1 (
        fields-keys raw _ stage.writes [] (names-known stage.writes) tt stored,
        fields-Satisfies raw stage.writes [] d stored,
      )
