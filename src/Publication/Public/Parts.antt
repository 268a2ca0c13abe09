-- ===== src/Publication/Public/Parts.antt =====
-- publication.ts: the keys and fields of dictionaries that the projection changes.
use nemoir_web_runtime.Prelude.{
  ℕ, ◌≡◌, refl, sym, ap, ◌∙◌, subst, inl, inr, Bool, true, false, List, [], ◌∷◌, arith,
  if◌then◌else◌, All, Bool-cases, every,
}
use nemoir_web_runtime.Errors.{Result, ok, err, ◌>>◌, bind-eq-ok}
use nemoir_web_runtime.Js.Text.{JsString, codes, ◌==◌, contains, eq_iff, eq_refl}
use nemoir_web_runtime.Js.Value.{Value, undefined, str, obj, Fields, fields}
use nemoir_web_runtime.Js.Dict.{Dict, has, get, keys, insert, keys-insert, get-insert, lookup}
use nemoir_web_runtime.Publication.{public_event_keys, public_args_keys}
use nemoir_web_runtime.Publication.Shape.{
  validate_record_shape, require_keys, check, check_arguments,
}
use nemoir_web_runtime.Publication.Project.{delete, make_fields, recognised}

abbrev pub EventKey : JsString → Type 0
EventKey k = contains public_event_keys k ≡ true

abbrev pub ArgsKey : JsString → Type 0
ArgsKey k = contains public_args_keys k ≡ true

-- Arguments of the recognised names, without a path where paths are hidden.
pub record PublicArgs (keep : Bool) (args : Dict Value) : Type 0 where
  pub names : All ArgsKey (keys args)
  pub no_path : keep ≡ false → (path : JsString) → get (codes "path") args ≡ str path → ⊥

-- A record with recognised fields only, of the public run, with a tool name only if it is allowed, and
-- with public arguments.
pub record IsPublic (allowed : List JsString) (keep : Bool) (run_id : JsString) (event : Dict Value)
    : Type 0 where
  pub names : All EventKey (keys event)
  pub run : get (codes "run_id") event ≡ str run_id
  pub tool :
      (name : JsString) → get (codes "tool_name") event ≡ str name → contains allowed name ≡ true
  pub args :
      (i : ℕ) (fs : Fields) → get (codes "args") event ≡ obj i fs → PublicArgs keep (fields fs)

pub fields-make_fields : (d : Dict Value) → fields (make_fields d) ≡ d
unfolding fields make_fields
fields-make_fields [] = refl
fields-make_fields ((k, v) ∷ d) = ap (λ (r : Dict Value). (k, v) ∷ r) (fields-make_fields d)

pub keys-delete :
    (P : JsString → Type 0) (k : JsString) (d : Dict Value)
    → All P (keys d)
    → All P (keys (delete k d))
unfolding keys delete
keys-delete P k [] h = tt
keys-delete P k ((j, v) ∷ d) (p, h) = elim (Bool-cases (j == k)) [
  | inl e ↦ rw e (keys-delete P k d h)
  | inr e ↦ rw e (p, keys-delete P k d h)
]

pub get-delete :
    (k j : JsString) (d : Dict Value) → get j (delete k d) ≡ (if k == j then undefined else get j d)
unfolding get lookup delete
get-delete k j [] = ground arith
get-delete k j ((i, v) ∷ d) = ground (arith, get-delete k j d, eq_iff i k, eq_iff i j, eq_iff k j)

pub recognised-keys :
    (args projected : Dict Value)
    → All ArgsKey (keys projected)
    → All ArgsKey (keys (recognised args projected))
unfolding recognised
recognised-keys [] projected h = h
recognised-keys ((k, v) ∷ args) projected h = elim (Bool-cases (contains public_args_keys k)) [
  | inl e ↦ rw e (recognised-keys args _ (keys-insert ArgsKey k v projected e h))
  | inr e ↦ rw e (recognised-keys args projected h)
]

pub path_ref-ArgsKey : ArgsKey (codes "path_ref")
unfolding contains ◌==◌ public_args_keys
path_ref-ArgsKey = refl

pub run_id-EventKey : EventKey (codes "run_id")
unfolding contains ◌==◌ public_event_keys
run_id-EventKey = refl

pub args-EventKey : EventKey (codes "args")
unfolding contains ◌==◌ public_event_keys
args-EventKey = refl

pub redacted_fields-EventKey : EventKey (codes "redacted_fields")
unfolding contains ◌==◌ public_event_keys
redacted_fields-EventKey = refl

pub get-insert_other :
    (k j : JsString) (v : Value) (d : Dict Value)
    → (k == j) ≡ false
    → get j (insert k v d) ≡ get j d
get-insert_other k j v d h = get-insert k j v d ∙ rw h refl

pub get-insert_same : (k : JsString) (v : Value) (d : Dict Value) → get k (insert k v d) ≡ v
get-insert_same k v d = get-insert k k v d ∙ rw (eq_refl k) refl

pub get-delete_other :
    (k j : JsString) (d : Dict Value) → (k == j) ≡ false → get j (delete k d) ≡ get j d
get-delete_other k j d h = get-delete k j d ∙ rw h refl

pub get-delete_same : (k : JsString) (d : Dict Value) → get k (delete k d) ≡ undefined
get-delete_same k d = get-delete k k d ∙ rw (eq_refl k) refl

pub undefined-str : {s : JsString} → undefined ≡ str s → ⊥
undefined-str h = ground arith

pub str-injective : {s t : JsString} → str s ≡ str t → s ≡ t
str-injective h = cc

pub obj-fields : {i j : ℕ} {fs gs : Fields} → obj i fs ≡ obj j gs → fs ≡ gs
obj-fields h = cc

-- The path gives way to an opaque reference.
pub hide-Public :
    (keep : Bool) (ref : JsString) (d : Dict Value)
    → All ArgsKey (keys d)
    → PublicArgs keep (insert (codes "path_ref") (str ref) (delete (codes "path") d))
unfolding ◌==◌
hide-Public keep ref d h = record {
  names =
      keys-insert ArgsKey (codes "path_ref") (str ref) (delete (codes "path") d) path_ref-ArgsKey
        (keys-delete ArgsKey (codes "path") d h);
  no_path = λ k p q.
      let gone : get (codes "path") (insert (codes "path_ref") (str ref) (delete (codes "path") d))
          ≡ undefined =
        get-insert_other (codes "path_ref") (codes "path") (str ref) (delete (codes "path") d) refl
        ∙ get-delete_same (codes "path") d in
      undefined-str (sym gone ∙ q);
}

-- The arguments of a record into which they were put.
pub made-Public :
    (keep : Bool) (args : Dict Value) (j : ℕ) (d : Dict Value) (i : ℕ) (fs : Fields)
    → get (codes "args") (insert (codes "args") (obj j (make_fields args)) d) ≡ obj i fs
    → PublicArgs keep args
    → PublicArgs keep (fields fs)
made-Public keep args j d i fs h p =
    let same = obj-fields (sym (get-insert_same (codes "args") (obj j (make_fields args)) d) ∙ h) in
    subst (PublicArgs keep) (sym (fields-make_fields args) ∙ ap fields same) p

pub ok-same : {A : Type 0} {a b : A} → ok a ≡ ok b → a ≡ b
ok-same h = cc

pub check-ok : (b : Bool) → check b ≡ ok tt → b ≡ true
check-ok true h = refl
check-ok false h = absurd (ground arith)

pub every-All :
    (ks : List JsString) → every (contains public_event_keys) ks ≡ true → All EventKey ks
every-All [] h = tt
every-All (k ∷ ks) h = (ground arith, every-All ks (ground arith))

-- The first step of a chain that succeeds does.
pub chain-first :
    (a b c d : Result (Unit {0})) (e : Result (List JsString)) {x : List JsString}
    → (a >> b >> c >> d >> e) ≡ ok x
    → a ≡ ok tt
chain-first (ok u) b c d e h = refl
chain-first (err thrown) b c d e h = absurd (ground arith)

abbrev pub required_event_keys : List JsString
required_event_keys =
    codes "kind" ∷ codes "run_id" ∷ codes "timestamp" ∷ codes "redacted_fields" ∷ []

pub shape-require_keys :
    (event : Dict Value) (pointers : List JsString) {all_pointers : List JsString}
    → validate_record_shape event pointers ≡ ok all_pointers
    → require_keys event public_event_keys required_event_keys ≡ ok tt
unfolding validate_record_shape
shape-require_keys event pointers h =
    chain-first (require_keys event public_event_keys required_event_keys) _ _ _
      (check_arguments (get (codes "args") event) pointers) h

pub names-known :
    (node : Dict Value) (required : List JsString)
    → require_keys node public_event_keys required ≡ ok tt
    → All EventKey (keys node)
unfolding require_keys
names-known node required h =
    let (u, present, known) =
      bind-eq-ok (check (every (λ key. has key node) required))
        (λ v. check (every (contains public_event_keys) (keys node))) h in
    every-All (keys node) (check-ok _ known)
