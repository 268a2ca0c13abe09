-- ===== src/Publication/Refs/Numbering.antt =====
-- publication.ts: references that are numbered in the order of their paths.
use nemoir_web_runtime.Prelude.{
  ℕ, suc, ◌+◌, ◌<◌, ◌≡◌, refl, sym, subst, ap, ◌∙◌, ◌⊎◌, inl, inr, Option, none, some, [], ◌∷◌,
  ◌++◌, length, arith, Bool-cases,
}
use nemoir_web_runtime.Js.Text.{JsString, codes, ◌==◌, eq_iff}
use nemoir_web_runtime.Js.Dict.{Dict, lookup, insert, lookup-insert}

some-same : {A : Type 0} {a b : A} → some a ≡ some b → a ≡ b
some-same h = cc

pub none-some : {A B : Type 0} {a : A} → none ≡ some a → B
none-some h = absurd (ground arith)

pub found-or_not :
    (k : JsString) (d : Dict JsString)
    → (lookup k d ≡ none) ⊎ ((r : JsString) × (lookup k d ≡ some r))
found-or_not k d = split (lookup k d) refl
  where
    split :
        (o : Option JsString)
        → lookup k d ≡ o
        → (lookup k d ≡ none) ⊎ ((r : JsString) × (lookup k d ≡ some r))
    split none e = inl e
    split (some r) e = inr (r, e)

module _ (decimal : ℕ → JsString) where
  abbrev pub numbered_path : ℕ → JsString
  numbered_path n = codes "path-" ++ decimal n

  -- The references are numbered in the order of the paths, from a number on.
  unfoldable pub Numbered : ℕ → Dict JsString → Type 0
  Numbered k [] = Unit
  Numbered k ((path, ref) ∷ d) = (ref ≡ numbered_path (suc k)) × Numbered (suc k) d

  insert-Numbered :
      (n k : ℕ) (path : JsString) (d : Dict JsString)
      → n ≡ k + length d + 1
      → lookup path d ≡ none
      → Numbered k d
      → Numbered k (insert path (numbered_path n) d)
  unfolding Numbered insert lookup
  insert-Numbered n k path [] e missing h = (ap numbered_path (omega (arith, e)), tt)
  insert-Numbered n k path ((p, r) ∷ d) e missing (same, h) = elim (Bool-cases (p == path)) [
    | inl x ↦ none-some (sym (rw x at missing))
    | inr x ↦ rw x (same, insert-Numbered n (suc k) path d (omega (arith, e)) (rw x at missing) h)
  ]

  number-of :
      (k : ℕ) (d : Dict JsString) (path ref : JsString)
      → Numbered k d
      → lookup path d ≡ some ref
      → (n : ℕ) × (k < n) × (ref ≡ numbered_path n)
  unfolding Numbered lookup
  number-of k [] path ref h e = none-some e
  number-of k ((p, r) ∷ d) path ref (same, h) e = elim (Bool-cases (p == path)) [
    | inl x ↦ (suc k, omega arith, sym (some-same (rw x at e)) ∙ same)
    | inr x ↦
        let (n, less, found) = number-of (suc k) d path ref h (rw x at e) in
        (n, omega (arith, less), found)
  ]

  numbered_path-injective :
      ((m n : ℕ) → decimal m ≡ decimal n → m ≡ n)
      → (m n : ℕ) → numbered_path m ≡ numbered_path n
      → m ≡ n
  numbered_path-injective inj m n e = inj m n (ground (arith, e))

  -- Two paths with one reference are the same path.
  pub injective :
      ((m n : ℕ) → decimal m ≡ decimal n → m ≡ n)
      → (k : ℕ) (d : Dict JsString) (p q ref : JsString) → Numbered k d
      → lookup p d ≡ some ref
      → lookup q d ≡ some ref
      → p ≡ q
  unfolding Numbered lookup
  injective inj k [] p q ref h a b = none-some a
  injective inj k ((i, r) ∷ d) p q ref (same, h) a b = elim (Bool-cases (i == p)) [
    | inl x ↦ elim (Bool-cases (i == q)) [
      | inl y ↦ ground (arith, eq_iff i p, eq_iff i q)
      | inr y ↦ absurd (
          apart (suc k) r (sym (some-same (rw x at a))) same
            (number-of (suc k) d q ref h (rw y at b)))
    ]
    | inr x ↦ elim (Bool-cases (i == q)) [
      | inl y ↦ absurd (
          apart (suc k) r (sym (some-same (rw y at b))) same
            (number-of (suc k) d p ref h (rw x at a)))
      | inr y ↦ injective inj (suc k) d p q ref h (rw x at a) (rw y at b)
    ]
  ]
    where
      apart :
          (j : ℕ) (r : JsString)
          → ref ≡ r
          → r ≡ numbered_path j
          → (n : ℕ) × (j < n) × (ref ≡ numbered_path n)
          → ⊥
      apart j r e f (n, less, g) =
          absurd (ground (arith, less, numbered_path-injective inj j n (sym f ∙ sym e ∙ g)))

  -- Later references: they are still numbered, and a path that had one has kept it.
  pub record Grows (d later : Dict JsString) : Type 0 where
    pub numbered : Numbered 0 d → Numbered 0 later
    pub kept : (p r : JsString) → lookup p d ≡ some r → lookup p later ≡ some r

  pub Grows-refl : (d : Dict JsString) → Grows d d
  Grows-refl d = record { numbered = λ h. h; kept = λ p r e. e }

  pub Grows-trans : (a b c : Dict JsString) → Grows a b → Grows b c → Grows a c
  Grows-trans a b c g h = record {
    numbered = λ n. h.numbered (g.numbered n);
    kept = λ p r e. h.kept p r (g.kept p r e);
  }

  pub insert-Grows :
      (path : JsString) (d : Dict JsString)
      → lookup path d ≡ none
      → Grows d (insert path (numbered_path (length d + 1)) d)
  insert-Grows path d missing = record {
    numbered = insert-Numbered (length d + 1) 0 path d (omega arith) missing;
    kept = λ p r e. elim (Bool-cases (path == p)) [
      | inl x ↦
          none-some (sym missing ∙ subst (λ q. lookup q d ≡ some r) (sym ((eq_iff path p).0 x)) e)
      | inr x ↦ lookup-insert path p _ d ∙ rw x e
    ];
  }
