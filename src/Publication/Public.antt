-- ===== src/Publication/Public.antt =====
-- publication.ts: what is left in a projected record.
pub mod Parts
use nemoir_web_runtime.Prelude.{
  ℕ, ◌≡◌, refl, sym, ap, ◌∙◌, subst, inl, inr, true, false, List, [], ◌∷◌, arith, All, Bool-cases,
}
use nemoir_web_runtime.Errors.{ok, bind-eq-ok}
use nemoir_web_runtime.Js.Text.{JsString, codes, ◌==◌, contains}
use nemoir_web_runtime.Js.Value.{Value, str, obj, host, Fields, fields}
use nemoir_web_runtime.Js.Dict.{Dict, get, keys, insert, keys-insert}
use nemoir_web_runtime.Publication.Shape.{as_string_list, validate_record_shape}
use nemoir_web_runtime.Publication.Project.{
  ProjectionState, recognised, hide_path, on_path, project_args, project_tool, project_arguments,
  finish_record, with_pointers, project_record, with_run_id,
}
use nemoir_web_runtime.Publication.Public.Parts.{
  EventKey, ArgsKey, PublicArgs, IsPublic, keys-delete, recognised-keys, run_id-EventKey,
  args-EventKey, redacted_fields-EventKey, get-insert_other, get-insert_same, get-delete_other,
  get-delete_same, undefined-str, str-injective, hide-Public, made-Public, ok-same,
  required_event_keys, shape-require_keys, names-known,
}

module _ (decimal : ℕ → JsString) (copied : ℕ → ℕ) (listed : ℕ) where
  on_path-Public :
      (v : Value) (projected : Dict Value) (state : ProjectionState) (pointers : List JsString)
      → get (codes "path") projected ≡ v
      → All ArgsKey (keys projected)
      → PublicArgs state.keep_relative_paths
          (on_path decimal copied listed v projected state pointers).0
  unfolding on_path hide_path ◌==◌
  on_path-Public (str path) projected state pointers e h =
      elim (Bool-cases state.keep_relative_paths) [
        | inl keep ↦ rw keep (record { names = h; no_path = λ k p q. absurd (ground arith) })
        | inr hide ↦ rw hide (hide-Public _ _ projected h)
      ]
  on_path-Public v projected state pointers e h = record {
    names = h;
    no_path = λ k path p. ground arith;
  }

  -- What the lines after the first leave alone.
  record Kept (run_id : JsString) (event : Dict Value) : Type 0 where
    names : All EventKey (keys event)
    run : get (codes "run_id") event ≡ str run_id

  tool-Kept :
      (v : Value) (d : Dict Value) (state : ProjectionState) (pointers : List JsString)
      (run_id : JsString)
      → Kept run_id d
      → Kept run_id (project_tool decimal copied listed v d state pointers).0
  unfolding project_tool ◌==◌
  tool-Kept (str name) d state pointers run_id k =
      elim (Bool-cases (contains state.allow_tool_names name)) [
        | inl a ↦ rw a k
        | inr a ↦ rw a (record {
          names = keys-delete EventKey (codes "tool_name") d k.names;
          run = get-delete_other (codes "tool_name") (codes "run_id") d refl ∙ k.run;
        })
      ]
  tool-Kept v d state pointers run_id k = k

  tool-allowed :
      (v : Value) (d : Dict Value) (state : ProjectionState) (pointers : List JsString)
      (name : JsString)
      → get (codes "tool_name") d ≡ v
      → get (codes "tool_name") (project_tool decimal copied listed v d state pointers).0 ≡ str name
      → contains state.allow_tool_names name ≡ true
  unfolding project_tool
  tool-allowed (str n) d state pointers name e h =
      elim (Bool-cases (contains state.allow_tool_names n)) [
        | inl a ↦
            let same : str n ≡ str name = sym e ∙ (rw a at h) in
            subst (λ x. contains state.allow_tool_names x ≡ true) (str-injective same) a
        | inr a ↦ absurd (undefined-str (sym (get-delete_same (codes "tool_name") d) ∙ (rw a at h)))
      ]
  tool-allowed v d state pointers name e h = absurd (ground arith)

  args-Kept :
      (v : Value) (d : Dict Value) (state : ProjectionState) (pointers : List JsString)
      (run_id : JsString)
      → Kept run_id d
      → Kept run_id (project_arguments decimal copied listed v d state pointers).0
  unfolding project_arguments ◌==◌
  args-Kept (obj i fs) d state pointers run_id k = record {
    names = keys-insert EventKey (codes "args") _ d args-EventKey k.names;
    run = get-insert_other (codes "args") (codes "run_id") _ d refl ∙ k.run;
  }
  args-Kept (host i fs) d state pointers run_id k = record {
    names = keys-insert EventKey (codes "args") _ d args-EventKey k.names;
    run = get-insert_other (codes "args") (codes "run_id") _ d refl ∙ k.run;
  }
  args-Kept v d state pointers run_id k = k

  args-Public :
      (v : Value) (d : Dict Value) (state : ProjectionState) (pointers : List JsString)
      → get (codes "args") d ≡ v
      → (i : ℕ) (fs : Fields)
      → get (codes "args") (project_arguments decimal copied listed v d state pointers).0 ≡ obj i fs
      → PublicArgs state.keep_relative_paths (fields fs)
  unfolding project_arguments project_args keys
  args-Public (obj j gs) d state pointers e i fs h =
      made-Public state.keep_relative_paths _ _ d i fs h (
        on_path-Public _ (recognised (fields gs) []) state pointers refl
          (recognised-keys (fields gs) [] tt))
  args-Public (host j gs) d state pointers e i fs h =
      made-Public state.keep_relative_paths _ _ d i fs h (
        on_path-Public _ (recognised (fields gs) []) state pointers refl
          (recognised-keys (fields gs) [] tt))
  args-Public v d state pointers e i fs h = absurd (ground arith)

  args-tool :
      (v : Value) (d : Dict Value) (state : ProjectionState) (pointers : List JsString)
      → get (codes "tool_name") (project_arguments decimal copied listed v d state pointers).0
        ≡ get (codes "tool_name") d
  unfolding project_arguments ◌==◌
  args-tool (obj i fs) d state pointers =
      get-insert_other (codes "args") (codes "tool_name") _ d refl
  args-tool (host i fs) d state pointers =
      get-insert_other (codes "args") (codes "tool_name") _ d refl
  args-tool v d state pointers = refl

  tool-keep :
      (v : Value) (d : Dict Value) (state : ProjectionState) (pointers : List JsString)
      → (project_tool decimal copied listed v d state pointers).2.keep_relative_paths
        ≡ state.keep_relative_paths
  unfolding project_tool
  tool-keep (str n) d state pointers = elim (Bool-cases (contains state.allow_tool_names n)) [
    | inl a ↦ rw a refl
    | inr a ↦ rw a refl
  ]
  tool-keep v d state pointers = refl

  finished-get :
      (pointers : List JsString) (d : Dict Value) (k : JsString)
      → (codes "redacted_fields" == k) ≡ false
      → get k (with_pointers decimal copied listed pointers d) ≡ get k d
  finished-get [] d k h = refl
  finished-get (p ∷ ps) d k h = get-insert_other (codes "redacted_fields") k _ d h

  finished-names :
      (pointers : List JsString) (d : Dict Value)
      → All EventKey (keys d)
      → All EventKey (keys (with_pointers decimal copied listed pointers d))
  finished-names [] d h = h
  finished-names (p ∷ ps) d h =
      keys-insert EventKey (codes "redacted_fields") _ d redacted_fields-EventKey h

  module _ (event : Dict Value) (state : ProjectionState) (run_id : JsString) where
    abbrev started : Dict Value
    started = insert (codes "run_id") (str run_id) event

    abbrev named : List JsString → Dict Value × List JsString × ProjectionState
    named pointers =
        project_tool decimal copied listed (get (codes "tool_name") started) started state pointers

    abbrev argued : List JsString → Dict Value × List JsString × ProjectionState
    argued pointers =
        project_arguments decimal copied listed (get (codes "args") (named pointers).0)
          (named pointers).0 (named pointers).2 (named pointers).1

    finished-IsPublic :
        (pointers : List JsString)
        → All EventKey (keys event)
        → IsPublic state.allow_tool_names state.keep_relative_paths run_id
            (finish_record decimal copied listed (argued pointers)).0
    unfolding finish_record ◌==◌
    finished-IsPublic pointers h =
        let begun : Kept run_id started = record {
          names = keys-insert EventKey (codes "run_id") (str run_id) event run_id-EventKey h;
          run = get-insert_same (codes "run_id") (str run_id) event;
        } in
        let kept =
          args-Kept (get (codes "args") (named pointers).0) (named pointers).0 (named pointers).2
            (named pointers).1 run_id
            (tool-Kept (get (codes "tool_name") started) started state pointers run_id begun) in
        record {
          names = finished-names (argued pointers).1 (argued pointers).0 kept.names;
          run =
              finished-get (argued pointers).1 (argued pointers).0 (codes "run_id") refl ∙ kept.run;
          tool = λ name e.
              tool-allowed (get (codes "tool_name") started) started state pointers name refl (
                sym (
                  args-tool (get (codes "args") (named pointers).0) (named pointers).0
                    (named pointers).2 (named pointers).1)
                ∙ sym
                    (finished-get (argued pointers).1 (argued pointers).0 (codes "tool_name") refl)
                ∙ e);
          args = λ i fs e.
              subst (λ keep. PublicArgs keep (fields fs))
                (tool-keep (get (codes "tool_name") started) started state pointers)
                (args-Public (get (codes "args") (named pointers).0) (named pointers).0
                  (named pointers).2 (named pointers).1 refl i fs
                  (sym (finished-get (argued pointers).1 (argued pointers).0 (codes "args") refl)
                    ∙ e));
        }

    project_record-IsPublic :
        (out : Dict Value) (after : ProjectionState)
        → project_record decimal copied listed event state run_id ≡ ok (out, after)
        → IsPublic state.allow_tool_names state.keep_relative_paths run_id out
    unfolding project_record
    project_record-IsPublic out after h =
        let (pointers, read, h1) = bind-eq-ok (as_string_list _) _ h in
        let (more, shaped, h2) = bind-eq-ok (validate_record_shape event pointers) _ h1 in
        subst (IsPublic state.allow_tool_names state.keep_relative_paths run_id)
          (ap (λ (r : Dict Value × ProjectionState). r.0) (ok-same h2))
          (finished-IsPublic more
            (names-known event required_event_keys (shape-require_keys event pointers shaped)))

    -- A record that is published has only fields of the public schema, and for its run id the identity of
    -- the publication; its tool name, where it is a string, is an allowed one; and where its arguments are
    -- an object, only names of the public schema are left in it, and no path in clear unless relative
    -- paths are kept.
    pub with_run_id-IsPublic :
        (out : Dict Value) (after : ProjectionState) (trace_id : JsString)
        → project_record decimal copied listed event state run_id ≡ ok (out, after)
        → IsPublic state.allow_tool_names state.keep_relative_paths trace_id
            (with_run_id trace_id out)
    unfolding with_run_id ◌==◌
    with_run_id-IsPublic out after trace_id h =
        let projected = project_record-IsPublic out after h in
        record {
          names =
              keys-insert EventKey (codes "run_id") (str trace_id) out run_id-EventKey
                projected.names;
          run = get-insert_same (codes "run_id") (str trace_id) out;
          tool = λ name e.
              projected.tool name
                (sym (get-insert_other (codes "run_id") (codes "tool_name") _ out refl) ∙ e);
          args = λ i fs e.
              projected.args i fs
                (sym (get-insert_other (codes "run_id") (codes "args") _ out refl) ∙ e);
        }
