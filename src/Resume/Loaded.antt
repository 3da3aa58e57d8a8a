-- ===== src/Resume/Loaded.antt =====
-- What the settings of a resumed turn (scripts/source/resume_settings.go) rest on.
use codex_auto_retry.Prelude.{
  ◌≡◌, ◌⊎◌, refl, sym, arith, String, Bool, true, Option, none, some, inl, inr, ap, ◌∙◌,
}
use codex_auto_retry.Resume.{ResumeSettings}
use codex_auto_retry.Resume.Search.{
  Bytes, FoundLine, nothing, too_long, line, prefix_bytes, max_line_bytes,
}
use codex_auto_retry.Resume.Search.Lines.{lines, latest}
use codex_auto_retry.Resume.Search.Latest.{find_latest_matching_line-latest}
use codex_auto_retry.Resume.Settings.{
  TurnContext, AppliedSettings, validate_resume_settings, validated, and_then, context_of,
  with_applied, parse_resume_settings, load_latest_resume_settings, has_turn_context_type,
  has_thread_settings_applied_type,
}
use codex_auto_retry.Resume.Access.{
  validated-valid, parse_resume_settings-roots, parse_resume_settings-full,
  merge_applied_thread_settings-roots, merge_applied_thread_settings-full, permissions_of, roots_of,
}

-- The line is of its kind, and says so.
abbrev Says : {A : Type 0} → (Bytes → Option A) → FoundLine → A → Type 0
Says decode found a = (l : Bytes) × (found ≡ line l) × (decode l ≡ some a)

-- The last line of its kind says so.
abbrev pub LastSays : {A : Type 0} → (Bytes → Bool) → (Bytes → Option A) → Bytes → A → Type 0
LastSays matches decode file = Says decode (latest matches prefix_bytes max_line_bytes (lines file))

-- What gives a thread full access: the sandbox of its turn, or the profile that was applied.
abbrev pub GivesFullAccess : (AppliedSettings → Type 0) → TurnContext → Type 0
GivesFullAccess Said context =
    (context.sandbox_type ≡ "danger-full-access")
    ⊎ ((applied : AppliedSettings) × Said applied
        × (applied.profile_id ≡ some ":danger-full-access"))

-- What holds of settings that are loaded, by what the file says of the last turn and of what was applied.
pub record IsLoaded (is_abs : String → Bool) (Context : TurnContext → Type 0)
    (Applied : AppliedSettings → Type 0) (s : ResumeSettings) : Type 0 where
  pub valid : validate_resume_settings is_abs s ≡ true
  pub context : TurnContext
  pub said : Context context
  pub roots : s.runtime_workspace_roots ≡ context.workspace_roots
  pub full : s.permissions ≡ ":danger-full-access" → GivesFullAccess Applied context

and_then-inversion :
    {A B : Type 0}
    → (o : Option A) (f : A → Option B) (b : B) → and_then o f ≡ some b
    → (a : A) × (o ≡ some a) × (f a ≡ some b)
and_then-inversion none f b h = ground (arith, h)
and_then-inversion (some a) f b h = (a, refl, h)

module _ (is_abs : String → Bool) (type_of : Bytes → String)
    (decode_context : Bytes → Option TurnContext)
    (decode_applied : Bytes → Option AppliedSettings) where
  context_of-Says :
      (found : FoundLine) (context : TurnContext)
      → context_of is_abs type_of decode_context decode_applied (some found) ≡ some context
      → Says decode_context found context
  context_of-Says nothing context h = ground (arith, h)
  context_of-Says too_long context h = ground (arith, h)
  context_of-Says (line l) context h = (l, refl, h)

  with_applied-Says :
      (found : FoundLine) (settings s : ResumeSettings)
      → with_applied is_abs type_of decode_context decode_applied settings (some found) ≡ some s
      → s.permissions ≡ ":danger-full-access"
      → (settings.permissions ≡ ":danger-full-access")
        ⊎ ((applied : AppliedSettings) × Says decode_applied found applied
            × (applied.profile_id ≡ some ":danger-full-access"))
  with_applied-Says nothing settings s h full = let same = ap permissions_of h in inl (same ∙ full)
  with_applied-Says too_long settings s h full = ground (arith, h)
  with_applied-Says (line l) settings s h full =
      let (applied, said, merged) = and_then-inversion (decode_applied l) _ s h in
      elim (merge_applied_thread_settings-full settings s applied merged full) [
        | inl e ↦ inl e
        | inr e ↦ inr (applied, (l, refl, said), e)
      ]

  with_applied-roots :
      (found : FoundLine) (settings s : ResumeSettings)
      → with_applied is_abs type_of decode_context decode_applied settings (some found) ≡ some s
      → s.runtime_workspace_roots ≡ settings.runtime_workspace_roots
  with_applied-roots nothing settings s h = sym (ap roots_of h)
  with_applied-roots too_long settings s h = ground (arith, h)
  with_applied-roots (line l) settings s h =
      let (applied, said, merged) = and_then-inversion (decode_applied l) _ s h in
      merge_applied_thread_settings-roots settings s applied merged

  both_lines-IsLoaded :
      (last_context last_applied : FoundLine) (s : ResumeSettings)
      → and_then
          (context_of is_abs type_of decode_context decode_applied (some last_context))
          (λ context. and_then (parse_resume_settings is_abs context) λ settings.
            and_then
              (with_applied is_abs type_of decode_context decode_applied settings
                (some last_applied))
              (validated is_abs))
        ≡ some s
      → IsLoaded is_abs (Says decode_context last_context) (Says decode_applied last_applied) s
  both_lines-IsLoaded last_context last_applied s h =
      let (context, found, rest) =
        and_then-inversion
          (context_of is_abs type_of decode_context decode_applied (some last_context)) _ s h in
      let (settings, parsed, rest) =
        and_then-inversion (parse_resume_settings is_abs context) _ s rest in
      let (merged, applied, checked) =
        and_then-inversion
          (with_applied is_abs type_of decode_context decode_applied settings (some last_applied)) _
          s rest in
      let (same, valid) = validated-valid is_abs merged s checked in
      let said = with_applied-Says last_applied settings merged applied in
      record {
        valid = valid;
        context = context;
        said = context_of-Says last_context context found;
        roots =
            sym (ap (λ t. t.runtime_workspace_roots) same)
            ∙ with_applied-roots last_applied settings merged applied
            ∙ parse_resume_settings-roots is_abs context settings parsed;
        full = λ full. elim (said (rw same full)) [
          | inl e ↦ inl (parse_resume_settings-full is_abs context settings parsed e)
          | inr e ↦ inr e
        ];
      }

  -- Settings that are loaded from a rollout file are valid; the last line of the file that is a turn context
  -- gives their workspace roots; and they have full access to the machine only if that context's sandbox is
  -- `danger-full-access` or the last line of applied settings names the profile `:danger-full-access`.
  pub load_latest_resume_settings-IsLoaded :
      (file : Bytes) (s : ResumeSettings)
      → load_latest_resume_settings is_abs type_of decode_context decode_applied file ≡ some s
      → IsLoaded is_abs
          (LastSays (has_turn_context_type type_of) decode_context file)
          (LastSays (has_thread_settings_applied_type type_of) decode_applied file)
          s
  unfolding load_latest_resume_settings
  load_latest_resume_settings-IsLoaded file s h =
      both_lines-IsLoaded
        (latest (has_turn_context_type type_of) prefix_bytes max_line_bytes (lines file))
        (latest (has_thread_settings_applied_type type_of) prefix_bytes max_line_bytes (lines file))
        s
        (rw
          (
            find_latest_matching_line-latest (has_turn_context_type type_of) file,
            find_latest_matching_line-latest (has_thread_settings_applied_type type_of) file,
          )
          at h)
