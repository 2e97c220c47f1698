-- ===== src/Settings/Normal.antt =====
-- Normalized settings are well-formed, and normalizing them again changes nothing.
use Prim.Native.Char.{Char, code}
use pertisk_kube_app.Base.{
  ℕ, suc, ◌+◌, ◌≤◌, String, ◌≡◌, refl, Bool, true, false, ◌||◌, inl, inr, Option, none, some, List,
  [], ◌∷◌, ◌==◌, arith, eq_refl, Bool-cases,
}
use pertisk_kube_app.Base.Json.{
  Json, undefined, null, bool, num, str, arr, obj, Items, nil, cons, Fields, end, as_text, decimal,
}
use pertisk_kube_app.Base.Lists.{All}
use pertisk_kube_app.Base.Text.{◌<>◌, is_space, trim, trimmed, member}
use pertisk_kube_app.Base.Trim.{trim-twice, trim-numbered, trim-empty, cons-nonempty}
use pertisk_kube_app.Settings.{
  EditorVisualSettings, HelmRepository, FeatureSettings, default_general, default_terminal,
  default_yaml_editor, default_repositories, default_settings, clamp_font_size, or_default, at,
  trimmed_value, normalize_preset, normalize_repository, normalize_repositories, repositories_of,
  with_legacy, normalize_visual_settings, normalize_fields, normalize_settings,
}

-- A text without white space around it that is not empty.
abbrev pub Solid : String → Type 0
Solid s = (trim s ≡ s) × ((s == "") ≡ false)

pub record IsNormalVisual (v : EditorVisualSettings) : Type 0 where
  pub font : Solid v.font_name
  pub least : 10 ≤ v.font_size
  pub most : v.font_size ≤ 32

pub record IsNormalRepository (r : HelmRepository) : Type 0 where
  pub id : Solid r.id
  pub name : Solid r.name
  pub url : Solid r.url

abbrev pub no_repositories : List HelmRepository → Bool
no_repositories [] = true
no_repositories (_ ∷ _) = false

pub record IsNormal (app_presets terminal_presets : List String) (s : FeatureSettings)
    : Type 0 where
  pub general : IsNormalVisual s.general
  pub terminal : IsNormalVisual s.terminal
  pub yaml_editor : IsNormalVisual s.yaml_editor
  pub app_preset :
      (member s.general_theme_preset app_presets || s.general_theme_preset == "flux-violet") ≡ true
  pub terminal_preset :
      (member s.terminal_theme_preset terminal_presets || s.terminal_theme_preset == "wild-cherry")
      ≡ true
  pub repo_url : trim s.helm_repo_url ≡ s.helm_repo_url
  pub repositories : All IsNormalRepository s.helm_repositories
  pub some_repository : no_repositories s.helm_repositories ≡ false

trim-trimmed_value : (v : Json) → trim (trimmed_value v) ≡ trimmed_value v
trim-trimmed_value v = of_option (as_text v)
  where
    of_option : (o : Option String) → trim (trimmed o) ≡ trimmed o
    of_option none = trim-empty
    of_option (some s) = trim-twice s

or_default-Solid :
    (s fallback : String) → trim s ≡ s → Solid fallback → Solid (or_default s fallback)
or_default-Solid s fallback e h = elim (Bool-cases (s == "")) [
  | inl empty ↦ rw empty h
  | inr full ↦ rw full (e, full)
]

numbered-Solid :
    (c : Char) (a : String) (n : ℕ)
    → is_space (code c) ≡ false
    → Solid (String.◌∷◌ c a <> decimal n)
numbered-Solid c a n e = (trim-numbered c a n e, cons-nonempty c a (decimal n))

clamped :
    (o : Option ℕ) (fallback : ℕ)
    → 10 ≤ fallback
    → fallback ≤ 32
    → (10 ≤ clamp_font_size o fallback) × (clamp_font_size o fallback ≤ 32)
unfolding clamp_font_size
clamped none fallback low high = (low, high)
clamped (some n) fallback low high = (omega arith, omega arith)

module _ (number_of : Json → Option ℕ) where
  visual-IsNormal :
      (v : Json) (fallback : EditorVisualSettings)
      → IsNormalVisual fallback
      → IsNormalVisual (normalize_visual_settings number_of v fallback)
  unfolding normalize_visual_settings
  visual-IsNormal (obj fs) fallback h =
      let size = clamped (number_of (at "fontSize" fs)) fallback.font_size h.least h.most in
      record {
        font =
            or_default-Solid (trimmed_value (at "fontName" fs)) fallback.font_name
              (trim-trimmed_value (at "fontName" fs)) h.font;
        least = size.0;
        most = size.1;
      }
  visual-IsNormal (arr vs) fallback h =
      let size = clamped (number_of (at "fontSize" end)) fallback.font_size h.least h.most in
      record { font = h.font; least = size.0; most = size.1 }
  visual-IsNormal undefined fallback h = h
  visual-IsNormal null fallback h = h
  visual-IsNormal (bool b) fallback h = h
  visual-IsNormal (num n) fallback h = h
  visual-IsNormal (str s) fallback h = h

IfSome : Option HelmRepository → Type 0
IfSome none = Unit
IfSome (some r) = IsNormalRepository r

repository-IsNormal : (index : ℕ) (v : Json) → IfSome (normalize_repository index v)
unfolding normalize_repository IfSome is_space
repository-IsNormal index (obj fs) = elim (Bool-cases (trimmed_value (at "url" fs) == "")) [
  | inl e ↦ rw (e, normalize_repository) tt
  | inr e ↦
      rw (e, normalize_repository)
        (record {
          id =
              or_default-Solid (trimmed_value (at "id" fs)) ("repo-" <> decimal (index + 1))
                (trim-trimmed_value (at "id" fs)) (numbered-Solid "r" "epo-" (index + 1) refl);
          name =
              or_default-Solid (trimmed_value (at "name" fs)) ("Repo " <> decimal (index + 1))
                (trim-trimmed_value (at "name" fs)) (numbered-Solid "R" "epo " (index + 1) refl);
          url = (trim-trimmed_value (at "url" fs), e);
        })
]
repository-IsNormal index undefined = tt
repository-IsNormal index null = tt
repository-IsNormal index (bool b) = tt
repository-IsNormal index (num n) = tt
repository-IsNormal index (str s) = tt
repository-IsNormal index (arr vs) = tt

repositories-IsNormal :
    (index : ℕ) (vs : Items) → All IsNormalRepository (normalize_repositories index vs)
unfolding normalize_repositories IfSome
repositories-IsNormal index nil = tt
repositories-IsNormal index (cons v vs) =
    joined (repositories-IsNormal (suc index) vs) (normalize_repository index v)
      (repository-IsNormal index v)
  where
    joined :
        All IsNormalRepository (normalize_repositories (suc index) vs)
        → (o : Option HelmRepository) → IfSome o
        → All IsNormalRepository (elim o [
          | none ↦ normalize_repositories (suc index) vs
          | some r ↦ r ∷ normalize_repositories (suc index) vs
        ])
    joined rest none h = rest
    joined rest (some r) h = (h, rest)

repositories_of-IsNormal : (v : Json) → All IsNormalRepository (repositories_of v)
unfolding repositories_of
repositories_of-IsNormal (arr vs) = repositories-IsNormal 0 vs
repositories_of-IsNormal undefined = tt
repositories_of-IsNormal null = tt
repositories_of-IsNormal (bool b) = tt
repositories_of-IsNormal (num n) = tt
repositories_of-IsNormal (str s) = tt
repositories_of-IsNormal (obj fs) = tt

default_repositories-IsNormal : All IsNormalRepository default_repositories
unfolding trim
default_repositories-IsNormal = (
  record { id = (refl, refl); name = (refl, refl); url = (refl, refl) },
  (
    record { id = (refl, refl); name = (refl, refl); url = (refl, refl) },
    (record { id = (refl, refl); name = (refl, refl); url = (refl, refl) }, tt),
  ),
)

with_legacy-IsNormal :
    (legacy : String) (rs : List HelmRepository)
    → trim legacy ≡ legacy
    → All IsNormalRepository rs
    → All IsNormalRepository (with_legacy legacy rs)
      × (no_repositories (with_legacy legacy rs) ≡ false)
unfolding with_legacy trim
with_legacy-IsNormal legacy (r ∷ rs) e h = (h, refl)
with_legacy-IsNormal legacy [] e h = elim (Bool-cases (legacy == "")) [
  | inl empty ↦ rw (empty, with_legacy) (default_repositories-IsNormal, refl)
  | inr full ↦
      rw (full, with_legacy)
        ((record { id = (refl, refl); name = (refl, refl); url = (e, full) }, tt), refl)
]

preset-known :
    (presets : List String) (fallback : String) (v : Json)
    → (member (normalize_preset presets fallback v) presets
        || normalize_preset presets fallback v == fallback)
      ≡ true
unfolding normalize_preset
preset-known presets fallback (str s) = elim (Bool-cases (member s presets)) [
  | inl e ↦ rw (e, normalize_preset) (ground (arith, e))
  | inr e ↦ rw (e, normalize_preset) (ground (arith, eq_refl fallback))
]
preset-known presets fallback undefined = ground (arith, eq_refl fallback)
preset-known presets fallback null = ground (arith, eq_refl fallback)
preset-known presets fallback (bool b) = ground (arith, eq_refl fallback)
preset-known presets fallback (num n) = ground (arith, eq_refl fallback)
preset-known presets fallback (arr vs) = ground (arith, eq_refl fallback)
preset-known presets fallback (obj fs) = ground (arith, eq_refl fallback)

default_general-IsNormal : IsNormalVisual default_general
unfolding trim
default_general-IsNormal = record { font = (refl, refl); least = omega arith; most = omega arith }

default_terminal-IsNormal : IsNormalVisual default_terminal
unfolding trim
default_terminal-IsNormal = record { font = (refl, refl); least = omega arith; most = omega arith }

default_yaml_editor-IsNormal : IsNormalVisual default_yaml_editor
unfolding trim
default_yaml_editor-IsNormal = record {
  font = (refl, refl);
  least = omega arith;
  most = omega arith;
}

module _ (number_of : Json → Option ℕ) (app_presets terminal_presets : List String) where
  fields-IsNormal :
      (fs : Fields)
      → IsNormal app_presets terminal_presets
          (normalize_fields number_of app_presets terminal_presets fs)
  unfolding normalize_fields
  fields-IsNormal fs =
      let legacy = trim-trimmed_value (at "helmRepoUrl" fs) in
      let repositories =
        with_legacy-IsNormal (trimmed_value (at "helmRepoUrl" fs))
          (repositories_of (at "helmRepositories" fs)) legacy
          (repositories_of-IsNormal (at "helmRepositories" fs)) in
      record {
        general =
            visual-IsNormal number_of (at "general" fs) default_general default_general-IsNormal;
        terminal =
            visual-IsNormal number_of (at "terminal" fs) default_terminal default_terminal-IsNormal;
        yaml_editor =
            visual-IsNormal number_of (at "yamlEditor" fs) default_yaml_editor
              default_yaml_editor-IsNormal;
        app_preset = preset-known app_presets "flux-violet" (at "generalThemePreset" fs);
        terminal_preset = preset-known terminal_presets "wild-cherry" (at "terminalThemePreset" fs);
        repo_url = legacy;
        repositories = repositories.0;
        some_repository = repositories.1;
      }

  default-IsNormal : IsNormal app_presets terminal_presets default_settings
  default-IsNormal = record {
    general = default_general-IsNormal;
    terminal = default_terminal-IsNormal;
    yaml_editor = default_yaml_editor-IsNormal;
    app_preset = ground (arith, eq_refl "flux-violet");
    terminal_preset = ground (arith, eq_refl "wild-cherry");
    repo_url = trim-empty;
    repositories = default_repositories-IsNormal;
    some_repository = refl;
  }

  -- Whatever is stored, the settings have font sizes from 10 to 32, fonts with a name, presets that exist or
  -- are the default ones, and at least one repository, each with an identifier, a name and a URL; none of
  -- these texts is empty or has white space around it.
  pub normalize_settings-IsNormal :
      (v : Json)
      → IsNormal app_presets terminal_presets
          (normalize_settings number_of app_presets terminal_presets v)
  unfolding normalize_settings
  normalize_settings-IsNormal (obj fs) = fields-IsNormal fs
  normalize_settings-IsNormal (arr vs) = fields-IsNormal end
  normalize_settings-IsNormal undefined = default-IsNormal
  normalize_settings-IsNormal null = default-IsNormal
  normalize_settings-IsNormal (bool b) = default-IsNormal
  normalize_settings-IsNormal (num n) = default-IsNormal
  normalize_settings-IsNormal (str s) = default-IsNormal
