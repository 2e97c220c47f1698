-- ===== src/Settings.antt =====
-- The feature settings and how stored ones are normalized: frontend/src/context/FeatureSettingsContext.tsx.
-- `number_of` stands for Number and Math.round of a value: none where it is not finite, 0 where it is
-- negative; the identifiers of the presets are those of frontend/src/utils/themePresets.ts.
pub mod Normal
pub mod Again
mod Tests
use pertisk_kube_app.Base.{
  ℕ, suc, ◌+◌, min, max, String, Bool, true, false, not, Option, none, some, List, [], ◌∷◌,
  if◌then◌else◌, ◌==◌,
}
use pertisk_kube_app.Base.Json.{
  Json, bool, num, str, arr, obj, Items, nil, cons, Fields, end, field, as_text, is_str, decimal,
}
use pertisk_kube_app.Base.Objects.{own, value_of}
use pertisk_kube_app.Base.Text.{◌<>◌, trim, trimmed, member}

pub data FeatureThemePreference : Type 0 where
  auto dark : FeatureThemePreference

pub record EditorVisualSettings : Type 0 where
  pub font_name : String
  pub font_size : ℕ
  pub theme : FeatureThemePreference

pub record HelmRepository : Type 0 where
  pub id : String
  pub name : String
  pub url : String
  pub enabled : Bool

pub record FeatureSettings : Type 0 where
  pub general : EditorVisualSettings
  pub terminal : EditorVisualSettings
  pub yaml_editor : EditorVisualSettings
  pub general_theme_preset : String
  pub terminal_theme_preset : String
  pub helm_repo_url : String
  pub helm_repositories : List HelmRepository

abbrev pub default_general : EditorVisualSettings
default_general = record { font_name = "Inter"; font_size = 14; theme = dark }

abbrev pub default_terminal : EditorVisualSettings
default_terminal = record { font_name = "Meslo Nerd Font"; font_size = 13; theme = auto }

abbrev pub default_yaml_editor : EditorVisualSettings
default_yaml_editor = record { font_name = "JetBrains Mono"; font_size = 13; theme = auto }

abbrev pub default_repositories : List HelmRepository
default_repositories =
    record {
      id = "bitnami";
      name = "Bitnami";
      url = "https://charts.bitnami.com/bitnami";
      enabled = true;
    }
    ∷ record {
      id = "prometheus-community";
      name = "Prometheus Community";
      url = "https://prometheus-community.github.io/helm-charts";
      enabled = true;
    }
    ∷ record {
      id = "ingress-nginx";
      name = "ingress-nginx";
      url = "https://kubernetes.github.io/ingress-nginx";
      enabled = true;
    }
    ∷ []

-- DEFAULT_SETTINGS
abbrev pub default_settings : FeatureSettings
default_settings = record {
  general = default_general;
  terminal = default_terminal;
  yaml_editor = default_yaml_editor;
  general_theme_preset = "flux-violet";
  terminal_theme_preset = "wild-cherry";
  helm_repo_url = "";
  helm_repositories = default_repositories;
}

-- clampFontSize
unfoldable pub clamp_font_size : Option ℕ → ℕ → ℕ
clamp_font_size none fallback = fallback
clamp_font_size (some n) fallback = min 32 (max 10 n)

-- normalizeTheme
unfoldable pub normalize_theme : Json → FeatureThemePreference
normalize_theme v =
    if is_str "dark" v
    then dark
    else if is_str "auto" v
    then auto
    else if is_str "light" v
    then dark
    else auto

abbrev pub or_default : String → String → String
or_default s fallback = if s == "" then fallback else s

-- source.key
abbrev pub at : String → Fields → Json
at key fs = value_of (own key fs)

-- typeof v === 'string' ? v.trim() : ''
abbrev pub trimmed_value : Json → String
trimmed_value v = trimmed (as_text v)

-- normalizeAppThemePreset and normalizeTerminalThemePreset
unfoldable pub normalize_preset : List String → String → Json → String
normalize_preset presets fallback (str s) = if member s presets then s else fallback
normalize_preset presets fallback _ = fallback

-- One repository, where it has a URL.
unfoldable pub normalize_repository : ℕ → Json → Option HelmRepository
unfolding trim
normalize_repository index (obj fs) =
    if trimmed_value (at "url" fs) == ""
    then none
    else some (record {
      id = or_default (trimmed_value (at "id" fs)) ("repo-" <> decimal (index + 1));
      name = or_default (trimmed_value (at "name" fs)) ("Repo " <> decimal (index + 1));
      url = trimmed_value (at "url" fs);
      enabled = elim (at "enabled" fs) [ bool false ↦ false | _ ↦ true ];
    })
normalize_repository index _ = none

unfoldable pub normalize_repositories : ℕ → Items → List HelmRepository
unfolding normalize_repository
normalize_repositories index nil = []
normalize_repositories index (cons v vs) =
    let rest = normalize_repositories (suc index) vs in
    elim (normalize_repository index v) [ none ↦ rest | some r ↦ r ∷ rest ]

unfoldable pub repositories_of : Json → List HelmRepository
unfolding normalize_repositories
repositories_of (arr vs) = normalize_repositories 0 vs
repositories_of _ = []

-- The repositories, or the one of the older setting, or the default ones.
unfoldable pub with_legacy : String → List HelmRepository → List HelmRepository
with_legacy legacy [] =
    if legacy == ""
    then default_repositories
    else record { id = "legacy-repo"; name = "Custom Repository"; url = legacy; enabled = true }
      ∷ []
with_legacy legacy (r ∷ rs) = r ∷ rs

module _ (number_of : Json → Option ℕ) where
  -- normalizeVisualSettings; an array has none of the fields
  unfoldable pub normalize_visual_settings : Json → EditorVisualSettings → EditorVisualSettings
  unfolding clamp_font_size normalize_theme trim
  normalize_visual_settings (obj fs) fallback = record {
    font_name = or_default (trimmed_value (at "fontName" fs)) fallback.font_name;
    font_size = clamp_font_size (number_of (at "fontSize" fs)) fallback.font_size;
    theme = normalize_theme (at "theme" fs);
  }
  normalize_visual_settings (arr vs) fallback = record {
    font_name = fallback.font_name;
    font_size = clamp_font_size (number_of (at "fontSize" end)) fallback.font_size;
    theme = auto;
  }
  normalize_visual_settings _ fallback = fallback

  unfoldable pub normalize_fields :
      (app_presets terminal_presets : List String) → Fields → FeatureSettings
  unfolding normalize_visual_settings normalize_preset with_legacy repositories_of trim
  normalize_fields app_presets terminal_presets fs =
      let legacy = trimmed_value (at "helmRepoUrl" fs) in
      record {
        general = normalize_visual_settings (at "general" fs) default_general;
        terminal = normalize_visual_settings (at "terminal" fs) default_terminal;
        yaml_editor = normalize_visual_settings (at "yamlEditor" fs) default_yaml_editor;
        general_theme_preset =
            normalize_preset app_presets "flux-violet" (at "generalThemePreset" fs);
        terminal_theme_preset =
            normalize_preset terminal_presets "wild-cherry" (at "terminalThemePreset" fs);
        helm_repo_url = legacy;
        helm_repositories = with_legacy legacy (repositories_of (at "helmRepositories" fs));
      }

  -- normalizeSettings
  unfoldable pub normalize_settings :
      (app_presets terminal_presets : List String) → Json → FeatureSettings
  unfolding normalize_fields
  normalize_settings app_presets terminal_presets (obj fs) =
      normalize_fields app_presets terminal_presets fs
  normalize_settings app_presets terminal_presets (arr vs) =
      normalize_fields app_presets terminal_presets end
  normalize_settings app_presets terminal_presets _ = default_settings

-- The settings as they are stored: what JSON.parse reads of their text.
abbrev pub theme_json : FeatureThemePreference → Json
theme_json auto = str "auto"
theme_json dark = str "dark"

abbrev pub visual_json : EditorVisualSettings → Json
visual_json v = obj (
    field "fontName" (str v.font_name)
      (field "fontSize" (num v.font_size) (field "theme" (theme_json v.theme) end)))

abbrev pub repository_json : HelmRepository → Json
repository_json r = obj (
    field "id" (str r.id)
      (field "name" (str r.name) (field "url" (str r.url) (field "enabled" (bool r.enabled) end))))

abbrev pub repositories_json : List HelmRepository → Items
repositories_json [] = nil
repositories_json (r ∷ rs) = cons (repository_json r) (repositories_json rs)

unfoldable pub settings_json : FeatureSettings → Json
settings_json s = obj (
    field "general" (visual_json s.general) (
      field "terminal" (visual_json s.terminal) (
        field "yamlEditor" (visual_json s.yaml_editor) (
          field "generalThemePreset" (str s.general_theme_preset) (
            field "terminalThemePreset" (str s.terminal_theme_preset) (
              field "helmRepoUrl" (str s.helm_repo_url)
                (field "helmRepositories" (arr (repositories_json s.helm_repositories)) end)))))))
