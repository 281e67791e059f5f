-- ===== src/Pages/Layout.antt =====
-- web/src/layouts/DashboardLayout.tsx: the theme, the workspace that is current, and the links.
pub mod Current
use cron_agent_dashboard.Prelude.{
  ℕ, zero, suc, ◌+◌, ◌-◌, ◌*◌, ◌/◌, ◌%◌, ◌≤◌, ◌<◌, max, ◌≡◌, refl, sym, ap, ◌∙◌, subst, ◌≢◌, ◌↔◌,
  ◌⊎◌, inl, inr, Bool, true, false, not, ◌&&◌, ◌||◌, Option, none, some, List, [], ◌∷◌, ◌++◌, map,
  arith, Text, units, text_eq, text_eq_iff, text_eq_refl, trim, trim_start, trim_end, is_empty,
  truthy, text_or_empty, or_default, or_text, coalesce, filter, find, any, all, take, length,
  if◌then◌else◌, ltb, leb, ◌==◌, decimal, is_some, head?, Bool-cases, Option-cases, All, All-append,
  All-imp, trimmed, starts_with, sum_by,
}
use cron_agent_dashboard.Api.Responses.{WorkspaceSummary}
use cron_agent_dashboard.Api.Session.{Store, get_item, set_item}

abbrev pub theme_storage_key : Text
theme_storage_key = units "cron-agent-dashboard-theme"

abbrev pub workspace_storage_key : Text
workspace_storage_key = units "cron-agent-dashboard-last-workspace"

pub data Theme : Type 0 where
  light dark : Theme

abbrev pub theme_text : Theme → Text
theme_text light = units "light"
theme_text dark = units "dark"

-- The first theme; none stands for no `window`.
unfoldable pub initial_theme : Option Store → Theme
initial_theme none = dark
initial_theme (some store) =
    if text_eq (text_or_empty (get_item theme_storage_key store)) (units "light")
    then light
    else dark

unfoldable pub keep_theme : Theme → Store → Store
keep_theme theme store = set_item theme_storage_key (theme_text theme) store

abbrev pub next_theme : Theme → Theme
next_theme dark = light
next_theme light = dark

unfoldable pub initial_workspace_slug : Option Store → Text
initial_workspace_slug none = []
initial_workspace_slug (some store) = text_or_empty (get_item workspace_storage_key store)

-- The effect of a slug in the address
unfoldable pub visit_workspace : Option Text → Text × Store → Text × Store
visit_workspace slug (last, store) =
    if truthy slug
    then (text_or_empty slug, set_item workspace_storage_key (text_or_empty slug) store)
    else (last, store)

abbrev pub with_slug : Text → List WorkspaceSummary → Option WorkspaceSummary
with_slug slug = find (λ w. text_eq w.slug slug)

-- `a ?? b`
abbrev pub or_workspace :
    Option WorkspaceSummary → Option WorkspaceSummary → Option WorkspaceSummary
or_workspace none b = b
or_workspace (some a) b = some a

abbrev pub with_address_slug : Option Text → List WorkspaceSummary → Option WorkspaceSummary
with_address_slug none workspaces = none
with_address_slug (some slug) workspaces = with_slug slug workspaces

unfoldable pub current_workspace :
    Option Text → Text → List WorkspaceSummary → Option WorkspaceSummary
current_workspace slug last workspaces =
    or_workspace (with_address_slug slug workspaces)
      (or_workspace (with_slug last workspaces) (head? workspaces))

-- `pathname.split('/').filter(Boolean)`
abbrev pub cons_segment : ℕ → List Text → List Text
cons_segment c [] = (c ∷ []) ∷ []
cons_segment c (x ∷ xs) = (c ∷ x) ∷ xs

unfoldable pub split_path : Text → List Text
split_path [] = [] ∷ []
split_path (c ∷ s) = if c == 0x2f then [] ∷ split_path s else cons_segment c (split_path s)

abbrev pub third : List Text → Option Text
third (a ∷ b ∷ c ∷ rest) = some c
third _ = none

abbrev pub workspace_path : Text → Text → Text
workspace_path slug section = units "/w/" ++ (slug ++ (units "/" ++ section))

abbrev pub scoped_section : Option Text → Text
scoped_section none = units "board"
scoped_section (some section) =
    if text_eq section (units "agents")
    then units "agents"
    else if text_eq section (units "autopilot")
    then units "autopilot"
    else units "board"

unfoldable pub workspace_scoped_path : Text → Text → Text
unfolding split_path
workspace_scoped_path pathname next_slug =
    if not (starts_with (units "/w/") pathname)
    then []
    else workspace_path next_slug
        (scoped_section (third (filter (λ s. not (is_empty s)) (split_path pathname))))

-- The slug kept last, the store, and where to go, if anywhere
unfoldable pub select_current : Text → Text → Text × Store → (Text × Store) × Option Text
unfolding workspace_scoped_path
select_current pathname next_slug (last, store) =
    let target = workspace_scoped_path pathname next_slug in
    (
      (next_slug, set_item workspace_storage_key next_slug store),
      (if not (is_empty target) && not (text_eq target pathname) then some target else none),
    )

pub record NavItem : Type 0 where
  pub to : Text
  pub label : Text
  pub hint : Text
  pub disabled : Bool

abbrev link : Text → Text → Text → Text → NavItem
link slug section label hint = record {
  to = workspace_path slug section;
  label = label;
  hint = hint;
  disabled = false;
}

abbrev locked : Text → NavItem
locked label = record { to = units "#"; label = label; hint = units "워크스페이스 필요"; disabled = true }

abbrev pub locked_nav : List NavItem
locked_nav =
    locked (units "이슈 보드")
    ∷ locked (units "에이전트")
    ∷ locked (units "오토파일럿")
    ∷ locked (units "체인 대시보드")
    ∷ locked (units "런 피드")
    ∷ []

-- `currentSlug ? … : …`
unfoldable pub workspace_nav : Option WorkspaceSummary → List NavItem
workspace_nav none = locked_nav
workspace_nav (some w) =
    if is_empty w.slug
    then locked_nav
    else link w.slug (units "board") (units "이슈 보드") w.identifier_prefix
      ∷ link w.slug (units "agents") (units "에이전트")
          (decimal (coalesce w.agent_count 0) ++ units " agents")
      ∷ link w.slug (units "autopilot") (units "오토파일럿") (units "Cron")
      ∷ link w.slug (units "chains") (units "체인 대시보드") (units "Auto-chain")
      ∷ link w.slug (units "runs") (units "런 피드") (units "All runs")
      ∷ []
