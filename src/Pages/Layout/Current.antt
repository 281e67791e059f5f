-- ===== src/Pages/Layout/Current.antt =====
-- What is found again when the page is loaded anew.
use cron_agent_dashboard.Prelude.{
  ◌≡◌, refl, inl, inr, Option, none, some, List, Text, units, text_eq, text_eq_refl, truthy,
  text_or_empty, if◌then◌else◌, Bool-cases,
}
use cron_agent_dashboard.Api.Responses.{WorkspaceSummary}
use cron_agent_dashboard.Api.Session.{Store, get_item, set_item}
use cron_agent_dashboard.Api.Session.Tokens.{get_item-set_item}
use cron_agent_dashboard.Pages.Layout.{
  Theme, light, dark, initial_theme, keep_theme, theme_text, theme_storage_key,
  workspace_storage_key, initial_workspace_slug, with_slug, current_workspace, select_current,
  visit_workspace,
}

theme_elsewhere :
    (v : Text) (store : Store)
    → get_item theme_storage_key (set_item workspace_storage_key v store)
      ≡ get_item theme_storage_key store
unfolding text_eq
theme_elsewhere v store = get_item-set_item workspace_storage_key theme_storage_key v store

theme_visited :
    (slug : Option Text) (last : Text) (store : Store)
    → get_item theme_storage_key (visit_workspace slug (last, store)).1
      ≡ get_item theme_storage_key store
unfolding visit_workspace
theme_visited slug last store = elim (Bool-cases (truthy slug)) [
  | inl e ↦ rw e (theme_elsewhere (text_or_empty slug) store)
  | inr e ↦ rw e refl
]

theme_kept :
    (theme : Theme) (store : Store)
    → get_item theme_storage_key (keep_theme theme store) ≡ some (theme_text theme)
unfolding keep_theme text_eq
theme_kept theme store =
    get_item-set_item theme_storage_key theme_storage_key (theme_text theme) store

theme_of :
    (theme : Theme) → (if text_eq (theme_text theme) (units "light") then light else dark) ≡ theme
unfolding text_eq
theme_of light = refl
theme_of dark = refl

-- The theme that was kept is the first one when the page is loaded again, whatever workspace is selected and
-- then visited in between.
pub initial_theme-keep_theme :
    (theme : Theme) (store : Store) (pathname next_slug last : Text) (slug : Option Text)
    → initial_theme (
        some
          (visit_workspace slug
            (select_current pathname next_slug (last, keep_theme theme store)).0).1)
      ≡ theme
unfolding initial_theme select_current
initial_theme-keep_theme theme store pathname next_slug last slug =
    rw
      (
        theme_visited slug next_slug
            (set_item workspace_storage_key next_slug (keep_theme theme store)),
        theme_elsewhere next_slug (keep_theme theme store),
        theme_kept theme store,
      )
      (theme_of theme)

found :
    (slug : Text) (w : WorkspaceSummary) (ws : List WorkspaceSummary)
    → with_slug slug ws ≡ some w
    → current_workspace none slug ws ≡ some w
unfolding current_workspace
found slug w ws h = rw h refl

-- The workspace that was selected is the current one when a page without a workspace in its address is loaded
-- again, as long as it is in the list.
pub current_workspace-select_current :
    (pathname slug last : Text) (store : Store) (w : WorkspaceSummary)
    (workspaces : List WorkspaceSummary)
    → with_slug slug workspaces ≡ some w
    → current_workspace none
        (initial_workspace_slug (some (select_current pathname slug (last, store)).0.1))
        workspaces
      ≡ some w
unfolding initial_workspace_slug select_current
current_workspace-select_current pathname slug last store w workspaces h =
    rw
      (
        get_item-set_item workspace_storage_key workspace_storage_key slug store,
        text_eq_refl workspace_storage_key,
      )
      (found slug w workspaces h)
