-- ===== src/Api/Session.antt =====
-- web/src/api/client.ts, the token in the browser's two stores: `readToken`, `readTokenStorageMode`,
-- `setToken` and `clearToken`. Outside a browser (`typeof window === 'undefined'`) there are no
-- stores. A store is the list of its entries.
pub mod Tokens
use cron_agent_dashboard.Prelude.{
  Bool, true, false, Option, none, some, List, [], ◌∷◌, Text, units, text_eq, trim, if◌then◌else◌,
  coalesce,
}

abbrev pub Store : Type 0
Store = List (Text × Text)

-- `getItem`, `setItem`, `removeItem`
unfoldable pub get_item : Text → Store → Option Text
get_item k [] = none
get_item k ((j, v) ∷ s) = if text_eq j k then some v else get_item k s

unfoldable pub remove_item : Text → Store → Store
remove_item k [] = []
remove_item k ((j, v) ∷ s) = if text_eq j k then remove_item k s else (j, v) ∷ remove_item k s

unfoldable pub set_item : Text → Text → Store → Store
unfolding remove_item
set_item k v s = (k, v) ∷ remove_item k s

pub record Window : Type 0 where
  pub session_storage : Store
  pub local_storage : Store

pub data TokenStorageMode : Type 0 where
  local session nowhere : TokenStorageMode

abbrev pub token_storage_key : Text
token_storage_key = units "cron_agent_dashboard_token"

unfoldable pub read_token : Option Window → Text
unfolding get_item
read_token none = []
read_token (some w) = elim (get_item token_storage_key w.session_storage) [
  | some token ↦ token
  | none ↦ coalesce (get_item token_storage_key w.local_storage) []
]

unfoldable pub read_token_storage_mode : Option Window → TokenStorageMode
unfolding get_item
read_token_storage_mode none = nowhere
read_token_storage_mode (some w) = elim (get_item token_storage_key w.session_storage) [
  | some token ↦ session
  | none ↦ elim (get_item token_storage_key w.local_storage) [ some token ↦ local | none ↦ nowhere ]
]

unfoldable pub set_token : Text → Bool → Option Window → Option Window
unfolding set_item remove_item trim
set_token token session_only none = none
set_token token session_only (some w) =
    let normalized = trim token in
    if session_only
    then some (record {
      session_storage = set_item token_storage_key normalized w.session_storage;
      local_storage = remove_item token_storage_key w.local_storage;
    })
    else some (record {
      session_storage = remove_item token_storage_key w.session_storage;
      local_storage = set_item token_storage_key normalized w.local_storage;
    })

unfoldable pub clear_token : Option Window → Option Window
unfolding remove_item
clear_token none = none
clear_token (some w) = some (record {
  session_storage = remove_item token_storage_key w.session_storage;
  local_storage = remove_item token_storage_key w.local_storage;
})
