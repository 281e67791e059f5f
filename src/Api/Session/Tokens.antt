-- ===== src/Api/Session/Tokens.antt =====
-- What is read back of a token that was stored or cleared.
use cron_agent_dashboard.Prelude.{
  ◌≡◌, refl, Bool, true, false, Option, none, some, [], ◌∷◌, Text, text_eq, text_eq_iff, trim,
  if◌then◌else◌, arith,
}
use cron_agent_dashboard.Api.Session.{
  Store, Window, local, session, nowhere, get_item, remove_item, set_item, token_storage_key,
  read_token, read_token_storage_mode, set_token, clear_token,
}

pub get_item-remove_item :
    (k j : Text) (s : Store)
    → get_item j (remove_item k s) ≡ (if text_eq k j then none else get_item j s)
unfolding get_item remove_item
get_item-remove_item k j [] = ground arith
get_item-remove_item k j ((i, v) ∷ s) =
    ground (arith, get_item-remove_item k j s, text_eq_iff k j, text_eq_iff i k, text_eq_iff i j)

pub get_item-set_item :
    (k j v : Text) (s : Store)
    → get_item j (set_item k v s) ≡ (if text_eq k j then some v else get_item j s)
unfolding set_item get_item
get_item-set_item k j v s = ground (arith, get_item-remove_item k j s)

abbrev key : Text
key = token_storage_key

get_item-remove_self : (s : Store) → get_item key (remove_item key s) ≡ none
unfolding text_eq
get_item-remove_self s = get_item-remove_item key key s

-- After `setToken` in a browser, whatever was stored before: the trimmed token is read back, and
-- the mode is the one that was asked for.
pub read_token-set_token :
    (token : Text) (session_only : Bool) (w : Window)
    → let after = set_token token session_only (some w) in
      (read_token after ≡ trim token)
      × (read_token_storage_mode after ≡ (if session_only then session else local))
unfolding set_token read_token read_token_storage_mode text_eq
read_token-set_token token true w = (refl, refl)
read_token-set_token token false w =
    let gone = get_item-remove_self w.session_storage in
    (rw (gone, read_token), rw (gone, read_token_storage_mode))

-- After `clearToken` there is no token in either store.
pub read_token-clear_token :
    (w : Window)
    → (read_token (clear_token (some w)) ≡ [])
      × (read_token_storage_mode (clear_token (some w)) ≡ nowhere)
unfolding clear_token read_token read_token_storage_mode
read_token-clear_token w =
    let gone = get_item-remove_self w.session_storage in
    let gone_too = get_item-remove_self w.local_storage in
    (rw (gone, gone_too, read_token), rw (gone, gone_too, read_token_storage_mode))

-- What each store has for `k`
abbrev pub entries : Text → Option Window → Option Text × Option Text
entries k none = (none, none)
entries k (some w) = (get_item k w.session_storage, get_item k w.local_storage)

-- After `setToken` the token stands in the one store asked for and not in the other, and the
-- entries under every other key are what they were, in both stores.
pub entries-set_token :
    (token : Text) (session_only : Bool) (w : Window) (k : Text)
    → entries k (set_token token session_only (some w)) ≡ (
        if text_eq key k
        then if session_only then (some (trim token), none) else (none, some (trim token))
        else entries k (some w))
unfolding set_token
entries-set_token token true w k =
    simp (get_item-set_item, get_item-remove_item) (pair_if (text_eq key k))
  where
    pair_if :
        (b : Bool)
        → ◌≡◌ {A = Option Text × Option Text}
            (
              if b then some (trim token) else get_item k w.session_storage,
              if b then none else get_item k w.local_storage,
            )
            (if b then (some (trim token), none) else entries k (some w))
    pair_if true = refl
    pair_if false = refl
entries-set_token token false w k =
    simp (get_item-set_item, get_item-remove_item) (pair_if (text_eq key k))
  where
    pair_if :
        (b : Bool)
        → ◌≡◌ {A = Option Text × Option Text}
            (
              if b then none else get_item k w.session_storage,
              if b then some (trim token) else get_item k w.local_storage,
            )
            (if b then (none, some (trim token)) else entries k (some w))
    pair_if true = refl
    pair_if false = refl
