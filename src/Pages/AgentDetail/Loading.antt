-- ===== src/Pages/AgentDetail/Loading.antt =====
-- When the form is loaded.
use cron_agent_dashboard.Pages.AgentDetail.{
  handle, RetryFields, AgentForm, Page, PageEvent, reads, edits, saves, form_of_agent, load, react,
  run, is_loaded,
}
use cron_agent_dashboard.Prelude.{
  ◌≡◌, refl, ◌⊎◌, inl, inr, true, ◌&&◌, Option, none, some, List, [], ◌∷◌, arith, Text, text_eq,
  text_eq_iff, text_eq_refl, Bool-cases, Option-cases, All,
}
use cron_agent_dashboard.Api.Records.{Agent}

-- The agent last read is loaded, and a form without unsaved changes shows it.
abbrev pub Shows : (Option Text → RetryFields) → Page → Agent → Type 0
Shows fields p agent =
    (p.loaded_agent_id ≡ some agent.id) × ((p.dirty ≡ true) ⊎ (p.form ≡ form_of_agent fields agent))

abbrev pub IsValid : (Option Text → RetryFields) → Page → Type 0
IsValid fields p = elim p.data_read [ none ↦ Unit | some agent ↦ Shows fields p agent ]

is_loaded-eq :
    (p : Page) (agent : Agent) → is_loaded p agent ≡ true → p.loaded_agent_id ≡ some agent.id
is_loaded-eq p agent h = elim (Option-cases p.loaded_agent_id) [
  | inl e ↦ ground (arith, h, e)
  | inr (id, e) ↦ ground (arith, h, e, text_eq_iff id agent.id)
]

load-Shows :
    (fields : Option Text → RetryFields) (p : Page) (agent : Agent)
    → p.data_read ≡ some agent
    → Shows fields (load fields p) agent
unfolding load
load-Shows fields p agent e = elim (Bool-cases (is_loaded p agent && p.dirty)) [
  | inl b ↦ rw (e, b, load) (is_loaded-eq p agent (ground (arith, b)), inl (ground (arith, b)))
  | inr b ↦ rw (e, b, load) (refl, inr refl)
]

load_keeps_data :
    (fields : Option Text → RetryFields) (p : Page) → (load fields p).data_read ≡ p.data_read
unfolding load
load_keeps_data fields p = elim (Option-cases p.data_read) [
  | inl e ↦ ground (arith, e)
  | inr (agent, e) ↦ ground (arith, e)
]

load-IsValid : (fields : Option Text → RetryFields) (p : Page) → IsValid fields (load fields p)
load-IsValid fields p = elim (Option-cases p.data_read) [
  | inl e ↦ rw (load_keeps_data fields p, e) tt
  | inr (agent, e) ↦ rw (load_keeps_data fields p, e) (load-Shows fields p agent e)
]

-- After any events, once one has come, and where an agent was read: the last one is loaded, and a form
-- without unsaved changes shows it.
pub run-IsValid :
    (fields : Option Text → RetryFields) (p : Page) (e : PageEvent) (es : List PageEvent)
    → IsValid fields (run fields p (e ∷ es))
unfolding run react
run-IsValid fields p e [] = load-IsValid fields (handle p e)
run-IsValid fields p e (f ∷ es) = run-IsValid fields (react fields p e) f es

-- An event that leaves unsaved changes alone: a change of the form, or a new answer for the same agent
abbrev pub KeepsEdits : Agent → PageEvent → Type 0
KeepsEdits agent (reads newer) = text_eq agent.id newer.id ≡ true
KeepsEdits agent (edits patch) = Unit
KeepsEdits agent saves = ⊥

-- The changes among the events, one after the other
unfoldable pub typed : List PageEvent → AgentForm → AgentForm
typed [] form = form
typed (edits patch ∷ es) form = typed es (patch form)
typed (reads agent ∷ es) form = typed es form
typed (saves ∷ es) form = typed es form

-- A page with unsaved changes to an agent
record IsDirty (agent : Agent) (p : Page) : Type 0 where
  dirty : p.dirty ≡ true
  loaded : p.loaded_agent_id ≡ some agent.id
  last : Agent
  data_read : p.data_read ≡ some last
  same : text_eq agent.id last.id ≡ true

load_dirty :
    (fields : Option Text → RetryFields) (agent : Agent) (p : Page)
    → IsDirty agent p
    → load fields p ≡ p
unfolding load
load_dirty fields agent p d = ground (arith, d.dirty, d.loaded, d.data_read, d.same)

run_dirty :
    (fields : Option Text → RetryFields) (agent : Agent) (p : Page) (es : List PageEvent)
    → IsDirty agent p
    → All (KeepsEdits agent) es
    → (run fields p es).form ≡ typed es p.form
unfolding run react typed
run_dirty fields agent p [] d k = refl
run_dirty fields agent p (reads newer ∷ es) d k =
    let e : IsDirty agent (record p { data_read = some newer }) = record {
      dirty = d.dirty;
      loaded = d.loaded;
      last = newer;
      data_read = refl;
      same = k.0;
    } in
    rw (load_dirty fields agent _ e, run, react) (run_dirty fields agent _ es e k.1)
run_dirty fields agent p (edits patch ∷ es) d k =
    let e : IsDirty agent (record p { dirty = true; form = patch p.form }) = record {
      dirty = refl;
      loaded = d.loaded;
      last = d.last;
      data_read = d.data_read;
      same = d.same;
    } in
    rw (load_dirty fields agent _ e, run, react) (run_dirty fields agent _ es e k.1)
run_dirty fields agent p (saves ∷ es) d k = absurd k.0

-- Once the form of a loaded agent has been changed, it is what was typed, as long as nothing is saved and no
-- other agent is read: a new answer for the agent does not overwrite it.
pub run-typed :
    (fields : Option Text → RetryFields) (p : Page) (agent : Agent) (patch : AgentForm → AgentForm)
    (es : List PageEvent)
    → p.data_read ≡ some agent
    → p.loaded_agent_id ≡ some agent.id
    → All (KeepsEdits agent) es
    → (run fields p (edits patch ∷ es)).form ≡ typed es (patch p.form)
unfolding run react
run-typed fields p agent patch es d l k =
    let e : IsDirty agent (record p { dirty = true; form = patch p.form }) = record {
      dirty = refl;
      loaded = l;
      last = agent;
      data_read = d;
      same = text_eq_refl agent.id;
    } in
    rw (load_dirty fields agent _ e, run, react) (run_dirty fields agent _ es e k)

-- When the changes to a loaded agent have been saved, the form goes back to the agent as it was last read;
-- and if it is changed again before the saved agent is read, the fields that are not touched keep their
-- old values even after that.
pub run_saved :
    (fields : Option Text → RetryFields) (p : Page) (agent saved : Agent)
    (patch : AgentForm → AgentForm)
    → p.dirty ≡ true
    → p.data_read ≡ some agent
    → p.loaded_agent_id ≡ some agent.id
    → text_eq agent.id saved.id ≡ true
    → ((run fields p (saves ∷ [])).form ≡ form_of_agent fields agent)
      × ((run fields p (saves ∷ edits patch ∷ reads saved ∷ [])).form
          ≡ patch (form_of_agent fields agent))
unfolding run react load
run_saved fields p agent saved patch w d l same =
    (ground (arith, d, l), ground (arith, d, l, same, text_eq_refl agent.id))
