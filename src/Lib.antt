-- ===== src/Lib.antt =====
-- Verification of cron-agent-dashboard, a dashboard on which agents work off issues: its web client, and the
-- queue of runs of its server.
--
-- The server queues a run for each agent that is to work on an issue, and workers claim and end the runs. The
-- client reads issues, runs and agents from the server, keeps a bearer token, follows running agents over
-- event streams, and shows what it reads as chains of runs, pipelines, graphs and banners.
--
-- Parts, and the files that model them:
--   Api.Session    web/src/api/client.ts: readToken, readTokenStorageMode, setToken, clearToken
--   Api.Fetch      web/src/api/client.ts: request, ApiError, the wrappers of apiClient
--   Api.Stream     web/src/api/client.ts: dispatchSSEBlock, drainSSEBuffer, flushSSEBuffer and the
--                  reading loop of streamSSE; the frame writer of internal/httpapi/handlers_run.go
--   Api.Subscription  web/src/api/client.ts: streamSSE, its reconnect timer and its stop function
--   Api.Records    web/src/api/queries.ts: the response types
--   Api.Responses  web/src/api/queries.ts: the other response types
--   Api.Queries    web/src/api/queries.ts: the query hooks and buildIssuesQuery
--   Board          web/src/pages/BoardPage.tsx: filters, columns, card buttons, confirmed actions
--   Chains         web/src/lib/chainSummary.ts: summarizeChains
--   Labels         web/src/lib/runLabels.ts: the label tables
--   Toasts         web/src/components/ToastProvider.tsx: showToast, dismissToast
--   Mentions       web/src/components/MentionAutocomplete.tsx: getMentionQuery, insertAgent, the keys
--   Review         web/src/components/ReviewBanner.tsx: findRecovery and the figures
--   Pipeline       web/src/components/AgentPipelineStrip.tsx: the stages
--   Flow           web/src/components/IssueFlowGraph.tsx: buildIssueFlowGraph
--   Panels         web/src/components: IssueSummaryRail.tsx, TeamPulseWidget.tsx, MentionQueuePanel.tsx,
--                  LiveRunCard.tsx, ChainSummaryPanel.tsx
--   Pill           web/src/components/StatusPill.tsx: labels and classes
--   Widgets        web/src: RuntimeBadge.tsx, MutationErrorAlert.tsx, WorkspaceActivityStrip.tsx, the texts
--                  of TeamPulseWidget.tsx, the filter of WorkspaceRunsPage.tsx, the questions of
--                  IssueDetailPage.tsx, a duration of SettingsPage.tsx, the snooze test of AutopilotPage.tsx
--   Pages          web/src/pages, web/src/layouts and the dialogs of web/src/components: IssueDetail,
--                  AgentDetail, Autopilot, Settings, Home, Layout, Choices (the filters of AgentsPage.tsx,
--                  ModelSelect.tsx, WorkspaceSwitcher.tsx), Attachments, Webhooks, Formats (figures, dates)
--   Queue          internal/store/runs.go, cancellation.go, resource_controls.go: ClaimNextRun, the ends of
--                  a run, RescheduleRunForRetry; Queue.AutoChain: auto_chain.go
--   Prelude        shared tests, lists, texts, integers and the stable sort
--
-- A request takes its token from the session store, and the events of a stream are those of its
-- chunks; the records of both feed the chains, stages, graph and banner. The board turns its address
-- into the parameters of an issue query, and the query hooks decide what is cached under which key.
--
-- The issue page turns the handlers of its subscription into the fallback that polls, and joins the pieces into
-- which the server cuts a log. The rows of the queue change by whole transactions: a step is one of them, and
-- what holds of every reachable table is shown over the steps.
--
-- The model. A text is the list of its UTF-16 units, as JavaScript has it, and numbers are natural
-- numbers; where the source subtracts, the sign is kept or shown not to matter. `Array.sort` is a
-- stable insertion sort. Names keep the source's words in snake case.
--
-- A page is a state and what its handlers do: the requests, the queries read again, the notices. Of a row of
-- the `run` table those columns are kept that the statements read or that say where the run stands.
--
-- Parameters. `localeCompare` is a `Collation`: a total order, of which nothing else is known.
-- `fetch`, `Response.json`, `URLSearchParams.toString`, `toLowerCase`, `Date.parse`, `toFixed`, `Number` and
-- `JSON` are functions that the definitions take; the database's new ids and instants are arguments.
-- A response is its status and the parse of its body; the host's stores are lists of entries.
-- Which cached queries an invalidated key reaches is up to TanStack Query: a function, of which it is supposed
-- that it takes the keys that begin with the given one.
--
-- Fuel. `drain_loop` runs on the length of the buffer and one more; each round takes off two units at
-- least. `decimal` runs on the number it prints.
--
-- Not modelled: markup and the React hooks around it, the create dialogs, `normalizeRunMessage`, which is
-- regular expressions; of the server everything but the writer of event frames, the cutting of logs, the queue
-- and the automatic chains: comments, events and issues that the same transactions write, recovery, the worker,
-- the scheduler and the HTTP handlers.
pub mod Prelude
pub mod Api
pub mod Chains
pub mod Toasts
pub mod Mentions
pub mod Labels
pub mod Review
pub mod Pipeline
pub mod Flow
pub mod Board
pub mod Panels
pub mod Pill
pub mod Widgets
pub mod Pages
pub mod Queue
