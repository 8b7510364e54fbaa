-- ===== src/Lib.antt =====
-- The dashboard of RustDesk Plus: the administration site (Next.js, TypeScript) of a server that
-- manages RustDesk clients, in dashboard/src. Its pages keep their state in React hooks, speak to
-- the server over HTTP by the functions of dashboard/src/lib/api.ts, and keep the session in the
-- storage of the browser.
--
-- A page's state is a record of its hooks, and a handler is a function from the state before to
-- the state after. A handler with an `await` is cut there: what it does at once is one function,
-- what it does with each answer is another, and a sequence of those is an order of events. What
-- the server answers, what React Flow makes of the canvas and the clock are arguments.
--
-- Common holds what the components share: texts as lists of UTF-16 code units with the string
-- methods that the code calls, their percent encoding, lists measured by the native numbers,
-- dictionaries, integers, a stable sort. `decimal` divides on fuel, the number itself and one more:
-- a number has no more digits than that. Common/Percent/Decode reads percent encoding and UTF-8
-- back, Common/Percent/Form and Query the parameters of a query.
--
-- A module that draws (View, Panel, Results, Shown, Rows, Cards and the like) gives what a component
-- draws of its state as a record: its texts, lists, buttons and which parts are there, without the
-- styles and icons.
--
-- Api: dashboard/src/lib/api.ts and auth.ts.
--   Api/Types, Api/Scripts: the data types. A string is a text, null and undefined are `none`, a
--   time is the text that the server sends.
--   Api/Session: the token, the user and the active tenant in the browser (getToken to
--   setActiveTenant, getStoredUser, setStoredUser).
--   Api/Admin, Api/DeviceCalls, Api/ScriptCalls, Api/Queries: the path, query and body of each call;
--   Api/Queries/Sent reads the query back.
--   Api/ScriptReader reads the JSON of a script back, by the names in its interfaces.
--   Api/Http: `request`, as `build` (what is sent) and `receive` (what the reply becomes), and
--   Api/Variants: the calls that write `fetch` out. Their laws are in Api/SessionLaws.
-- Terminal: dashboard/src/app/(protected)/terminal/page.tsx.
--   Terminal/Output: the marked line that carries the working directory (wrapForCwd, extractCwd,
--   stripSentinel, buildPrompt).
--   Terminal/Page: the hooks. Terminal/Run: onRun, cut at its awaits, and onTenantChange.
--   Terminal/Poll: its polling interval and time limit of 120 seconds. Terminal/Keys: onKeyDown and
--   typing.
--   Terminal/Events: the page as a machine over all its handlers, with its laws: Launches,
--   History, Tracking, Ends, Settles, Single (how many commands run at once), Chosen (in the
--   name of which tenant they run), Moved (an answer that comes after the tenant was changed) and
--   Completes (a command from the key to its last result).
--   Terminal/View: the output, the input line, in View/Config the choice of the target and in
--   View/Window the whole page; laws in View/Elapsed and View/Input.
-- Scripts: dashboard/src/app/(protected)/scripts/page.tsx.
--   Scripts/Flow: definitionToFlow and flowToDefinition.
--   Scripts/Builder: BuilderTab, with Edit (the canvas), Save (scheduleSave) and Library (create,
--   delete, export, import); laws in Invariant, Listed and Faults, and in Sent what a save sends.
--   Builder/Edits makes edits one after another, Builder/Reopened is about a script that is opened
--   while a save is still to come, Builder/Reopens about what is shown when the script is opened
--   again; the server that keeps the scripts is a parameter there (ScriptServer).
--   Scripts/Panel: NodeConfigPanel. Scripts/Controls: the fields and buttons of the tabs.
--   Scripts/Execute: ExecuteTab; laws in Targets and Progress, in Ends and Completes a run from its
--   start to its end, in Selection the selected devices without their order. Scripts/History:
--   HistoryTab and the previews of the nodes. Scripts/Results: statusBadge, DeviceResultList and the
--   rows of the history. Scripts/ExecuteView: the drawing of ExecuteTab, Scripts/BuilderView that of
--   BuilderTab.
-- Devices: dashboard/src/app/(protected)/devices/page.tsx.
--   Devices/Ids: fmtId, isNumericId, connectDevice. Devices/Show: fmtOnlineSince, detectOS, names.
--   Devices/Dialog: DeviceModal and the buttons of the cards. Devices/Load: `load` of DevicesPage,
--   with its laws on tags, on the order and on what it asks for. Devices/Events: the controls
--   of DevicesPage and when the list is asked for; Events/Sync adds the calls that are under way.
--   Devices/View: the cards, rows and the trash. Devices/Modal: DeviceModal.
-- Shell: dashboard/src/app/(protected)/layout.tsx, dashboard/src/app/login/page.tsx and
--   dashboard/src/app/page.tsx.
--   Shell/Guard: the redirects of ProtectedLayout, logout, exitTenant, and enterTenant of
--   dashboard/src/app/(protected)/tenants/page.tsx. Shell/Menu: the menu. Shell/Login: LoginPage.
--   Shell/Frame and Shell/LoginView: what both draw. Shell/Sessions: the session as an abstract
--   machine. Laws in Access, Offered and Entry.
-- Admin: the other pages of dashboard/src/app/(protected): tenants (Admin/Tenants), users, branches
--   and tags (Admin/Places), settings, custom-client (Admin/Branding), audit, dashboard
--   (Admin/Overview, with Links for the two ways from there into a tenant).
-- Tests holds runs at concrete inputs.
--
-- The rules of the language that matter: a handler sees the state of the drawing it belongs to
-- (`seen` in Scripts/Builder), whereas a functional update sees the state at its turn; "" and null
-- are falsy.
--
-- Not modelled: the styles, icons, focus and scrolling of the pages; the server, the agent and the
-- installer, which are other programs; @xyflow/react and Next.js, whose functions are arguments
-- where the code relies on them. The order of names (localeCompare), which depends on the language
-- of the browser, the reading and writing of times (Date), and the percentages of the overview, which
-- are rounded quotients of floating point numbers, are arguments too.
-- The positions of nodes are integers, which those of the canvas need not be, and the seconds of a
-- node are a natural number. The edits that Builder/Edits makes one after another are those of the
-- buttons, the panel and connections; dragging and the Delete key are handlers of Builder/Edit.
-- A page that the guard refuses may stay drawn until its redirect has come. A call of `load` of the
-- devices page that fails is not among the events of Events/Sync.
pub mod Admin
pub mod Api
pub mod Common
pub mod Devices
pub mod Scripts
pub mod Shell
pub mod Terminal
pub mod Tests
