-- ===== src/Lib.antt =====
-- The TypeScript of Vexil, a platform for feature flags on Kubernetes: the Node.js client that
-- applications read their flags with, and the dashboard in which flags are managed.
--
-- The parts, by the paths of the repository:
-- - Sdk: sdks/node/src/index.ts. The class Client is a record, its methods are functions of it. What
--   it asks of its surroundings (process.env, fetch, node:fs, JSON.parse, String, and toUpperCase and
--   toLowerCase, of which ASCII alone is known) is the record Host. Sdk/EnvNames, Sdk/Listing,
--   Sdk/ConfigMap and Sdk/Accessors are about its methods.
-- - Types: web/src/lib/types.ts, as records and data types with the source's fields and values.
-- - Flags/Page: web/src/app/flags/page.tsx. The useState variables are a record, a click or an input is
--   an event, `handle` is the handlers, `effect` the requests that they make, and `offers` the controls
--   that are shown to a role. Flags/Page/Filter is about the list, Flags/Page/Table about
--   its rows, Flags/Page/Dialogs, Flags/Page/Once and
--   Flags/Page/Requests about its requests.
-- - Flags/Create: web/src/components/flags/CreateFlagModal.tsx, the wizard, whose requests
--   Flags/Create/Delivery, whose states Flags/Create/Wizard and whose review Flags/Create/Review
--   describe. Its names meet those of the client in Flags/Create/Names and Flags/Create/Announced.
--   Flags/Values is the field for a value in both forms.
-- - Flags/Edit: web/src/components/flags/EditFlagModal.tsx, the form. Flags/Edit/Saving is about what it
--   sends, Flags/Edit/Editor about its rules: the form writes into rule objects that it shares with
--   the flag on the page, so that a rule is an address in a heap, and Flags/Edit/Editor/Refines
--   compares this with plain lists. Flags/Edit/Editor/Offers holds its controls, and
--   Flags/Edit/Editor/Typed is about the values that they let in. Flags/Labels is the text of a label selector in both forms,
--   Flags/Created about a flag that goes from the one to the other.
-- - Users: the users panel of web/src/app/settings/page.tsx, and Clusters: web/src/app/clusters/page.tsx,
--   both in the manner of Flags/Page, with the requests that have been sent in the state. Settings is
--   about the tabs around that panel.
-- - Workloads: web/src/app/workloads/page.tsx. Workloads/Steps is about the choices of the page,
--   Workloads/Shown about its list, Workloads/Masked about what a card shows of secrets.
-- - Overview: web/src/app/page.tsx, the dashboard, whose numbers Overview/Counts compares with the pages
--   of the flags and the clusters; Audit: web/src/app/audit/page.tsx.
-- - Sidebar: web/src/components/layout/Sidebar.tsx, with the search of the pages in Sidebar/Palette and
--   the logout in Sidebar/Leave. Utils: timeAgo of web/src/lib/utils.ts.
-- - Api: web/src/lib/api-client.ts. The browser is its storage and address; `settle` is what `request`
--   does with an answer, and Api/Endpoints holds the paths, methods and bodies of the calls.
-- - Proxy: web/src/app/api/v1/[...path]/route.ts, between the dashboard and the API server. Proxy/Client
--   puts the client of Api in front of it; what the router and `fetch` make of a call is a parameter.
-- - Auth: web/src/lib/auth.ts, web/src/app/providers.tsx and web/src/app/login/page.tsx: the session in the
--   store and in the storage, the guard of the pages, and the login. Auth/Expired puts them behind a
--   request that is answered with 401.
-- - App: the dashboard as one machine of Auth, Sidebar and Api. What the code starts and does not wait
--   for is an event of its own: the answers, also to a form that is gone, the run of the effect of the
--   guard, the arrival of the router, whose last navigation counts, and the load that an answer 401
--   starts. App/Guarded is about the session and what a load shows, App/Progress about the way to a page
--   with the sidebar, App/Authorized about the token of the calls.
-- - Dialogs: web/src/components/ui/ConfirmModal.tsx. A dialog is its props, with events of the page for the
--   callbacks, and a click goes from an element outwards. The modules Flags/Page/Confirm,
--   Clusters/Confirm and Flags/Edit/Editor/Confirm open it.
-- - What a part shows is a function of its state: Users/View (and Users/Shown, who sees it), Overview/View,
--   Sidebar/View, Auth/View, Flags/Create/Wizard/Frame and Flags/Edit/Editor/Summary.
-- - Prelude and Text hold what the parts share; a text is the list of its UTF-16 code units.
--
-- An exception is `none` or a constructor that says so. Promises are functions of the answer that
-- settles them, and the answer to a pending request is an event of its own. A number is printed with
-- its value and one as fuel for its digits, which are never more.
--
-- Times: the clock and the parser of dates are a parameter, the milliseconds that have passed, or
-- `none` for a text that is no date. A number that JavaScript holds as a double is a number here.
--
-- Not modelled: rendering and styles, with the error page that only renders; the server,
-- the operator and the clients in other languages; the cache of the queries, whose answers are events
-- or arguments; the order in which JavaScript lists keys that are numerals; React itself, which is
-- taken to run one handler at a time.
pub mod Prelude
pub mod Text
pub mod Sdk
pub mod Types
pub mod Flags
pub mod Api
pub mod App
pub mod Audit
pub mod Auth
pub mod Clusters
pub mod Dialogs
pub mod Overview
pub mod Proxy
pub mod Settings
pub mod Sidebar
pub mod Tests
pub mod Users
pub mod Utils
pub mod Workloads
