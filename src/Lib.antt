-- ===== src/Lib.antt =====
-- The services layer of League Table, frontend/services/: a class ranks its students by a weighted
-- score that is adjusted for hours of work and care, and flags those at risk.
--
-- The parts. `createApi` of frontend/services/api.js answers every call of the screens. It reads a
-- data source (classes, students, criteria, weeks, entries) and an app store (settings, commitments,
-- notes), keeps one snapshot of each class in a cache, and passes the snapshot to the pure functions
-- of frontend/services/scoring.js, which score and rank, and of frontend/services/risk.js, which
-- evaluate the risk signals. frontend/services/mockSource.js has a source and an in-memory store.
-- The screens, frontend/League Table.dc.html, send their requests to the backend, which answers the
-- same calls, through the client frontend/services/httpApi.js.
--
-- The files, with the code that each is about:
--   Prelude    JavaScript's arrays, dictionaries, stable sort and texts over lists and native numbers
--   Number     JavaScript's doubles as an interface: operations (Number), the laws of IEEE 754 that
--              the theorems use (Number.Laws), an instance in thousandths for tests (Number.Fixed)
--   Model      the rows and results that the parts exchange
--   Scoring    scoring.js: Raw (normalise, aggregate, scoreStudent), Commitment (resolveHours,
--              weightedHours, commitmentFactor, adjust, mean), Ranking (rankRows, gapToNext,
--              gapToBelow), Weights (normaliseWeights), Names (displayName)
--   Risk       risk.js: Types (constants, levelFor), Measure (declineRun, missingRun, measure),
--              Signals (SIGNAL_DEFINITIONS), Evaluate (evaluateSignals, diffState)
--   Api        api.js: Types (ApiError, the interfaces DataSource and AppStore, the state), Create
--              (createApi), Load (load, dataCheck), Weeks and Snapshot (the windows, buildRows,
--              riskWeekly), Table (getRanking), Explain (getExplanation, getExplainer,
--              getCommitments), Bootstrap (getBootstrap), Evaluate (evaluateClass), Digest
--              (getDigest), Standing (getRiskRecord, getMyStanding), Writes (addNote, saveSettings,
--              saveRiskSettings, refresh, getStatus), Contract (what api.js asks of a store),
--              Interleave (calls in flight together: `load` and `saveSettings` cut where they
--              await)
--   Store      createToyAppStore of mockSource.js, an implementation of AppStore, and its seeds
--   Source     createToySource of mockSource.js, an implementation of DataSource: Random
--              (mulberry32), Fixtures (the constants, buildWeeks, buildStudents), Entries
--   Http       httpApi.js, the client of the backend with the same calls: Send (tokenFor,
--              messageFrom, send), Endpoints (viewQuery and the methods), over a `Browser`, the
--              parameter for fetch, URLSearchParams, encodeURIComponent and JSON.stringify
--   Screen     the component of frontend/League Table.dc.html: its state (Types), the requests of each
--              tab (Show), the handlers of what a user does (Handlers, Events), what is done with an
--              answer (Answers), the runs of the page, in which answers arrive in any order (Steps),
--              the calls of the client that its reads are (Calls), and the league table and the podium
--              that it shows (Table)
--   Runner     scripts/run-frontend-tests.mjs, which runs the test suites and counts their results
--   Examples   the theorems at concrete inputs
--
-- The state. `ApiState` holds the variables that `createApi` closes over (caches, lastRefreshAt,
-- forcedError) with the state of the store. A call is an `Action`: it takes the state and gives a
-- result, a value or a thrown error, and the state that it leaves. The clock and the random draw of
-- `failRate` are an argument, `Env`. `localeCompare` is a parameter, and so are the source and the
-- store. An action is a call that runs to its end. Api.Interleave has the calls in flight together:
-- a `World` is the state with the tasks that are suspended, and `Step` is one of them going on, or a
-- call that starts.
--
-- Numbers are any type with the operations of `Number`. Theorems that need an order take
-- `IsOrdered`, laws that hold of all doubles, and say where a value must not be NaN. Ranks, counts,
-- week numbers and times are native natural numbers. Texts of numbers take fuel, one step for each
-- digit, with one more than the number itself, which is always enough; all else is structural.
--
-- The screens. `Screen` is the state of the component, `handle` what it does on an event that the page
-- offers, `answered` what it does with an answer; both give the requests that they send. A `Page` adds
-- the requests in flight. A class has at least one week, and `setState` is done where it is called.
--
-- Not modelled: the delays of `latency`, dates and other fields that no code reads, and a request's
-- fields that an answer only echoes. Of the screens, the markup, colours and sizes, the texts
-- outside the table and the podium, the drafts of the forms, the theme and the keyboard focus are
-- left out. In the state machine what an answer contains is a document that is not looked into, and
-- a request that reads twice has one answer; weights that are saved while the page logs out leave
-- it without a boot, where the code leaves one without weeks; Screen.Table reads the rows that
-- api.js makes. The Python backend and the tests themselves are outside.
pub mod Prelude
pub mod Number
pub mod Model
pub mod Scoring
pub mod Risk
pub mod Api
pub mod Store
pub mod Source
pub mod Http
pub mod Screen
pub mod Runner
pub mod Examples
