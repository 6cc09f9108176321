-- ===== src/Lib.antt =====
-- Verification library of history-quiz: the server side of the Remix client, client/app.
--
-- A request reaches a route. The route reads the session (Session), checks the body's size
-- (RequestSize) and the form's CSRF token (Csrf), or the login (Auth), calls the backend over gRPC
-- (GrpcClient), and turns a failure into an HTTP answer (GrpcError). Every call of the backend is
-- counted (Observability). A login leaves for an OpenID provider (Oidc) and comes back at the
-- callback route (Login).
--
-- Files and sources; a function keeps its name, in snake case:
--   Prelude            shared helpers: texts and trim, decimals, parseInt, objects, JSON values
--   Errors             what code throws and returns: `Result` is a call that returns or throws
--   Runtime, Web       the JavaScript runtime as a parameter; Request, URL and FormData
--   GrpcError          client/app/services/grpc-error.server.ts: Codes (codes and statuses),
--                      Violations (field errors), Normalize (the answer); Status has the table of
--                      docs/tech.md; Known, Fields, Requests and Laws hold the proofs
--   Session            client/app/services/session.server.ts; Secrets for the signing keys, Tokens
--                      for hexadecimal texts
--   RequestId          createRequestId of client/app/grpc/client.server.ts
--   Csrf               client/app/services/csrf.server.ts
--   Auth               client/app/services/auth.server.ts
--   RequestSize        client/app/services/request-size.server.ts
--   Oidc               client/app/services/oidc.server.ts: Encoding, Config, Cache, Claims, Token,
--                      Flow
--   Login/Start        the loader and action of client/app/routes/login.tsx, as start_login and
--                      logout
--   Login/Callback     the loader of client/app/routes/auth.callback.tsx
--   Observability      client/app/services/observability.server.ts: Names, Samples, Percentile,
--                      Snapshots, Logs
--   GrpcClient         client/app/grpc/client.server.ts; Settings for the environment, Calls for a
--                      call's two halves, Clients for the singleton, Services for the calls by
--                      name of client/app/grpc/{quiz,question,user}.server.ts
--   Quiz               the action of client/app/routes/quiz.tsx, with client/app/schemas/quiz.ts
--                      and client/app/grpc/quiz.server.ts; Load for its loader
--   Question           client/app/grpc/question.server.ts; Schema for client/app/schemas/question.ts,
--                      Posts for what both forms share, Create for the loader and action of
--                      client/app/routes/questions.new.tsx, Initial, Edit and Edit/Load for
--                      client/app/routes/questions.$id.edit.tsx; the Journey modules run a
--                      form's loader and action one after the other
--   Me                 the loader of client/app/routes/me.tsx; Messages for its messages
--   Entry              client/app/entry.server.tsx
--   Views              the values that the page with a question shows, and the error boundaries
--   Tests              every result at a concrete input, on the world of Tests/World
--
-- State is passed explicitly: a cookie session is the value that a cookie storage reads and commits,
-- the caches of discovery documents and key sets and the metric store go in and come out of the
-- functions that use them. An exception is a value of `Thrown`; what was cached before it stays.
--
-- Parameters. The cookie storage of Remix reads an empty session without a cookie, and reads back
-- what it committed. `UpperCase` leaves no small letter and keeps capitals. The network, the clock,
-- random bytes, WebCrypto, JSON.parse, atob, btoa and TextDecoder are functions without hypotheses.
-- The backend is a function of the message, the metadata and the deadline. The parse of a form by
-- zod is a function of the form; that of a question lets through only drafts that satisfy the schema.
--
-- Bounds. No definition uses fuel: every loop runs over a list or a text. Numbers are natural; a
-- Content-Length is refused from the least integer on that a double cannot hold. Latencies are kept
-- for 512 calls; the percentile's index is computed in integers, which agrees with the doubles for
-- windows below 2000. Clock differences stop at 0, as Math.max does in the source. The
-- error rate of a snapshot is kept as a numerator and a denominator, where the source divides two
-- doubles.
--
-- Concurrency. The three calls of the my page are in flight together: the loader is a function of the
-- order in which they are answered. The answer to a page is a fold over the callbacks of React, in any
-- sequence.
--
-- Not modelled: the Go backend, the markup of React components and the components that only show
-- their data, the parsing of .proto files, the cookie's attributes, and the JSON text of log lines.
-- The loaders and actions take the method of a client that was made: a failure of getGrpcClients,
-- which comes before the call and which their catch clauses answer, is in GrpcClient/Clients and
-- GrpcClient/Services alone.
pub mod Prelude
pub mod Entry
pub mod Errors
pub mod Me
pub mod Runtime
pub mod GrpcError
pub mod Views
pub mod Web
pub mod Session
pub mod RequestId
pub mod Csrf
pub mod Auth
pub mod RequestSize
pub mod Oidc
pub mod Login
pub mod Observability
pub mod GrpcClient
pub mod Quiz
pub mod Question
mod Tests
