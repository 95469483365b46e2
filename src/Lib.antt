-- ===== src/Lib.antt =====
-- A model of the core of FastPage, a service that builds tree indexes of documents with a language
-- model and answers questions on them inside workspaces, and the proofs that this core is correct.
-- Each file opens with the code that it is about. Tests and concrete instances stand in the files
-- called Examples.
--
-- The parts, with paths from the repository's root:
--
-- - Access (app/services/workspace_access_service.py, app/core/principal.py): the role matrix and
--   stored overrides become the capabilities of a principal (Roles, Override, Resolve, Principal),
--   which decide who reads and edits knowledge bases and skills (Resources). An answer of HTTP is
--   a value of Result in Http. JSON texts are read and written by a library: `loads` and `dumps`
--   are arguments, and a theorem that needs more of them says so by a hypothesis (a codec gives
--   back the entries that it was given).
--
-- - Workspace (app/services/workspace_membership_service.py,
--   app/services/workspace_admin_service.py over app/models): the tables are lists of rows
--   (Models), a query keeps rows and sorts them (Queries), Resolution finds the workspace of a
--   request, Guards has the checks of the administration, and Members, Founder, Slug and Lifecycle
--   its operations. An operation takes the tables and answers with a result and the tables that it
--   commits. Steps makes them a step relation whose runs are sequences of requests; Invariant is
--   about every such run. Times and the ids of new rows are arguments; a row's id is fresh, as a
--   UUID is.
--
-- - Markdown (pageindex/page_index_md.py): from a text to headings (Patterns, Headings), sections
--   (Sections), token counts (Tokens), thinning (Thinning) and the tree (Build, over a store of
--   nodes, since the code keeps pointers on a stack), put together in Pipeline. A text is a list
--   of code points (Chars). The tokenizer is an argument.
--
-- - Auth (app/core/auth.py): the context that a user works in, and the claims of an access token;
--   `encode` signs them.
--
-- - Invite (app/services/workspace_invite_service.py): invites beside the tables of Workspace
--   (Models), the normal form and the mask of an email (Emails), the checks (Guards), listing,
--   creating and withdrawing (Manage), the preview, and what accepting (Accept) and claiming
--   (Claim) an invite share (Join). Change says how the table of invites may change and Orderly
--   what such a change keeps; Requests, Joins, Effects and Creation show that each request changes
--   the tables so, and Steps interleaves them with the requests of Workspace. Member, Accepted and
--   Session follow an accepted invite into the session that it gives; Addressed goes back from the
--   session. Each reading of the clock, new ids, the hash of a password and `lower` are arguments.
--   Stored emails are in their normal form, so that the index on pending invites compares them as
--   they are.
--
-- - Retrieve (pageindex/retrieve.py): a request for pages (Numbers, Pages) against a description
--   of what it names (Sorted, Named, Parsed), and the content of pages (Documents); the traversal
--   of a Markdown tree is a walk along its nodes (Lines) that collects results (Selected), which
--   gives the whole of the answer (Content). `int` is read for ASCII digits. Reading a PDF is an
--   argument.
--
-- - Events (app/services/task_queue_service.py): the local event bus (Bus) as a refinement of what
--   it promises (Views, Refines).
--
-- - Sessions (app/services/session_service.py): the tables of sessions and messages (Models),
--   which sessions a principal sees and creates (Scope), and the appending and listing of messages
--   (Messages). Numbered makes calls a step relation, over what Orderly says of the messages of a
--   store; Again is about a call that is repeated, Listed about what a session lists (Selected)
--   after a message, Made about a new session, in its lists too (Entries), and Visible about one
--   that is found. A call runs in one piece, and `limit` is a natural number, since one below zero
--   is no limit either.
--
-- - Toc (pageindex/page_index.py): the pages with a table of contents (FindPages), the offset
--   between printed numbers and page indices (Offset), the groups of pages for a prompt (Groups),
--   and the checking and fixing of page indices up to the choice of the mode (Entries, Check, Fix,
--   Meta). What the language model answers is an argument, for fixing a function of the attempt
--   too; an exception is `none`. Concurrent checks read a table that is written only after all of
--   them have ended, so their order does not matter.
--
-- - Reuse (`RunReuseCache` of pageindex/utils.py): a call of `load_once` is cut into the stretches
--   that run under the lock or touch a future (Cache); Runs lets any number of calls and `close`
--   take their stretches in any order, from an empty cache. A loader returns a value or raises an
--   Exception.
--
-- - Tree (`post_processing`, `list_to_tree`, `write_node_id`, `structure_to_list` and
--   `create_node_mapping` of pageindex/utils.py): page ranges for the flat entries and the tree by
--   their structure codes (Codes, Flat), against an independent description of parents and
--   children (Parents); the numbering of trees, their lists of nodes and the mapping by id
--   (Nodes), with the reading back of an id (Numbers, Ids).
--
-- The loop of `check_toc` runs on fuel, and one more than the number of pages is enough, since
-- each round starts behind the last page found; every other loop is structural. Integers are
-- unbounded in Python; a page index may be negative and is a signed integer (Prelude/Int), with
-- Python's count from the end for a negative subscript. Quotients of floats are exact here: the
-- average of tokens, and the accuracy that is compared with 1 and 0.6.
--
-- Not modelled are the prompts, reading of PDF files, storage, telemetry, the user interface, and
-- the services that the manifest lists as planned: the jobs of the task queue, routing, providers
-- and the other utilities of trees. Of the administration of workspaces the default provider is
-- left out. A conflict that only a second request between a check and the commit can cause is left
-- out, since requests run one after the other.
pub mod Prelude
pub mod Json
pub mod Http
pub mod Chars
pub mod Access
pub mod Markdown
pub mod Workspace
pub mod Toc
pub mod Reuse
pub mod Tree
pub mod Auth
pub mod Invite
pub mod Retrieve
pub mod Events
pub mod Sessions
