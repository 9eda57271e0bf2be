-- ===== src/Lib.antt =====
-- OpenARK: the parts of the program that decide, with proofs that they decide rightly.
--
-- The program is a set of Kubernetes operators and services. This library models seven of its systems.
--
-- Dependency (crates/kubegraph/dependency/graph/src/lib.rs) is the search of kubegraph for chains of
-- functions that turn the features of a source into those of a sink. `build_pipeline` is
-- `Graph::build_pipeline`; its two loops over the nodes are `scan` over the bodies `start_node` and
-- `visit_node`, its queue is `search`. A node is known by its index. The search is on fuel: with m nodes
-- left to visit a state of the queue costs at most `room m` rounds, since no path visits a node twice,
-- and so `length nodes * room (length nodes)` is enough (`Dependency.Ends`). `Path` says what a pipeline
-- is, `Scan` and `Passes` hold the induction over the loops, `Sound`, `Complete` and `Shortest` the
-- theorems.
--
-- Market (crates/kubegraph/market) trades the use of functions. `Market.Database` is the store of the
-- gateway (gateway/src/db.rs over the rows of entity/src), one function per statement, and what the
-- tables of migration/src refuse and take along, with `Laws`, and `Tables` puts its operations in any row;
-- `Paging` is the stream of pages of the client (client/src/page.rs), and `Listing` the histogram that
-- the client reads through it; `Solver` is the trivial solver (solver/trivial/src/lib.rs), which matches
-- the cheapest pubs with the highest subs, in rounds on fuel that counts the items, of which each round
-- uses up one (`Solver.Ends`); `Trade` is `trade_on_db` and `trade` of the gateway, with every statement
-- that may fail in a record of faults, or is refused by the tables; `Trade.Agent` is the row of trades that the agent
-- (solver/src/agent.rs) makes of the solver's templates. The client reads what the gateway lists, the
-- solver reads what the client yields, and the agent hands its templates to the gateway. An `i64` is an
-- integer, and differences of counts wrap as two's complement. JSON values, their conversion, drawn ids
-- and times are arguments.
--
-- Kiss (crates/kiss) provisions machines, called boxes. `Kiss` is the resource (api/src/box.rs), with one
-- function for each method of `BoxState`; `Kiss.Operator` is the reconcile of the operator
-- (operator/src/ctx.rs), its early returns as values, and `Operator.Moves` the state machine that it
-- implements; `Kiss.Monitor` follows the Ansible jobs (monitor/src/ctx.rs), `Kiss.Gateway` is what the
-- boxes report to (gateway/src/main.rs), `Kiss.Cluster` the state of a cluster, by which joining is put
-- in a row (ansible/src/cluster.rs), and `Kiss.System` puts a box under all of these at once, as a
-- relation of steps in any order. The operator sees `Kiss.Cluster` through the answer of the spawning of
-- a job, which is an argument of its model.
--
-- Dash (crates/dash) runs tasks as jobs. `Dash` is the resource (api/src/job.rs) and the interface of
-- Kubernetes, what it documents of the requests that it accepts; `Dash.Job` is the reconcile
-- (operator/src/ctx/job.rs) with the finalizers (crates/ark/core/k8s/src/manager.rs), a function from what
-- it meets to the request that is accepted; `Job.Moves` is its state machine, `Job.Ends` and `Job.Life`
-- follow the object of a job to its end.
--
-- Template (crates/dash/provider/src/input.rs) turns the items of Kubernetes into items of a model, whose
-- fields (crates/dash/api/src/model.rs) are in `Template`, with JSON values. `Template.Checks` holds the
-- tests on values, `Visit` is `try_get_field`, which makes the fields on its way, `Item` the updates of
-- `ItemTemplate`, and `Fill` the defaults and `convert_model_item` (storage/kubernetes.rs). A panic is an
-- outcome of its own. The stack is fuel for `fill_default_value`, and as many rounds as the longest name of
-- the model has words, and two, are enough. `Typed` says when a value has the types of a model, and its
-- children follow them through a visit, an update, the filling and the conversion; `Required` says which
-- values a model asks for. Parsing of texts, the case of keys and JSON numbers come as a record of
-- operations (`Codec`).
--
-- Vine (crates/vine) signs users in. `Vine` holds the resources (api/src), `Vine.Roles` the role of a user,
-- a union over its bindings, and `Vine.Session` the sign-in and the change of the namespace of a session
-- (rbac/src/auth.rs); `Session.Confined` says where a session may come to stand.
--
-- Vm (crates/kubegraph/vm/lazy, over the instructions of crates/kubegraph/api/src/vm.rs and the syntax of
-- crates/kubegraph/parser) compiles the scripts and filters of kubegraph and runs them over the frames of
-- a graph. `Vm` holds both languages, `Vm.Fold` the folding of constants (the operators of `Value`),
-- `Vm.Compile` the methods of `impl_execute`, with the instructions made so far as a state,
-- `Vm.Variables` and `Vm.Call` the machine of `impl_call`, its heap, its stack and the loop of
-- `Context::call`, whose calls stop at the first error. `Vm.Meaning` evaluates the text of a script
-- itself, without instructions or a stack, and `Vm.Correct` holds the compiler and the machine against it.
-- Frames, their columns and floating-point numbers are wrappers of other packages, and come as a record of
-- operations (`Kernel`); a script starts as the grammar, which is generated, would leave it.
--
-- Prelude holds the names that all share, tests on numbers, lists measured by native numbers, and the
-- integers; Sort holds the filters and sorts of the standard library.
--
-- Not modelled: the calls of Kubernetes, of the database and of HTTP themselves, which are arguments that
-- may fail; logging; the objects of Ansible jobs; the loop of kubegraph's network, the other reconcilers
-- of dash, the rest of vine, and straw.
pub mod Prelude
pub mod Sort
pub mod Dependency
pub mod Market
pub mod Kiss
pub mod Dash
pub mod Vine
pub mod Template
pub mod Vm
