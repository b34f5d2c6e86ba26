-- ===== src/Lib.antt =====
-- Verification of smartlibs: the parts of its task runner (smart/auto), its web layer (smart/rest),
-- its task service (smart/aaas), its evaluation tools (smart/evals) and its utilities (smart/utils)
-- that compute without files, networks or processes.
--
-- The parts and how they interact:
-- - Prelude, Dict, Text: shared tests, lists, keys, Python's dict as an association list in the order
--   of insertion, and the operations on texts (a text is the list of its code points).
-- - Url (smart/rest/util/url_path.py): `url_path_match` as `begin`, `scan` and `try_suffixes`, with
--   the capture dictionary passed along, and `split_pathes_to_fix_and_pattern`.
-- - Route (smart/rest/app/route_manage.py): `RouteManage.init` builds the table of routes, and
--   `find_handler` searches it with the match of Url, from the longest fixed path to the empty one.
-- - Batch (smart/utils/batch/BatchIter.py) and Batch.Recv (BatchItemRecv.py, with min_timeout of
--   smart/utils/common/timeout.py): batches of an iterator, and of a receiver with time-outs.
-- - Pip (smart/auto/pip): `QueuePip.recv` on the answers of `Queue.get`, and `Broadcast`.
--   Pip.ItemRecv is QueuePipItemRecv.py on top of it, and batch_task of auto_tasks/tools/batch.py
--   feeds that receiver to Batch.Recv.
-- - Pip.Workers (smart/auto/exec/task_pod.py): the workers of a task on one pipe, as a step relation.
-- - TaskExp (smart/auto/parser/tools.py): `MethodArgsParser`, `parse_task_exp`, `base_task_key`.
-- - KeyPath: `resolve_key_path` of the same file and `resolve_dotted_path` of smart/utils/dot_path.py.
-- - TaskFinder: the class of that name in smart/auto/parser/tools.py, from the load of its three maps
--   to its lookups.
-- - TaskKey (smart/auto/meta.py and smart/auto/parser/task.py): the parts of a task key, and the
--   task that TaskFinder finds for it.
-- - FnChain (smart/auto/exec/fn_chain.py): the chain of function blocks that a task or a hook runs.
-- - Retry: `RetryFn` of smart/utils/retry.py, and the restart loop `run_task` with `_err_cb` of
--   smart/auto/exec/task_pod.py.
-- - GroupBy (smart/utils/item.py): `ItemGroupBy` in both of its modes.
-- - Manage (smart/aaas/auto_manage.py): the task dictionary of the task service and what a worker, a
--   finished job, a request to end and the cleaning do to one task; Manage.Calls is `call_auto_run`,
--   Manage.System all of it as a step relation, Manage.Ending `end_task`, and Manage.Stages
--   the waits of smart/aaas/utils/task_info.py.
-- - Items (smart/evals/core/item.py): `ItemList`, and Items.Matrix with the join of `ItemMatrix`.
-- - Aggregate (smart/evals/core/aggregate.py): `AggregateView`.
-- - Labels (smart/evals/core/label_matcher.py): the label matcher and its metrics.
-- - Nested: nested dictionaries, with deep_merge and the access along keys of smart/utils/dict.py.
-- - Store (smart/utils/store/store.py and mp_store.py): `ContextState` and `MpState` on top of Nested,
--   which the tasks of smart/auto share; Store.Registry is the `ContextStore` that they come from.
-- - Trees: the stop flags of a task tree (smart/auto/ctx/tree_context.py), its start
--   (smart/auto/exec/tree_pod.py) and the receiver of smart/auto/util/task_util.py.
-- - Dag (smart/utils/dag.py): the dependence set of items and its dictionary; Dag.Cycle is
--   `dag_find_cycle`, Dag.Sort is `dag_sort` (the visits of `__set_sort_key`, the run over all items
--   and the sort by their keys) and Dag.Items the sorts of `DagItemsTool`.
-- - AutoYml (smart/auto/parser/auto_yml.py): `parse_import_node`, and the syntax of nodes: Extend with
--   `__extend__`, `__ref__` and `__template__`, Sibling, Flatten with `dict_flattern`, Join with
--   `parse_join_node`, and TaskTree with `__flow__`, the normal form of a tree and its order, which
--   goes through Dag.Items.
-- - Func (smart/utils/bound.py): functions with bound arguments, and those that keep their result.
-- - WorkerState (smart/auto/ctx/worker_state.py): the counters of a worker.
-- - Cron (smart/rest/app/crond.py): `TimingTask`. Pager: auto_tasks/tools/t_pager.py.
--
-- Bounds and fuel: loops over lists are structural recursion, so no fuel is used but the number of
-- `recv` calls in Pip.ItemRecv and the number of runs of a worker in Retry; the theorems about them
-- say how many are enough. `dag_sort` has as much fuel as there are items, and its theorem shows
-- that this is enough; `dag_find_cycle` has twice as much as there are keys, and one more, which its
-- theorem shows to be enough; the imports of AutoYml take fuel for the files that have not been imported.
-- Numbers are natural numbers; times are counts of clock ticks, so a time-out below zero, which the
-- code treats as zero, is not modelled. What a queue, a clock or a receiver answers is an argument,
-- for every answer. The waits of Manage.Stages and Store.Wait and the loop of Cron run on the turns
-- that they are given, and their theorems hold for all of them.
--
-- Not modelled: the process pool of the task service, the loading of classes and hooks, the `__if__`
-- of a configuration and the deep parse of its configs node, the servers and their requests,
-- templates and serialisation, Redis, Kafka and CUDA clients, files and logs. In what is modelled,
-- KeyboardInterrupt, logging and `QueuePip.clean` are left out, and so are the stop branch and
-- `join` of a task's workers.
--
-- Each component has a module of small samples, which run it on concrete inputs.
pub mod Prelude
pub mod Dict
pub mod Text
pub mod Batch
pub mod Pip
pub mod TaskExp
pub mod KeyPath
pub mod TaskFinder
pub mod TaskKey
pub mod FnChain
pub mod GroupBy
pub mod Retry
pub mod Manage
pub mod Items
pub mod Aggregate
pub mod AutoYml
pub mod Nested
pub mod Store
pub mod Labels
pub mod Cron
pub mod Trees
pub mod Pager
pub mod Dag
pub mod Func
pub mod WorkerState
pub mod Url
pub mod Route
