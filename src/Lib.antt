-- ===== src/Lib.antt =====
-- Verification of a framework prototype that schedules tasks, decides by a graph of conditions
-- what runs, and looks data products up by their keys.
--
-- The parts and how they interact. Concurrency/ holds the tasks: a WaitingTask runs when the
-- last WaitingTaskHolder of it is done, a WaitingTaskList keeps such tasks until a resource is
-- ready, and a SerialTaskQueue runs its tasks one at a time in the task groups of TBB. A
-- SerialTaskQueueChain holds several such queues for an action by pausing them, a LimitedTaskQueue offers
-- each action to all of its queues, and a chain made by chain_first runs functors one after the other. A
-- ThreadSafeAddOnlyContainer keeps objects that any thread adds.
-- ControlFlow/ holds the decision graph: leaves and AND and OR nodes that ask each other for
-- decisions and send them on, started by a StartDecisionGraph. DataModel/ holds the keys of
-- products and of transition records, and the index of a product's resolver. ProductHandling/
-- maps keys to indices (ProductResolverIndexHelper), one helper for each record
-- (ProductResolverIndexHelpersBuilder), and holds the records of a transition. Base/ holds the
-- exception class.
--
-- Which file models what. Paths of the code are from the repository's root.
--   Common, Common/{Tests, Lists, Order, OrderedMap}: shared names, Boolean tests, lists measured by
--     native numbers, total orders as an interface, and std::map as a sorted association list.
--   Concurrency/SerialTaskQueue/: src/Concurrency/Concurrency/SerialTaskQueue.h and
--     src/Concurrency/src/SerialTaskQueue.cc. A call is a program counter (Pc), and `advance` does
--     its next atomic operation; System lets any number of calls interleave. The concurrent_queue of
--     TBB is the parameter ConcurrentQueue, of which first in, first out is assumed.
--   Concurrency/WaitingTask/: src/Concurrency/Concurrency/{TaskBase, WaitingTask,
--     WaitingTaskHolder}.h. In Defs and Holding each member function of a holder is one step,
--     and a task that is handed to task_group::run is appended to `spawned`; Interleaving has one
--     task and the operations of its holders' calls in any order.
--   Concurrency/ArenaHolder/: src/Concurrency/Concurrency/WaitingTaskWithArenaHolder.h and
--     src/Concurrency/src/WaitingTaskWithArenaHolder.cc, together with the holders above.
--   Concurrency/QueueChain/: src/Concurrency/Concurrency/SerialTaskQueueChain.h, on the pause counts of
--     the queues. A closure in a queue may start at any later time.
--   Concurrency/AddOnlyContainer/: src/Concurrency/Concurrency/ThreadSafeAddOnlyContainer.h, with nodes
--     at addresses of a store and program counters as above.
--   Concurrency/Chain/: src/Concurrency/Concurrency/chain_first.h. A functor is taken with all that it
--     starts, and a task owns the next one.
--   Concurrency/WaitingTaskList/: src/Concurrency/Concurrency/WaitingTaskList.h and
--     src/Concurrency/src/WaitingTaskList.cc, with program counters as above. The nodes from m_head on are
--     one list, each with a flag until its link is written; Cache/ has createNode, the nodes it
--     gives out, and the links between them when one thread at a time is in the list. Its loop of
--     announce runs on fuel, one unit for each node and one more.
--   Concurrency/LimitedTaskQueue/: src/Concurrency/Concurrency/LimitedTaskQueue.h. Resumer and Pausing
--     have the class Resumer and the pause counts of its queues, each member function as one step;
--     Actions, Once and Limits have push and pushAndPause, with program counters as above.
--   ControlFlow/: src/ControlFlow/. Status has the enums and the two operators, Node one node's
--     methods, each with the calls it makes, and Graph the calls between nodes. Tree/ has whole trees
--     of nodes, from their constructors to the end of the calls, with the leaf of
--     src/ControlFlow/test/DummyDecisionNode.h, which gives the task group a closure that sends its
--     answer; a run has the group run a closure as soon as it has it.
--   DataModel/: src/Base/Base/TypeIDBase.h and src/DataModel/DataModel/{ProductKey,
--     TransitionRecordKey, ProductResolverIndex}.h.
--   ProductHandling/IndexHelper/: src/ProductHandling/{ProductHandling, src}/
--     ProductResolverIndexHelper.{h, cc}.
--   ProductHandling/{Builder, Agreement}: ProductResolverIndexHelpersBuilder.{h, cc} there, with the
--     interface ProductResolversProvider as a record.
--   ProductHandling/Record: TransitionRecordImpl.h and TransitionContext.{h, cc} there.
--   Base/Exception/: src/Base/Base/Exception.h and src/Base/src/Exception.cc.
--   Base/TypeDemangler/: src/Base/src/TypeDemangler.cc. abi::__cxa_demangle and the regular expression
--     are parameters.
--
-- Bounds and fuel. Reference counts, indices and the counts of a decision node are 32 bits wide and
-- the pause count is 64 bits wide; they wrap around in the definitions, and a theorem that needs
-- them not to wrap has the bound as a hypothesis. The calls of a decision graph run on fuel, one for
-- each call; the theorem that uses it gives the fuel that is enough. The digits of a number take
-- one unit of fuel each, and the number itself plus one is enough. The loops on a demangled name run on
-- fuel; where one ends, the length of the name plus one is enough, and where one does not, no fuel is. The
-- destructor of the container takes one unit of fuel for each node. A chain of queues and a limited queue
-- have at least one queue.
--
-- Not modelled: the destructor and the move constructor of SerialTaskQueue, the execution and
-- deletion of a spawned task, WaitingTaskList::add of a holder, whose second setNextNode may
-- go to a node that is no longer its own,
-- the order in which LimitedTaskQueue and SerialTaskQueueChain find their queues running tasks
-- (any order is taken), which are left for later; the settings of TBB,
-- output streams and macros, which have little logic of their own; and classes that are empty or
-- only declared.
pub mod Base
pub mod Common
pub mod Concurrency
pub mod ControlFlow
pub mod DataModel
pub mod ProductHandling
