-- ===== src/Concurrency/SerialTaskQueue/LateStart.antt =====
-- A pause that comes between the test of `m_pauseCount` in `pickNextTask` and what follows it.
use unify_prototype.Common.{List, [], ◌∷◌, ◌++◌, some}
use unify_prototype.Concurrency.SerialTaskQueue.Defs.{
  Task, client, runner, Pc, pushing, pausing, picking, locking, choosing, popping, unlocking, ready,
  executing, finishing, advance,
}
use unify_prototype.Concurrency.SerialTaskQueue.System
use unify_prototype.Concurrency.SerialTaskQueue.System.{
  System, idle, Call, Step, Reach, at_start, later,
}
use unify_prototype.Concurrency.SerialTaskQueue.ListQueue.{fifo}

-- The system after the call at a place goes on.
abbrev go_on : System fifo → List Pc → Pc → List Pc → System fifo
go_on s before p after = record {
  shared = (advance fifo s.shared p).0;
  calls = before ++ (advance fifo s.shared p).1 ++ after;
}

abbrev begin : System fifo → Call → System fifo
begin s c = record s { calls = System.start c ∷ s.calls }

module _ (t1 t2 : Task) where
  abbrev s1 : System fifo
  s1 = begin (idle fifo) (System.push t1)

  abbrev s2 : System fifo
  s2 = go_on s1 [] (pushing t1) []

  abbrev s3 : System fifo
  s3 = go_on s2 [] (picking client) []

  abbrev s4 : System fifo
  s4 = go_on s3 [] (locking client) []

  abbrev s5 : System fifo
  s5 = go_on s4 [] (choosing client) []

  abbrev s6 : System fifo
  s6 = go_on s5 [] (popping client) []

  abbrev s7 : System fifo
  s7 = go_on s6 [] (unlocking client (some t1)) []

  abbrev s8 : System fifo
  s8 = go_on s7 [] (ready t1) []

  abbrev s9 : System fifo
  s9 = begin s8 (System.push t2)

  abbrev s10 : System fifo
  s10 = go_on s9 [] (pushing t2) (executing t1 t1.group ∷ [])

  abbrev s11 : System fifo
  s11 = go_on s10 [] (picking client) (executing t1 t1.group ∷ [])

  abbrev s12 : System fifo
  s12 = begin s11 (System.pause)

  abbrev s13 : System fifo
  s13 = go_on s12 [] (pausing) (locking client ∷ executing t1 t1.group ∷ [])

  abbrev s14 : System fifo
  s14 = go_on s13 (locking client ∷ []) (executing t1 t1.group) []

  abbrev s15 : System fifo
  s15 = go_on s14 (locking client ∷ []) (finishing t1.group) []

  abbrev s16 : System fifo
  s16 = go_on s15 (locking client ∷ []) (picking (runner t1.group)) []

  abbrev s17 : System fifo
  s17 = go_on s16 [] (locking client) []

  abbrev s18 : System fifo
  s18 = go_on s17 [] (choosing client) []

  abbrev s19 : System fifo
  s19 = go_on s18 [] (popping client) []

  abbrev s20 : System fifo
  s20 = go_on s19 [] (unlocking client (some t2)) []

  abbrev s21 : System fifo
  s21 = go_on s20 [] (ready t2) []
