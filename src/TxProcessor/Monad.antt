-- ===== src/TxProcessor/Monad.antt =====
-- Methods of a TxProcessor: they change the state and may fail, and what was changed before a
-- failure stays changed.
use hermez_node.Prelude.Result.{Result, ok, err}
use hermez_node.Prelude.Action.{Method}
use hermez_node.StateDb.{StateDb}
use hermez_node.TxProcessor.State.{State}
pub use hermez_node.Prelude.Action.{◌>>=◌, ◌>>◌, pure, throw, read, gets, throw_if, modify}

abbrev pub Action : Type 0 → Type 0
Action A = Method State A

-- an operation of the StateDB, which changes nothing when it fails
abbrev pub on_db : (StateDb → Result StateDb) → Action (Unit {0})
on_db f s = elim (f s.db) [ ok db ↦ (ok tt, record s { db = db }) | err e ↦ (err e, s) ]
