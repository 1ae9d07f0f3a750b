-- ===== src/Table/ReadBack/Transacted.antt =====
-- A queued `Put` of transact.go and then `Get` of crud.go on a table of rows.
use godynamo.Env.{Env}
use godynamo.Db.{Db}
use godynamo.Table.{Table}
