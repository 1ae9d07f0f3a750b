-- ===== src/Tests/Histories.antt =====
-- A history of one task on the tests' table of rows: it is put, updated, and put again from what was
-- read before the update.
use godynamo.Prelude.{◌≢◌, refl, arith, some}
use godynamo.Fault.{ok}
use godynamo.Io.{at}
use godynamo.Crud.{put}
use godynamo.Update.{run}
use godynamo.Table.Stamped.{HasDefaultKey}
use godynamo.Table.Updated.{run-heap}
use godynamo.Table.History.{HasIdKeys, History, here, next, wrote, updated, updating, Step}
use godynamo.Table.History.Counted.{
  VersionIs, count-VersionIs, put-after_history, run-after_history,
}
use godynamo.Tests.Fixtures.{task, model_7}
use godynamo.Tests.Keying.{task_tags, parse_task, task-IsEntityType, task_tags-IsDefault}
use godynamo.Tests.Stored.{
  start, first, first_ok, stored_model, a_task-HasDefaultKey, task-KeepsVersion,
}
use godynamo.Tests.Client.{row_env, row_db}
use godynamo.Tests.Store.{row_table, row_db-HasOwnIndex}
use godynamo.Tests.Transacting.{row_transacts}
use godynamo.Tests.Updating.{
  row_updates, an_update, after_update, after_update_ok, updated_task, stored_task-HasDefaultKey,
  first_version,
}

pub task-HasIdKeys : HasIdKeys task task_tags
task-HasIdKeys = record {
  entity = task-IsEntityType;
  parsed = parse_task;
  default = task_tags-IsDefault;
  keeps = task-KeepsVersion;
}

abbrev update_step :
    Step row_env row_db row_table row_updates row_transacts task task_tags 7 first.1 after_update.1
update_step = updated "bob" an_update.ops (some 1) updated_task after_update_ok refl

abbrev pub from_first :
    History row_env row_db row_table row_updates row_transacts task task_tags 7 first.1
      after_update.1
from_first = next here update_step

abbrev from_start :
    History row_env row_db row_table row_updates row_transacts task task_tags 7 start after_update.1
from_start =
    next (next here (wrote "ann" 3 model_7 a_task-HasDefaultKey refl first_ok refl)) update_step

count-VersionIs_example :
    VersionIs row_env row_db row_table row_updates row_transacts task task_tags 7 row_db-HasOwnIndex
      task-HasIdKeys after_update.1 2
unfolding row_table
count-VersionIs_example =
    count-VersionIs row_env row_db row_table row_updates row_transacts task task_tags 7
      row_db-HasOwnIndex task-HasIdKeys 0 from_start refl

pub after_update-HasDefaultKey : HasDefaultKey task task_tags stored_model (after_update.1.heap 3)
after_update-HasDefaultKey =
    rw
      (run-heap row_env an_update row_table row_updates task task_tags task-IsEntityType parse_task
        task_tags-IsDefault "bob" first.1)
      stored_task-HasDefaultKey

put-after_history_example : (put row_env row_db "eve" task (at 3) after_update.1).0 ≢ ok tt
put-after_history_example =
    put-after_history row_env row_db row_table row_updates row_transacts task task_tags 7
      row_db-HasOwnIndex task-HasIdKeys from_first "eve" 3 stored_model (tt, λ d. d) (omega arith)
      (omega arith) first_version after_update-HasDefaultKey refl

run-after_history_example :
    (run row_env "eve" task
      (updating row_env row_db row_table row_updates row_transacts task task_tags 7 an_update.ops
        (some 1))
      after_update.1).0
    ≢ ok updated_task
run-after_history_example =
    run-after_history row_env row_db row_table row_updates row_transacts task task_tags 7
      row_db-HasOwnIndex task-HasIdKeys from_first "eve" an_update.ops 1 updated_task (tt, λ d. d)
      (omega arith) (omega arith) first_version
