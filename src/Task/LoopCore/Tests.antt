-- ===== src/Task/LoopCore/Tests.antt =====
-- The core of Linux after an event is removed.
use libpeco.Base.{true, none, ◌≡◌}
use libpeco.Task.LoopCore.{init, add_read_event, add_write_event, del_read_event}
use libpeco.Task.LoopCore.Empty.{done, then_step, dels_read, Steps-init}

Steps-init_example :
    (del_read_event 7 init ≡ init)
    × (add_read_event true 5 (del_read_event 7 init) ≡ none)
    × (add_write_event true 5 (del_read_event 7 init) ≡ none)
Steps-init_example = Steps-init (del_read_event 7 init) true 5 (then_step done (dels_read 7))
