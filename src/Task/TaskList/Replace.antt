-- ===== src/Task/TaskList/Replace.antt =====
-- replace_time, and has, of a task that is in the timed map.
use libpeco.Base.{some, ◌≡◌}
use libpeco.Task.Types.{Time, Fd, Task, EventType}
use libpeco.Task.TaskList.{TaskList, item_of, insert, replace_time}
use libpeco.Task.TaskList.Order.{IsOrdered}
use libpeco.Task.TaskList.Insert.{IsFresh, map_find-map_assign, map_erase_at-map_assign}

module _ {W : Type 0} where
  -- Moving a task that was inserted into a list of strictly rising times, where no entry had its id
  -- or its time, gives the list that inserting it with the new time in the first place gives, with
  -- the handler that it was inserted with, and returns the new time, of which nothing is supposed.
  pub replace_time-insert :
      (t : Task) (w : W) (fd : Fd) (ev : EventType) (time : Time) (l : TaskList W)
      → IsOrdered l.ordered_time_map
      → IsFresh (item_of t) l.ordered_time_map
      → replace_time t time (insert (some t) w fd ev l)
        ≡ (insert (some (record t { next_fire_time = time })) w fd ev l, time)
  unfolding replace_time insert
  replace_time-insert t w fd ev time l o f = rw (
    map_find-map_assign (item_of t) w 0 l.ordered_time_map o f,
    replace_time,
    map_erase_at-map_assign (item_of t) w 0 l.ordered_time_map o f,
  )
