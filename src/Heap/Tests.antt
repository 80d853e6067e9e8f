-- ===== src/Heap/Tests.antt =====
-- Runs of heap.go's order.
use go_cron.Prelude.{◌≡◌, true, false, ◌||◌, some, none}
use go_cron.Prelude.Int.{pos}
use go_cron.Heap.{Entry, less}
use go_cron.Heap.Order.{less-StrictWeakOrder}

abbrev urgent : Entry
urgent = record { next = some 100; priority = pos 5 }

abbrev usual : Entry
usual = record { next = some 100; priority = pos 0 }

abbrev dormant : Entry
dormant = record { next = none; priority = pos 9 }

less-StrictWeakOrder_example :
    (less urgent urgent ≡ false)
    × (less urgent usual ≡ true → less usual dormant ≡ true → less urgent dormant ≡ true)
    × (less urgent dormant ≡ true → (less urgent usual || less usual dormant) ≡ true)
less-StrictWeakOrder_example = less-StrictWeakOrder urgent usual dormant
