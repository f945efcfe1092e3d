-- ===== src/Dag/Sort.antt =====
-- internal/task/task.go: the `sort.Slice` of `ids`.
use heros_agent.Base.{List, String, sort_by, mem-sort_by, mem_of_sort_by}
use mathlib.Core.List.{Memᴰ}

unfoldable pub sort : List String → List String
sort = sort_by (λ id. id)

-- Sorting keeps exactly the members.
pub mem-sort : (k : String) (xs : List String) → Memᴰ k xs → Memᴰ k (sort xs)
unfolding sort
mem-sort k xs = mem-sort_by (λ id. id) xs k

pub mem_of_sort : (k : String) (xs : List String) → Memᴰ k (sort xs) → Memᴰ k xs
unfolding sort
mem_of_sort k xs = mem_of_sort_by (λ id. id) xs k
