-- ===== src/Memory/Claims.antt =====
-- internal/memory/store.go: which claims hold.
use heros_agent.Base.{List, sort_by, sort_by}
use mathlib.Core.List.{Memᴰ}
use mathlib.Core.List.Memᴰ
use heros_agent.Memory.Mem.{Mem}
