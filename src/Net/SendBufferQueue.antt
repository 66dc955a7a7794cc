-- ===== src/Net/SendBufferQueue.antt =====
-- SendBufferQueue (SendBuffer.h). `concurrency::concurrent_queue` is a list, its oldest entry first.
use simple_mmo.Prelude.{Bool, true, false, Option, none, some, List, [], ◌∷◌, ◌++◌}
use simple_mmo.Net.SendBuffer.{SendBuffer}

abbrev pub push : SendBuffer → List SendBuffer → List SendBuffer
push b q = q ++ (b ∷ [])

abbrev pub try_pop : List SendBuffer → Option (SendBuffer × List SendBuffer)
try_pop [] = none
try_pop (b ∷ q) = some (b, q)

abbrev pub is_empty : List SendBuffer → Bool
is_empty [] = true
is_empty (b ∷ q) = false
