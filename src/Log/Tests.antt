-- ===== src/Log/Tests.antt =====
-- log.c on a queue of two outputs.
use nvhttpd.Base.{false, [], ◌∷◌, none, refl}
use nvhttpd.Log.{LogQueue, append_output, enqueue}
use nvhttpd.Log.Fifo.{Apart, Chain, Holds, Takes, enqueue-appends, dequeue-Takes}

program : Unit {0}
unfolding append_output enqueue Apart Chain
program = tt

abbrev fresh_queue : LogQueue
fresh_queue = record { head = none; tail = none; stop = false; next = λ a. none }

abbrev two : LogQueue
two = enqueue (enqueue fresh_queue 10) 20

two-Holds : Holds two (10 ∷ 20 ∷ [])
unfolding program
two-Holds = (refl, (refl, tt), (refl, refl, refl))

thirty-Apart : Apart 30 (10 ∷ 20 ∷ [])
unfolding program
thirty-Apart = (refl, (refl, tt))

enqueue-appends_example : Holds (enqueue two 30) (10 ∷ 20 ∷ 30 ∷ [])
enqueue-appends_example = enqueue-appends two 30 (10 ∷ 20 ∷ []) two-Holds thirty-Apart

dequeue-Takes_example : Takes two (10 ∷ 20 ∷ [])
dequeue-Takes_example = dequeue-Takes two (10 ∷ 20 ∷ []) two-Holds
