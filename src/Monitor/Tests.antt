-- ===== src/Monitor/Tests.antt =====
-- Two notifications, and a third one to all.
use tarsx.Prelude.{◌≡◌, false, [], ◌∷◌, arith}
use tarsx.Monitor.{signal, Monitor, lock, unlock, wait}
use tarsx.Monitor.Notified.{notify_each, unlock-notify_each}

abbrev idle : Monitor
idle = record { notify_ = 5 }

unlock-notify_each_example :
    ((unlock (notify_each (false ∷ false ∷ []) (lock idle))).0 ≡ signal ∷ signal ∷ [])
    × ((wait (notify_each (false ∷ false ∷ []) (lock idle))).0 ≡ signal ∷ signal ∷ [])
unlock-notify_each_example = unlock-notify_each (false ∷ false ∷ []) idle (omega arith)
