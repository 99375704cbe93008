-- ===== src/Socket/Tests.antt =====
-- A socket that is made, connected, made anew and closed.
use tarsx.Prelude.{◌≡◌, refl, true, some, [], ◌∷◌}
use tarsx.Socket.{Socket, construct, close, destruct, create, create_socket, in_progress, connect}
use tarsx.Socket.Owned.{creates, connects, call, calls, destruct-calls}

abbrev last : Socket
last = record { fd = some 6; owner = true; inet = true; closed = 5 ∷ [] }

destruct-calls_example : (destruct last).closed ≡ 5 ∷ 6 ∷ []
unfolding calls call construct close create create_socket connect
destruct-calls_example =
    destruct-calls (creates true (some 5) ∷ connects in_progress ∷ creates true (some 6) ∷ []) last
      refl
