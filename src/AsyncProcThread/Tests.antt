-- ===== src/AsyncProcThread/Tests.antt =====
-- A thread with room for two messages, three of which come before its loop runs.
use tarsx.Prelude.{◌≡◌, refl, false, List, [], ◌∷◌, ◌==◌}
use tarsx.AsyncProcThread.{AsyncProcThread, called_back, printed, deleted}
use tarsx.AsyncProcThread.Accounts.{
  Account, Step, pushed, round, terminated, account_step, account_run,
}

abbrev script : List Step
script = pushed 7 ∷ pushed 8 ∷ pushed 9 ∷ round ∷ round ∷ round ∷ terminated ∷ []

abbrev nothing : Account
nothing = record { waiting = []; ended = false; deeds = [] }

account_run-script :
    (account_run (λ m. m == 7) 2 script nothing).deeds
    ≡ deleted 8 ∷ printed 8 ∷ deleted 7 ∷ called_back 7 ∷ deleted 9 ∷ []
unfolding account_run account_step
account_run-script = refl

abbrev two_places : AsyncProcThread
two_places = record {
  msg_queue = record { p = 0 ∷ 0 ∷ 0 ∷ []; capacity = 3; capacity_sub = 2; begin_ = 0; end_ = 0 };
  terminate_ = false;
  deeds = [];
}
