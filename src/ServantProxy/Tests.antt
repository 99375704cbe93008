-- ===== src/ServantProxy/Tests.antt =====
-- A thread with one queue, with room and full.
use tarsx.Prelude.{
  ℕ, zero, suc, ◌<◌, ◌≤◌, ◌≡◌, refl, subst, true, none, some, List, [], ◌∷◌, arith, length,
  get_elem?,
}
use tarsx.LoopQueue.{LoopQueue}
use tarsx.LoopQueue.Uses.{Ring}
use tarsx.Message.{ReqMessage, async_call, fresh}
use tarsx.LoopQueue.Tests.{wrapped, wrapped-Ring}
use tarsx.ObjectProxy.Tests.{ring, ring-Ring}
use tarsx.ServantProxy.{ThreadData, ServantProxy, invoke, is_sync, parse_request, request_text}
use tarsx.ServantProxy.Choose.{Ready}
use tarsx.ServantProxy.Text.{parse_request-request_text}
use tarsx.ServantProxy.Invoke.{Handed, Refused, invoke_lem, invoke-full}

abbrev proxy : ServantProxy
proxy = record { object_proxy = 40 ∷ []; object_proxy_num = 1; queue_size = 1000 }

abbrev caller : ThreadData
caller = record {
  req_queue = ring ∷ [];
  queue_init = true;
  net_seq = 0;
  net_thread_seq = none;
  object_proxy_num = 1;
}

caller-Ready : Ready proxy caller
caller-Ready = record {
  made = refl;
  proxies = refl;
  queues = refl;
  turn = omega arith;
  own = λ i e. cc;
}

has_room :
    (i : ℕ) (q : LoopQueue ℕ)
    → get_elem? (ring ∷ []) i ≡ some q
    → (ws : List ℕ) × Ring 2 q ws × (length ws < 2)
has_room zero q e =
    let same : ring ≡ q = cc in ([], subst (λ x. Ring 2 x []) same ring-Ring, omega arith)
has_room (suc i) q e = cc

invoke_lem_example :
    Handed proxy caller 2 5
      (is_sync (fresh).type_)
      (invoke proxy (λ i. []) 10 20 5 (λ m. fresh) caller)
invoke_lem_example = invoke_lem proxy (λ i. []) 2 10 20 5 (λ m. fresh) caller caller-Ready has_room

parse_request-request_text_example :
    parse_request (some 49 ∷ some 58 ∷ request_text (some 97 ∷ []) (some 98 ∷ []))
    ≡ (request_text (some 97 ∷ []) (some 98 ∷ []), some 97 ∷ [])
parse_request-request_text_example =
    parse_request-request_text (some 49 ∷ []) (some 97 ∷ []) (some 98 ∷ []) (omega arith, tt)
      (omega arith, tt)

abbrev crowded : ThreadData
crowded = record caller { req_queue = wrapped ∷ [] }

crowded-Ready : Ready proxy crowded
crowded-Ready = record {
  made = refl;
  proxies = refl;
  queues = refl;
  turn = omega arith;
  own = λ i e. cc;
}

all_full :
    (i : ℕ) (q : LoopQueue ℕ)
    → get_elem? (wrapped ∷ []) i ≡ some q
    → (ws : List ℕ) × Ring 2 q ws × (2 ≤ length ws)
all_full zero q e =
    let same : wrapped ≡ q = cc in
    (7 ∷ 8 ∷ [], subst (λ x. Ring 2 x (7 ∷ 8 ∷ [])) same wrapped-Ring, omega arith)
all_full (suc i) q e = cc

-- An asynchronous message, and the synchronous one.
abbrev later : ReqMessage
later = record fresh { type_ = async_call }

invoke-full_example :
    Refused proxy crowded 2 5 (invoke proxy (λ i. []) 10 20 5 (λ m. later) crowded)
unfolding is_sync
invoke-full_example =
    invoke-full proxy (λ i. []) 2 10 20 5 (λ m. later) crowded crowded-Ready all_full

full_sync : invoke proxy (λ i. []) 10 20 5 (λ m. fresh) crowded ≡ none
unfolding is_sync
full_sync = invoke-full proxy (λ i. []) 2 10 20 5 (λ m. fresh) crowded crowded-Ready all_full
